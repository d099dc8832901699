-- ===== src/HostAgent.antt =====
-- The host agent (host_agent/server.py): what it keeps, and what it asks of the machine it runs on.
-- A method takes the agent and gives its result, or the exception, with the agent as it left it.
pub mod EnvFile
pub mod Firewall
pub mod Jobs
pub mod Health
pub mod Runtime
pub mod Image
pub mod Database
pub mod Deployment
pub mod Upgrade
pub mod Execute
pub mod Server
use wolt.Prelude.{
  ℕ, suc, ℤ, ◌≡◌, refl, String, Bool, true, false, Option, none, some, List, [], ◌∷◌, ◌++◌, str_eq,
  if◌then◌else◌, decimal, concat, arith,
}
use wolt.Errors.{Error, Result, ok, err, agent_error, os_error}
use EnvFile.{Values, file_values, updated_text}
use wolt.Json.{Json, Fields}

pub record AgentConfig : Type 0 where
  pub token : String
  pub project_dir : String
  pub compose_file : String
  pub host_agent_compose_file : String
  pub env_file : String
  pub image_repository : String
  -- `state_file.parent`
  pub state_dir : String
  pub docker_binary : String
  pub ufw_binary : String
  pub cosign_binary : String
  pub systemd_run_binary : String
  -- `runtime_dir / "scripts" / "install-host-agent.sh"`
  pub installer : String
  pub signing_identity : String
  pub signing_issuer : String

-- A rule of the firewall, as the state file keeps it.
pub record Rule : Type 0 where
  pub source_ip : String
  pub udp_start : ℕ
  pub udp_end : ℕ

pub data JobStatus : Type 0 where
  running succeeded failed : JobStatus

pub record Job : Type 0 where
  pub id : String
  pub operation : String
  pub status : JobStatus
  pub error : Option String

abbrev pub Jobs : Type 0
Jobs = List (String × Job)

-- `state["rollback"]`; the firewall is there only after a deployment.
pub record Rollback : Type 0 where
  pub env : Values
  pub firewall : Option (Option Rule)
  pub database_backup : Option String
  pub runtime_backup : Option String

-- The state file.
pub record Stored : Type 0 where
  pub firewall : Option Rule
  pub deployment : Option (ℕ × ℕ)
  pub last_successful : Option (String × ℕ)
  pub rollback : Option Rollback
  pub jobs : Jobs

-- A command line of `_run`; `arguments` spells it.
pub data Command : Type 0 where
  ufw_status : Command
  ufw_rule : Bool → Rule → Command
  compose : List String → Command
  other : List String → Command

-- What is at the path of the environment file.
pub data EnvPath : Type 0 where
  regular : String → EnvPath
  linked : String → EnvPath
  missing : EnvPath

-- A copy of the runtime, as `_deploy_runtime` makes it: what was there.
pub record RuntimeBackup : Type 0 where
  pub compose_web : Option String
  pub compose_host : Option String
  pub version : Option String
  pub runtime : Option Values
  pub agent : Option Values

-- A directory that was copied out of an image: its files by relative path, and whether there is a
-- symbolic link in it.
pub record Bundle : Type 0 where
  pub files : Values
  pub has_link : Bool

pub record Agent : Type 0 where
  -- `self.jobs`
  pub jobs : Jobs
  pub store : Stored
  pub env_path : EnvPath
  -- the files of the project by their paths, and the directories of the runtime and the agent
  pub files : Values
  pub runtime_dir : Option Values
  pub agent_dir : Option Values
  -- what is under `state_file.parent`: dumps of the database, and copies of the runtime
  pub dumps : Values
  pub backups : List (String × RuntimeBackup)
  -- how many writes to the disk have been tried, and how many ids drawn
  pub writes : ℕ
  pub draws : ℕ
  -- the commands that succeeded, the last one first
  pub done : List Command
  -- `time.monotonic()`, in milliseconds
  pub clock : ℕ

-- The machine: what a command prints, if it succeeds, when these commands have succeeded before it;
-- whether a health request that starts at this time is answered by 200, and how long it takes;
-- `int(time.time())` at a time of the clock; `str(ipaddress.ip_address(…))`; the regular expression `\d`; `str` and `int` of a JSON value, where
-- `int` takes it; whether a write to the disk succeeds, and what a removal of a
-- directory that fails leaves of it; `uuid4`; whether there is a file; `json.loads`; what is
-- copied out of a container; and the registry's list of tags.
pub record Machine : Type 0 where
  pub answer : List Command → Command → Option String
  pub probe : List Command → ℕ → Bool × ℕ
  pub seconds : ℕ → ℕ
  pub ip_text : String → Option String
  pub is_decimal : ℕ → Bool
  pub str_of : Json → String
  pub int_of : Json → Option ℤ
  pub disk : ℕ → Bool
  pub remains : ℕ → Values → Values
  pub uuid : ℕ → String
  pub present : String → Bool
  pub parse_json : String → Option Json
  pub bundle : List Command → Bundle
  pub tags : Option Fields

-- `_ufw_rule`
unfoldable pub ufw_arguments : AgentConfig → Bool → Rule → List String
ufw_arguments config delete rule =
    (config.ufw_binary ∷ "--force" ∷ [])
    ++ (if delete then "delete" ∷ [] else [])
    ++ ("allow"
        ∷ "proto"
        ∷ "udp"
        ∷ "from"
        ∷ rule.source_ip
        ∷ "to"
        ∷ "any"
        ∷ "port"
        ∷ concat (decimal rule.udp_start ∷ ":" ∷ decimal rule.udp_end ∷ [])
        ∷ "comment"
        ∷ "WOLT-managed"
        ∷ [])

-- The command of `_compose`.
unfoldable pub compose_arguments : AgentConfig → List String → List String
compose_arguments config rest =
    config.docker_binary ∷ "compose" ∷ "--project-directory" ∷ config.project_dir ∷ "--env-file"
    ∷ config.env_file ∷ "-f" ∷ config.compose_file ∷ "-f" ∷ config.host_agent_compose_file ∷ rest

unfoldable pub arguments : AgentConfig → Command → List String
unfolding ufw_arguments compose_arguments
arguments config ufw_status = config.ufw_binary ∷ "status" ∷ []
arguments config (ufw_rule delete rule) = ufw_arguments config delete rule
arguments config (compose rest) = compose_arguments config rest
arguments config (other line) = line

abbrev pub Step : Type 0 → Type 0
Step A = Agent → Result A × Agent

infixl 5 ◌>>=◌ ◌>>◌
abbrev pub ◌>>=◌ : {A B : Type 0} → Step A → (A → Step B) → Step B
◌>>=◌ m f a = let r = m a in elim (r.0) [ ok x ↦ f x (r.1) | err e ↦ (err e, r.1) ]

abbrev pub ◌>>◌ : {A B : Type 0} → Step A → Step B → Step B
m >> k = m >>= λ _. k

-- A step that succeeds leaves the agent to the next one.
pub then_ok :
    {A B : Type 0} (m : Step A) (k : Step B) (a b : Agent) (x : A)
    → m a ≡ (ok x, b)
    → (m >> k) a ≡ k b
then_ok m k a b x e = ground (arith, e)

abbrev pub pure : {A : Type 0} → A → Step A
pure x a = (ok x, a)

abbrev pub raise : {A : Type 0} → Error → Step A
raise e a = (err e, a)

abbrev pub lift : {A : Type 0} → Result A → Step A
lift r a = (r, a)

-- `state = self.store.read()` and `self.store.write(state)`
abbrev pub read_store : Step Stored
read_store a = (ok a.store, a)

abbrev pub write_store : Stored → Step Unit
write_store s a = (ok tt, record a { store = s })

-- `_run`: a command that raises or ends with another status than 0 is an AgentError.
unfoldable pub run : Machine → Command → Step String
run host c a = elim (host.answer a.done c) [
  | none ↦ (err (agent_error "host_command_failed" 502), a)
  | some output ↦ (ok output, record a { done = c ∷ a.done })
]

-- `except AgentError as exc: raise e`
abbrev pub replace_agent_error : {A : Type 0} → Error → Result A → Result A
replace_agent_error e (err (agent_error _ _)) = err e
replace_agent_error e r = r

abbrev pub on_agent_error : {A : Type 0} → Error → Step A → Step A
on_agent_error e m a = let r = m a in (replace_agent_error e (r.0), r.1)

-- A write to the disk: it is done, or raises OSError and changes nothing.
unfoldable pub on_disk : Machine → (Agent → Agent) → Step Unit
on_disk host change a =
    let tried = record a { writes = suc a.writes } in
    if host.disk a.writes then (ok tt, change tried) else (err os_error, tried)

-- `uuid.uuid4()`
abbrev pub draw : Machine → Step String
draw host a = (ok (host.uuid a.draws), record a { draws = suc a.draws })

-- `_env_values`
unfoldable pub read_env : Step Values
unfolding file_values
read_env a = elim (a.env_path) [
  | regular content ↦ (ok (file_values content), a)
  | linked content ↦ (ok (file_values content), a)
  | missing ↦ (err os_error, a)
]

-- What `_update_env` does with what is at the path.
unfoldable pub update_path : Machine → Values → EnvPath → Step Unit
unfolding on_disk updated_text
update_path host changes (regular content) =
    on_disk host (λ b. record b { env_path = regular (updated_text changes content) })
update_path host changes _ = raise (agent_error "unsafe_environment_file" 400)

-- `_update_env`
unfoldable pub update_env : Machine → Values → Step Unit
unfolding update_path
update_env host changes a = update_path host changes a.env_path a

-- `_compose`
abbrev pub run_compose : Machine → List String → Step Unit
run_compose host rest = run host (compose rest) >> pure tt
