-- ===== src/HostAgent/Server.antt =====
-- The requests that the agent answers: `AgentRequestHandler`, with `status` and `releases`.
pub mod Guarded
use Prim.Native.Char.{code}
use wolt.Prelude.{
  ℕ, String, Bool, true, false, not, ◌&&◌, ◌||◌, ◌==◌, leb, Option, none, some, List, [], ◌∷◌,
  str_eq, is_empty, has_prefix, has_part, append, all_chars, if◌then◌else◌, ℤ, pos, negsuc,
}
use wolt.Errors.{Error, Result, ok, err, or_raise, agent_error, value_error, attribute_error}
use wolt.Json.{
  Json, null, boolean, number, text, array, object, Items, nil, item, Fields, end, get_field,
  get_text,
}
use wolt.HostAgent.{
  AgentConfig, Agent, Machine, Rule, Job, Stored, Rollback, Command, ufw_status, Step, ◌>>=◌, ◌>>◌,
  pure, raise, lift, read_store, run,
}
use wolt.HostAgent.Firewall.{Preview, firewall_preview, apply_firewall}
use wolt.HostAgent.Jobs.{find_job, start_job}
use wolt.HostAgent.Image.{is_version_rest}
use wolt.HostAgent.Deployment.{get_int}

pub record HostStatus : Type 0 where
  pub ufw_available : Bool
  pub ufw_active : Bool
  pub ufw_status_error : Bool
  pub docker_available : Bool
  pub cosign_available : Bool
  pub image_repository : String
  pub managed_firewall : Option Rule
  pub deployment : Option (ℕ × ℕ)
  pub last_successful : Option (String × ℕ)

-- Whether the firewall is active, and whether asking failed.
abbrev ufw_state : AgentConfig → Machine → Step (Bool × Bool)
ufw_state config host a =
    if not (host.present config.ufw_binary)
    then (ok (false, false), a)
    else let r = run host ufw_status a in
      elim (r.0) [
        | ok output ↦ (ok (has_part "Status: active" output, false), r.1)
        | err e ↦ (ok (false, true), r.1)
      ]

abbrev map_step : {A B : Type 0} → (A → B) → Step A → Step B
map_step f m = m >>= λ x. pure (f x)

abbrev status_view : AgentConfig → Machine → Stored → Bool × Bool → HostStatus
status_view config host state (active, failing) = record {
  ufw_available = host.present config.ufw_binary;
  ufw_active = active;
  ufw_status_error = failing;
  docker_available = host.present config.docker_binary;
  cosign_available = host.present config.cosign_binary;
  image_repository = config.image_repository;
  managed_firewall = state.firewall;
  deployment = state.deployment;
  last_successful = state.last_successful;
}

-- `status`
unfoldable pub status : AgentConfig → Machine → Step HostStatus
unfolding run has_part
status config host = do
  state ← read_store
  map_step (status_view config host state) (ufw_state config host)

pub record Release : Type 0 where
  pub name : String
  pub digest : Option Json
  pub updated_at : Option Json

-- `CANONICAL_VERSION_PATTERN.fullmatch`
unfoldable pub is_canonical : Machine → String → Bool
unfolding is_version_rest
is_canonical host String.[] = false
is_canonical host (String.◌∷◌ c s) = code c == 118 && is_version_rest host 2 false s

-- The rows of `releases`; a row that is no object has no `get`.
unfoldable pub release_rows : Machine → Items → Result (List Release)
unfolding is_canonical get_text get_field
release_rows host nil = ok []
release_rows host (item (object row) rows) = elim (release_rows host rows) [
  | err e ↦ err e
  | ok rest ↦
      let name = get_text host.str_of "name" row in
      if is_canonical host name
      then ok (
          record {
            name = name;
            digest = get_field "digest" row;
            updated_at = get_field "last_updated" row;
          }
          ∷ rest)
      else ok rest
]
release_rows host (item _ rows) = err attribute_error

-- `releases`, where the answer of the registry is an object with a list of results, if any.
unfoldable pub releases : Machine → Result (List Release)
unfolding release_rows get_field
releases host = elim (host.tags) [
  | none ↦ err (agent_error "release_discovery_failed" 502)
  | some payload ↦ elim (get_field "results" payload) [
    | some (array rows) ↦ release_rows host rows
    | none ↦ ok []
    | _ ↦ err attribute_error
  ]
]

pub record HttpRequest : Type 0 where
  pub method : String
  pub path : String
  pub authorization : Option String
  -- `int` of the header "Content-Length", "0" if there is none; `none` where `int` refuses it
  pub content_length : Option ℤ
  pub body : String

pub data Reply : Type 0 where
  host_status : HostStatus → Reply
  release_list : List Release → Reply
  job_view : Job → Reply
  preview_view : Preview → Reply
  rule_view : Rule → Reply
  job_started : String → Reply
  detail_view : String → Reply

-- `hmac.compare_digest` of the header and the expected one; `none` where it raises for a text that
-- is not ASCII.
unfoldable pub authorized : AgentConfig → HttpRequest → Option Bool
authorized config request =
    if all_chars (λ c. leb c 127) (header request.authorization)
      && all_chars (λ c. leb c 127) config.token
    then some (str_eq (header request.authorization) (append "Bearer " config.token))
    else none
  where
    header : Option String → String
    header none = ""
    header (some h) = h

-- `_payload`
unfoldable pub payload_of : Machine → HttpRequest → Result Fields
payload_of host request = elim (request.content_length) [
  | none ↦ err (value_error "int")
  | some (negsuc n) ↦ err (agent_error "request_too_large" 413)
  | some (pos n) ↦
      if not (leb n 16384)
      then err (agent_error "request_too_large" 413)
      else object_in (host.parse_json (if is_empty request.body then "{}" else request.body))
]
  where
    object_in : Option Json → Result Fields
    object_in (some (object fields)) = ok fields
    object_in _ = err (agent_error "invalid_json" 400)

-- `path.rsplit("/", 1)[-1]`, from the last segment so far.
unfoldable pub last_segment : String → String → String
last_segment current String.[] = current
last_segment current (String.◌∷◌ c s) =
    if code c == 47 then last_segment s s else last_segment current s

-- `firewall_preview` and `apply_firewall`, of the payload's values.
abbrev with_range : {A : Type 0} → Machine → Fields → (String → ℤ → ℤ → Step A) → Step A
with_range host payload call = do
  start ← lift (get_int host "udp_start" payload)
  last ← lift (get_int host "udp_end" payload)
  call (get_text host.str_of "source_ip" payload) start last

abbrev is_job_path : String → Bool
is_job_path path =
    str_eq path "/v1/deployment" || (str_eq path "/v1/upgrade" || str_eq path "/v1/rollback")

-- The requests with a payload; `job_id` is what `uuid4` draws for a new job.
unfoldable pub dispatch_post : Machine → String → HttpRequest → Fields → Step Reply
unfolding get_int get_text last_segment firewall_preview apply_firewall start_job
dispatch_post host job_id request payload =
    let post = str_eq request.method "POST" in
    if post && str_eq request.path "/v1/firewall/preview"
    then map_step preview_view (with_range host payload (firewall_preview host))
    else if post && str_eq request.path "/v1/firewall/apply"
    then map_step rule_view (with_range host payload (apply_firewall host))
    else if post && is_job_path request.path
    then map_step job_started (start_job job_id (last_segment request.path request.path))
    else raise (agent_error "not_found" 404)

-- `_dispatch`
unfoldable pub dispatch : AgentConfig → Machine → String → HttpRequest → Step Reply
unfolding status releases find_job payload_of dispatch_post has_prefix last_segment
dispatch config host job_id request =
    let get = str_eq request.method "GET" in
    if get && str_eq request.path "/v1/status"
    then map_step host_status (status config host)
    else if get && str_eq request.path "/v1/releases"
    then map_step release_list (lift (releases host))
    else if get && has_prefix "/v1/jobs/" request.path
    then map_step job_view (find_job (last_segment request.path request.path))
    else (lift (payload_of host request) >>= dispatch_post host job_id request)

-- The response to an exception; `none` where the handler lets it through.
abbrev pub refusal : Error → Option (ℕ × Reply)
refusal (agent_error why code) = some (code, detail_view why)
refusal (value_error why) = some (422, detail_view "invalid_request")
refusal _ = none

abbrev pub response : Result Reply → Option (ℕ × Reply)
response (ok reply) = some (200, reply)
response (err e) = refusal e

-- `_handle`
unfoldable pub handle_request :
    AgentConfig → Machine → String → HttpRequest → Agent → Option (ℕ × Reply) × Agent
unfolding authorized dispatch
handle_request config host job_id request a = elim (authorized config request) [
  | none ↦ (none, a)
  | some false ↦ (some (401, detail_view "host_agent_unauthorized"), a)
  | some true ↦ let r = dispatch config host job_id request a in (response (r.0), r.1)
]
