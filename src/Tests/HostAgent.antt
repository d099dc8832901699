-- ===== src/Tests/HostAgent.antt =====
-- Runs of the host agent on a small machine.
use wolt.Prelude.{
  String, ◌≡◌, refl, true, false, Option, none, some, [], ◌∷◌, ℤ, pos, leb, has_prefix, lstrip,
  if◌then◌else◌,
}
use wolt.Errors.{ok}
use wolt.Json.{Fields, Json, text, number, array, object, item, nil, field, end}
use wolt.HostAgent.{
  Bundle, AgentConfig, Agent, Machine, Rule, Job, running, Stored, Command, ufw_rule, compose,
  regular,
}
use wolt.HostAgent.EnvFile.{
  Values, lookup_value, file_values, updated_text, split_lines, assignment,
}
use wolt.HostAgent.EnvFile.Values.{or_else, value_of}
use wolt.HostAgent.EnvFile.Update.{file_values-updated_text}
use wolt.HostAgent.Runtime.{restore_runtime, snapshot}
use wolt.HostAgent.Runtime.Restore.{runtime_file, restore_runtime-snapshot}
use wolt.HostAgent.Image.{
  digest_of, is_digest, verified_image, verify_command, tagged_image, pinned_image,
}
use wolt.HostAgent.Image.Verified.{verified_image-ok}
use wolt.HostAgent.Server.{HttpRequest, authorized, handle_request}
use wolt.HostAgent.Server.Guarded.{Same, handle_request-guarded}

abbrev config : AgentConfig
config = record {
  token = "secret";
  project_dir = "/data";
  compose_file = "/data/compose.web.yml";
  host_agent_compose_file = "/data/compose.host-agent.yml";
  env_file = "/data/.env.web";
  image_repository = "ns/wolt";
  state_dir = "/var";
  docker_binary = "docker";
  ufw_binary = "ufw";
  cosign_binary = "cosign";
  systemd_run_binary = "systemd-run";
  installer = "/data/runtime/scripts/install-host-agent.sh";
  signing_identity = "identity";
  signing_issuer = "issuer";
}

abbrev pub sha : String
sha = "sha256:0123456789abcdef0123456789abcdef0123456789abcdef0123456789abcdef"

abbrev pub printed : Json
printed = array (
    item
      (object (
        field "critical"
          (object (field "image" (object (field "docker-manifest-digest" (text sha) end)) end))
          end))
      nil)

abbrev pub int_of_number : Json → Option ℤ
int_of_number (number n) = some (pos n)
int_of_number _ = none

-- Every command succeeds, a request is answered after the clock has reached 5000, and the disk works.
abbrev pub host : Machine
host = record {
  answer = λ before c. some "out";
  probe = λ before t. (leb 5000 t, 10);
  seconds = λ t. 7;
  ip_text = λ s. some s;
  is_decimal = λ c. leb 48 c;
  str_of = λ v. "";
  int_of = int_of_number;
  disk = λ n. true;
  remains = λ n files. [];
  uuid = λ n. "id";
  present = λ path. true;
  parse_json = λ s. some printed;
  bundle = λ before. record { files = []; has_link = false };
  tags = none;
}

abbrev rule : Rule
rule = record { source_ip = "10.0.0.1"; udp_start = 40000; udp_end = 40009 }

abbrev other_rule : Rule
other_rule = record { source_ip = "10.0.0.2"; udp_start = 40000; udp_end = 40009 }

abbrev store : Stored
store = record {
  firewall = some rule;
  deployment = none;
  last_successful = none;
  rollback = none;
  jobs = [];
}

-- The agent before, and after a file was changed.
abbrev old : Agent
old = record {
  jobs = [];
  store = store;
  env_path = regular "A=1\nB=2\n";
  files = ("/data/VERSION", "v1") ∷ [];
  runtime_dir = some [];
  agent_dir = none;
  dumps = [];
  backups = [];
  writes = 0;
  draws = 0;
  done = ufw_rule false rule ∷ [];
  clock = 4000;
}

abbrev agent : Agent
agent = record old {
  files = ("/data/VERSION", "v2") ∷ [];
  backups = ("copy", snapshot config old) ∷ [];
}

abbrev changes : Values
changes = ("B", "3") ∷ ("C", "4") ∷ []

update_test : updated_text changes "A=1\nB=2\n" ≡ "A=1\nB=3\nC=4\n"
unfolding updated_text assignment has_prefix lstrip
update_test = refl

file_values-updated_text_example :
    lookup_value "B" (file_values (updated_text changes "A=1\nB=2\n"))
    ≡ or_else (lookup_value "B" changes) (lookup_value "B" (file_values "A=1\nB=2\n"))
unfolding lookup_value assignment split_lines has_prefix lstrip value_of
file_values-updated_text_example =
    file_values-updated_text "B" "A=1\nB=2\n" changes (refl, (refl, tt)) (refl, (refl, tt))
      (refl, (refl, tt)) (refl, (refl, tt))

abbrev job : Job
job = record { id = "j"; operation = "upgrade"; status = running; error = none }

abbrev after_save : Agent
after_save = record agent {
  jobs = ("j", job) ∷ [];
  store = record store { jobs = ("j", job) ∷ [] };
}

restore_runtime-snapshot_example :
    (b : Agent) × (restore_runtime config host "copy" agent ≡ (ok tt, b))
    × (lookup_value "/data/VERSION" b.files
        ≡ lookup_value "/data/VERSION"
            (if runtime_file config "/data/VERSION" then old.files else agent.files))
    × (b.runtime_dir ≡ old.runtime_dir)
    × (b.agent_dir ≡ old.agent_dir)
unfolding lookup_value
restore_runtime-snapshot_example =
    restore_runtime-snapshot config host "copy" "/data/VERSION" old agent (λ n. refl) refl refl refl

abbrev verify : Command
verify = verify_command config (tagged_image config "v1.2.3")

verified_image-ok_example :
    (output : String) × (digest : String) × (host.answer agent.done verify ≡ some output)
    × (digest_of (host.parse_json output) ≡ some digest)
    × (is_digest digest ≡ true)
    × (pinned_image config sha ≡ pinned_image config digest)
    × (record agent { done = verify ∷ agent.done } ≡ record agent { done = verify ∷ agent.done })
unfolding verified_image
verified_image-ok_example =
    verified_image-ok config host "v1.2.3" (pinned_image config sha) agent
      (record agent { done = verify ∷ agent.done }) refl

abbrev request : HttpRequest
request = record {
  method = "POST";
  path = "/v1/upgrade";
  authorization = some "Bearer other";
  content_length = some (pos 0);
  body = "";
}

handle_request-guarded_example : Same agent (handle_request config host "id" request agent).1
unfolding authorized
handle_request-guarded_example = handle_request-guarded config host "id" request agent refl

abbrev deployed : Agent
deployed = record agent {
  store = record store { firewall = some other_rule };
  done = ufw_rule false other_rule ∷ [];
}

abbrev undone : Agent
undone = record agent {
  env_path = regular "A=1\nB=3\nC=4\n";
  writes = 1;
  done =
      compose ("up" ∷ "-d" ∷ "--no-build" ∷ "app" ∷ [])
      ∷ ufw_rule false rule
      ∷ ufw_rule true other_rule
      ∷ ufw_rule false other_rule
      ∷ [];
}

abbrev release : Bundle
release = record {
  files =
      ("VERSION", "v1.2.3")
      ∷ ("compose.web.yml", "c")
      ∷ ("compose.host-agent.yml", "h")
      ∷ ("scripts/init-web-env.sh", "i")
      ∷ ("scripts/install-cosign.sh", "s")
      ∷ ("scripts/install-host-agent.sh", "a")
      ∷ ("host_agent/__init__.py", "p")
      ∷ ("host_agent/server.py", "q")
      ∷ [];
  has_link = false;
}

-- A machine with that release, where every command prints the name of a container.
abbrev updating : Machine
updating = record host { answer = λ before c. some "abcdef012345"; bundle = λ before. release }

abbrev wanted : Fields
wanted = field "version" (text "1.2.3") end
