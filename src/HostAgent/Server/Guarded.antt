-- ===== src/HostAgent/Server/Guarded.antt =====
-- Which requests can change what the agent keeps.
use wolt.Prelude.{
  String, ◌≡◌, refl, inl, inr, Bool, true, false, ◌&&◌, ◌||◌, Option, none, some, arith, str_eq,
  has_prefix, if◌then◌else◌, Option-cases, Bool-cases, ℤ,
}
use wolt.Errors.{Result, ok, Result-cases}
use wolt.Json.{Fields, get_text}
use wolt.HostAgent.{AgentConfig, Agent, Machine, Step, ufw_status, run, lift, ◌>>=◌, pure}
use wolt.HostAgent.EnvFile.{lookup_value}
use wolt.HostAgent.Firewall.{firewall_preview, network_values}
use wolt.HostAgent.Jobs.{find_job}
use wolt.HostAgent.Deployment.{get_int}
use wolt.HostAgent.Server.{
  HttpRequest, preview_view, host_status, release_list, job_view, last_segment, status, releases,
  authorized, payload_of, map_step, with_range, is_job_path, dispatch_post, dispatch,
  handle_request, ufw_state, status_view,
}

-- The request is authorized, and it asks for a new rule or a new job.
abbrev pub asks_change : HttpRequest → Bool
asks_change request =
    str_eq request.method "POST"
    && (str_eq request.path "/v1/firewall/apply" || is_job_path request.path)

abbrev pub is_authorized : Option Bool → Bool
is_authorized none = false
is_authorized (some b) = b

abbrev pub may_change : AgentConfig → HttpRequest → Bool
may_change config request = is_authorized (authorized config request) && asks_change request

-- The state file, the jobs, the environment file and the runtime are the same.
abbrev pub Same : Agent → Agent → Type 0
Same a b =
    (b.store ≡ a.store)
    × (b.jobs ≡ a.jobs)
    × (b.env_path ≡ a.env_path)
    × (b.files ≡ a.files)
    × (b.runtime_dir ≡ a.runtime_dir)
    × (b.agent_dir ≡ a.agent_dir)

Keeps : {A : Type 0} → Step A → Type 0
Keeps m = (a : Agent) → Same a (m a).1

bind-Keeps :
    {A B : Type 0} (m : Step A) (f : A → Step B)
    → Keeps m
    → ((x : A) → Keeps (f x))
    → Keeps (m >>= f)
unfolding Keeps
bind-Keeps m f h k a = elim (Result-cases ((m a).0)) [
  | inl (x, e) ↦ ground (arith, e, h a, k x (m a).1)
  | inr (x, e) ↦ ground (arith, e, h a)
]

lift-Keeps : {A : Type 0} (r : Result A) → Keeps (lift r)
unfolding Keeps
lift-Keeps r a = ground arith

map_step-Keeps : {A B : Type 0} (f : A → B) (m : Step A) → Keeps m → Keeps (map_step f m)
map_step-Keeps f m h = bind-Keeps m (λ x. pure (f x)) h (λ x. lift-Keeps (ok (f x)))

ufw_state-Keeps : (config : AgentConfig) (host : Machine) → Keeps (ufw_state config host)
unfolding Keeps run
ufw_state-Keeps config host a = elim (Bool-cases (host.present config.ufw_binary)) [
  | inr gone ↦ rw gone (refl, refl, refl, refl, refl, refl)
  | inl there ↦ elim (Option-cases (host.answer a.done ufw_status)) [
    | inl e ↦ ground (arith, there, e)
    | inr (out, e) ↦ ground (arith, there, e)
  ]
]

status-Keeps : (config : AgentConfig) (host : Machine) → Keeps (status config host)
unfolding status Keeps
status-Keeps config host a =
    map_step-Keeps (status_view config host a.store) (ufw_state config host)
      (ufw_state-Keeps config host) a

find_job-Keeps : (id : String) → Keeps (find_job id)
unfolding Keeps find_job
find_job-Keeps id a = elim (Option-cases (lookup_value id a.jobs)) [
  | inr (job, e) ↦ ground (arith, e)
  | inl e ↦ elim (Option-cases (lookup_value id a.store.jobs)) [
    | inl f ↦ ground (arith, e, f)
    | inr (job, f) ↦ ground (arith, e, f)
  ]
]

firewall_preview-Keeps :
    (host : Machine) (ip : String) (start last : ℤ) → Keeps (firewall_preview host ip start last)
unfolding Keeps firewall_preview
firewall_preview-Keeps host ip start last a =
    elim (Result-cases (network_values host ip start last)) [
      | inl (r, e) ↦ ground (arith, e)
      | inr (x, e) ↦ ground (arith, e)
    ]

with_range-Keeps :
    {A : Type 0} (host : Machine) (payload : Fields) (call : String → ℤ → ℤ → Step A)
    → ((ip : String) (start last : ℤ) → Keeps (call ip start last))
    → Keeps (with_range host payload call)
with_range-Keeps host payload call h =
    let ip = get_text host.str_of "source_ip" payload in
    bind-Keeps (lift (get_int host "udp_start" payload))
      (λ start. lift (get_int host "udp_end" payload) >>= λ last. call ip start last)
      (lift-Keeps (get_int host "udp_start" payload))
      (λ start.
        bind-Keeps (lift (get_int host "udp_end" payload)) (λ last. call ip start last)
          (lift-Keeps (get_int host "udp_end" payload)) (λ last. h ip start last))

-- A request with a payload that is neither for a new rule nor for a job.
dispatch_post-Keeps :
    (host : Machine) (id : String) (request : HttpRequest) (payload : Fields)
    → asks_change request ≡ false
    → Keeps (dispatch_post host id request payload)
unfolding Keeps dispatch_post
dispatch_post-Keeps host id request payload h a = ground (
  arith,
  map_step-Keeps preview_view (with_range host payload (firewall_preview host))
      (with_range-Keeps host payload (firewall_preview host) (firewall_preview-Keeps host)) a,
)

if-Keeps : {A : Type 0} (b : Bool) (m k : Step A) → Keeps m → Keeps k → Keeps (if b then m else k)
if-Keeps true m k h r = h
if-Keeps false m k h r = r

dispatch-Keeps :
    (config : AgentConfig) (host : Machine) (id : String) (request : HttpRequest)
    → asks_change request ≡ false
    → Keeps (dispatch config host id request)
unfolding dispatch
dispatch-Keeps config host id request h =
    let get = str_eq request.method "GET" in
    let segment = last_segment request.path request.path in
    let found = map_step job_view (find_job segment) in
    let listed = map_step release_list (lift (releases host)) in
    let posted = lift (payload_of host request) >>= dispatch_post host id request in
    let past_jobs = if get && has_prefix "/v1/jobs/" request.path then found else posted in
    let past_releases = if get && str_eq request.path "/v1/releases" then listed else past_jobs in
    if-Keeps (get && str_eq request.path "/v1/status") (map_step host_status (status config host))
      past_releases (map_step-Keeps host_status (status config host) (status-Keeps config host))
      (if-Keeps (get && str_eq request.path "/v1/releases") listed past_jobs
        (map_step-Keeps release_list (lift (releases host)) (lift-Keeps (releases host)))
        (if-Keeps (get && has_prefix "/v1/jobs/" request.path) found posted
          (map_step-Keeps job_view (find_job segment) (find_job-Keeps segment))
          (bind-Keeps (lift (payload_of host request)) (dispatch_post host id request)
            (lift-Keeps (payload_of host request))
            (λ payload. dispatch_post-Keeps host id request payload h))))

-- A request that has not the agent's token, or that does not ask for a new rule or a new job, leaves
-- the state file, the jobs, the environment file and the files of the runtime as they are, whatever
-- the response is.
pub handle_request-guarded :
    (config : AgentConfig) (host : Machine) (id : String) (request : HttpRequest) (a : Agent)
    → may_change config request ≡ false
    → Same a (handle_request config host id request a).1
unfolding handle_request Keeps
handle_request-guarded config host id request a h =
    elim (Option-cases (authorized config request)) [
      | inl raises ↦ ground (arith, raises)
      | inr (true, token) ↦
          ground (arith, token, dispatch-Keeps config host id request (ground (arith, token)) a)
      | inr (false, wrong) ↦ ground (arith, wrong)
    ]
