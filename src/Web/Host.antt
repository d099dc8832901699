-- ===== src/Web/Host.antt =====
-- `HostAgentClient.request` (app/infrastructure/host_agent.py) and the routes of
-- app/web/host_routes.py. The socket with the agent behind it is a parameter.
pub mod Called
use wolt.Prelude.{
  ℕ, String, Bool, true, false, not, ◌&&◌, Option, none, some, List, [], ◌∷◌, ◌++◌, ltb, leb,
  is_empty, append, str_eq, if◌then◌else◌,
}
use wolt.Errors.{Error, Result, ok, err, agent_error}
use wolt.Json.{Json, Fields, end, field, text, number, object, get_field, text_of}
use wolt.Db.{Db}
use wolt.Db.Models.{ApplicationSettings, ObjectId}
use wolt.Db.Session.{commit, modify, ◌>>◌, ◌>>=◌, with_session}
use wolt.Auth.{Library, AuthenticatedUser, add_event}
use wolt.Web.Access.{
  Response, sent, http_error, uncaught, unauthenticated, forbidden, require_user, is_owner,
  allowed_if,
}

pub data Method : Type 0 where
  get post : Method

-- A request that reaches the socket.
pub record AgentCall : Type 0 where
  pub method : Method
  pub path : String
  pub payload : Option Fields
  pub bearer : String

-- What comes back: the connection fails, or there is a status with a body.
pub data Exchange : Type 0 where
  broken : Exchange
  response : ℕ → String → Exchange

-- The client's socket, given the calls before, with `json.loads` and Python's `str` of a JSON value.
pub record AgentSocket : Type 0 where
  pub exchange : List AgentCall → AgentCall → Exchange
  pub loads : String → Option Json
  pub str_of : Json → String

-- The database, and the calls that have reached the agent, the last one first.
pub record HostWorld : Type 0 where
  pub db : Db
  pub calls : List AgentCall

abbrev pub detail_of : AgentSocket → Fields → String
detail_of socket fields = elim (get_field "detail" fields) [
  | none ↦ "host_agent_request_failed"
  | some d ↦ text_of socket.str_of d
]

-- `json.loads(raw.decode("utf-8")) if raw else {}`
abbrev pub value_of : AgentSocket → String → Option Json
value_of socket raw = if is_empty raw then some (object end) else socket.loads raw

abbrev pub answer_of : AgentSocket → ℕ → Option Json → Result Fields
answer_of socket status none = err (agent_error "host_agent_unavailable" 503)
answer_of socket status (some (object fields)) =
    if leb 400 status then err (agent_error (detail_of socket fields) status) else ok fields
answer_of socket status (some _) = err (agent_error "host_agent_invalid_response" 503)

abbrev pub exchanged : AgentSocket → Exchange → Result Fields
exchanged socket broken = err (agent_error "host_agent_unavailable" 503)
exchanged socket (response status raw) = answer_of socket status (value_of socket raw)

-- `HostAgentClient.request`, for the token that the client holds
unfoldable pub request :
    AgentSocket → String → Method → String → Option Fields → HostWorld → Result Fields × HostWorld
unfolding get_field
request socket token method path payload w =
    if is_empty token
    then (err (agent_error "host_agent_not_configured" 503), w)
    else let call : AgentCall = record {
      method = method;
      path = path;
      payload = payload;
      bearer = token;
    } in
      (exchanged socket (socket.exchange w.calls call), record w { calls = call ∷ w.calls })

-- `{**a, **b}`: a key of both keeps its place, with the value of `b`.
unfoldable pub put_field : String → Json → Fields → Fields
put_field key value end = field key value end
put_field key value (field k v rest) =
    let later = put_field key value rest in
    if str_eq k key then field k value rest else field k v later

unfoldable pub merge : Fields → Fields → Fields
unfolding put_field
merge a end = a
merge a (field k v rest) = merge (put_field k v a) rest

-- What the router is made with: the library of `AuthService`, the socket and the token of the client,
-- and the text of a UUID.
pub record HostSite : Type 0 where
  pub library : Library
  pub socket : AgentSocket
  pub token : String
  pub uuid_text : ℕ → String

pub record HostRequest : Type 0 where
  pub session_token : Option String
  pub client_ip : String
  pub now : ℕ
  pub audit_id : ℕ

abbrev pub HostRoute : Type 0
HostRoute = HostWorld → Response Fields × HostWorld

-- `call`: the status of an error is passed on where it is one of an HTTP error.
unfoldable pub call_error : Error → Response Fields
call_error (agent_error detail status) =
    http_error (if leb 400 status && ltb status 600 then status else 503) detail
call_error e = uncaught e

abbrev pub called : Result Fields → Response Fields
called (ok fields) = sent fields
called (err e) = call_error e

unfoldable pub call : HostSite → Method → String → Option Fields → HostRoute
unfolding request call_error
call site method path payload w =
    let r = request site.socket site.token method path payload w in (called r.0, r.1)

-- `audit`
unfoldable pub audit : HostRequest → AuthenticatedUser → String → Fields → Db → Result Unit × Db
audit q user action changes db =
    with_session
      (modify (
          add_event q.audit_id q.now (some user.id) action "host" (some (ObjectId.literal "local"))
            changes q.client_ip)
        >> commit)
      db

abbrev pub audited : Response Fields → Result Unit × Db → HostWorld → Response Fields × HostWorld
audited answer (ok _, db) w = (answer, record w { db = db })
audited answer (err e, db) w = (uncaught e, record w { db = db })

-- `result = call(…)`, `audit(…)`, `return result`; an exception of the call ends the route.
unfoldable pub then_audit :
    HostRequest
    → AuthenticatedUser
    → String
    → (Fields → Fields)
    → Response Fields × HostWorld
    → Response Fields × HostWorld
unfolding audit
then_audit q user action changes (sent fields, w) =
    audited (sent fields) (audit q user action (changes fields) w.db) w
then_audit q user action changes (http_error status detail, w) = (http_error status detail, w)
then_audit q user action changes (uncaught e, w) = (uncaught e, w)

-- `require_owner`
unfoldable pub require_owner : HostSite → HostRequest → Db → Response AuthenticatedUser
unfolding require_user
require_owner site q db = allowed_if is_owner (require_user site.library q.now q.session_token db)

abbrev pub for_owner : Response AuthenticatedUser → (AuthenticatedUser → HostRoute) → HostRoute
for_owner (sent user) route w = route user w
for_owner (http_error status detail) route w = (http_error status detail, w)
for_owner (uncaught e) route w = (uncaught e, w)

unfoldable pub as_owner : HostSite → HostRequest → (AuthenticatedUser → HostRoute) → HostRoute
unfolding require_owner
as_owner site q route w = for_owner (require_owner site q w.db) route w

-- `NetworkRequest`, whose ports lie between 1024 and 65535
pub record NetworkRequest : Type 0 where
  pub source_ip : String
  pub udp_start : ℕ
  pub udp_end : ℕ

-- `payload.model_dump()`
abbrev pub network_fields : NetworkRequest → Fields
network_fields p =
    field "source_ip" (text p.source_ip)
      (field "udp_start" (number p.udp_start) (field "udp_end" (number p.udp_end) end))

pub data HostCall : Type 0 where
  status releases rollback : HostCall
  job : ℕ → HostCall
  preview apply_firewall deployment : NetworkRequest → HostCall
  upgrade : String → HostCall

-- The published range does not hold the active one.
abbrev pub excludes_active : NetworkRequest → Option ApplicationSettings → Bool
excludes_active p none = false
excludes_active p (some active) =
    not (leb p.udp_start active.udp_port_start && leb active.udp_port_end p.udp_end)

abbrev pub deploy_if : Bool → HostRoute → HostRoute
deploy_if true route w = (http_error 422 "published_range_excludes_active_range", w)
deploy_if false route w = route w

unfoldable pub handle_host : HostSite → HostRequest → HostCall → HostRoute
unfolding call then_audit as_owner merge
handle_host site q status = as_owner site q (λ _. call site get "/v1/status" none)
handle_host site q releases = as_owner site q (λ _. call site get "/v1/releases" none)
handle_host site q (job i) =
    as_owner site q (λ _. call site get (append "/v1/jobs/" (site.uuid_text i)) none)
handle_host site q (preview p) =
    as_owner site q (λ _. call site post "/v1/firewall/preview" (some (network_fields p)))
handle_host site q (apply_firewall p) = as_owner site q (λ user w.
    then_audit q user "host.firewall_applied" (λ _. network_fields p)
      (call site post "/v1/firewall/apply" (some (network_fields p)) w))
handle_host site q (deployment p) = as_owner site q (λ user w.
    deploy_if (excludes_active p w.db.settings)
      (λ w.
        then_audit q user "host.deployment_started" (λ result. merge (network_fields p) result)
          (call site post "/v1/deployment" (some (network_fields p)) w))
      w)
handle_host site q (upgrade version) = as_owner site q (λ user w.
    then_audit q user "host.upgrade_started"
      (λ result. merge (field "version" (text version) end) result)
      (call site post "/v1/upgrade" (some (field "version" (text version) end)) w))
handle_host site q rollback = as_owner site q (λ user w.
    then_audit q user "host.rollback_started" (λ result. result)
      (call site post "/v1/rollback" (some end) w))
