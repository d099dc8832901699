-- ===== src/Web/Host/Called.antt =====
-- When the routes of app/web/host_routes.py ask the host agent.
use wolt.Prelude.{
  String, Bool, true, false, Option, none, some, str_eq, arith, ◌≤◌, ◌∷◌, ◌≡◌, refl, ◌⊎◌, inl, inr,
  is_empty, Bool-cases,
}
use wolt.Errors.{Result, ok, err}
use wolt.Json.{Fields}
use wolt.Db.{Db}
use wolt.Db.Models.{ApplicationSettings}
use wolt.Auth.{AuthenticatedUser}
use wolt.Auth.Login.{current_user}
use wolt.Web.Access.{Response, sent, http_error, uncaught, is_owner, allowed_if, require_user}
use wolt.Web.Access.Guarded.{require_user-sent}
use wolt.Web.Host.{
  Method, AgentCall, HostWorld, request, HostSite, HostRequest, HostRoute, call, audited, audit,
  then_audit, require_owner, for_owner, as_owner, NetworkRequest, HostCall, status, releases,
  rollback, job, preview, apply_firewall, deployment, upgrade, excludes_active, deploy_if,
  handle_host,
}

-- Nothing has reached the agent, or one more call with the token, which is not empty.
abbrev pub IsCalled : HostSite → HostWorld → HostWorld → Type 0
IsCalled site w w' =
    (made : AgentCall) × (w'.calls ≡ made ∷ w.calls)
    × (made.bearer ≡ site.token)
    × (is_empty site.token ≡ false)

call-calls :
    (site : HostSite) (method : Method) (path : String) (payload : Option Fields) (w : HostWorld)
    → ((call site method path payload w).1.calls ≡ w.calls)
      ⊎ IsCalled site w (call site method path payload w).1
unfolding call request
call-calls site method path payload w = elim (Bool-cases (is_empty site.token)) [
  | inl blank ↦ rw (blank, call, request) (inl refl)
  | inr filled ↦ rw (filled, call, request) (inr (_, refl, refl, refl))
]

then_audit-calls :
    (q : HostRequest) (user : AuthenticatedUser) (action : String) (changes : Fields → Fields)
    (r : Response Fields × HostWorld)
    → (then_audit q user action changes r).1.calls ≡ r.1.calls
unfolding then_audit
then_audit-calls q user action changes (sent fields, w) =
    audited_calls (audit q user action (changes fields) w.db)
  where
    audited_calls : (r : Result Unit × Db) → (audited (sent fields) r w).1.calls ≡ w.calls
    audited_calls (ok u, db) = refl
    audited_calls (err e, db) = refl
then_audit-calls q user action changes (http_error s d, w) = refl
then_audit-calls q user action changes (uncaught e, w) = refl

-- The request carries the cookie of a live session of an enabled owner.
abbrev pub IsByOwner : HostSite → HostRequest → Db → Type 0
IsByOwner site q db =
    (token : String) × (u : AuthenticatedUser) × (q.session_token ≡ some token)
    × (current_user site.library q.now token db ≡ ok (some u))
    × (str_eq u.role "owner" ≡ true)

abbrev pub HoldsRange : NetworkRequest → Option ApplicationSettings → Type 0
HoldsRange p active =
    (active ≡ none)
    ⊎ ((s : ApplicationSettings) × (active ≡ some s)
        × (p.udp_start ≤ s.udp_port_start)
        × (s.udp_port_end ≤ p.udp_end))

-- A deployment asks for a range that holds the active one, where there is one.
abbrev pub HoldsActive : HostCall → Db → Type 0
HoldsActive (deployment p) db = HoldsRange p db.settings
HoldsActive _ db = Unit

holds_range :
    (p : NetworkRequest) (active : Option ApplicationSettings)
    → excludes_active p active ≡ false
    → HoldsRange p active
holds_range p none h = inl refl
holds_range p (some s) h = inr (s, refl, ground arith, ground arith)

-- Nothing has reached the agent, or a call by the right person for the right thing.
abbrev pub IsEntitled : HostSite → HostRequest → HostCall → HostWorld → HostWorld → Type 0
IsEntitled site q c w w' =
    (w'.calls ≡ w.calls) ⊎ (IsCalled site w w' × IsByOwner site q w.db × HoldsActive c w.db)

module _ (site : HostSite) (q : HostRequest) (w : HostWorld) where
  for_owner-calls :
      (P : Type 0) (route : AuthenticatedUser → HostRoute) (r : Response AuthenticatedUser)
      → ((u : AuthenticatedUser)
          → ((route u w).1.calls ≡ w.calls) ⊎ (IsCalled site w (route u w).1 × P))
      → require_user site.library q.now q.session_token w.db ≡ r
      → ((for_owner (allowed_if is_owner r) route w).1.calls ≡ w.calls)
        ⊎ (IsCalled site w (for_owner (allowed_if is_owner r) route w).1
            × IsByOwner site q w.db
            × P)
  for_owner-calls P route (sent u) made h = elim (Bool-cases (is_owner u)) [
    | inl owner ↦
        let (token, given, current) =
          require_user-sent site.library q.now w.db q.session_token u h in
        rw owner (elim (made u) [
          | inl quiet ↦ inl quiet
          | inr (spoken, p) ↦ inr (spoken, (token, u, given, current, owner), p)
        ])
    | inr other ↦ rw other (inl refl)
  ]
  for_owner-calls P route (http_error s d) made h = inl refl
  for_owner-calls P route (uncaught e) made h = inl refl

  as_owner-calls :
      (P : Type 0) (route : AuthenticatedUser → HostRoute)
      → ((u : AuthenticatedUser)
          → ((route u w).1.calls ≡ w.calls) ⊎ (IsCalled site w (route u w).1 × P))
      → ((as_owner site q route w).1.calls ≡ w.calls)
        ⊎ (IsCalled site w (as_owner site q route w).1 × IsByOwner site q w.db × P)
  unfolding as_owner require_owner
  as_owner-calls P route made =
      for_owner-calls P route (require_user site.library q.now q.session_token w.db) made refl

  -- A call, and a call that is audited.
  plain-calls :
      (method : Method) (path : String) (payload : Option Fields)
      → let r = call site method path payload w in
        (r.1.calls ≡ w.calls) ⊎ (IsCalled site w r.1 × Unit {0})
  plain-calls method path payload = elim (call-calls site method path payload w) [
    | inl quiet ↦ inl quiet
    | inr spoken ↦ inr (spoken, tt)
  ]

  audited-calls :
      (P : Type 0) (u : AuthenticatedUser) (action : String) (changes : Fields → Fields)
      (method : Method) (path : String) (payload : Option Fields)
      → P
      → let r = then_audit q u action changes (call site method path payload w) in
        (r.1.calls ≡ w.calls) ⊎ (IsCalled site w r.1 × P)
  audited-calls P u action changes method path payload p =
      rw (then_audit-calls q u action changes (call site method path payload w))
        (elim (call-calls site method path payload w) [
          | inl quiet ↦ inl quiet
          | inr spoken ↦ inr (spoken, p)
        ])

  deploy_if-calls :
      (excluded : Bool) (route : HostRoute)
      → ((route w).1.calls ≡ w.calls) ⊎ (IsCalled site w (route w).1 × Unit {0})
      → ((deploy_if excluded route w).1.calls ≡ w.calls)
        ⊎ (IsCalled site w (deploy_if excluded route w).1 × (excluded ≡ false))
  deploy_if-calls true route made = inl refl
  deploy_if-calls false route (inl quiet) = inl quiet
  deploy_if-calls false route (inr (spoken, _)) = inr (spoken, refl)

-- Each host route either leaves the agent alone, or makes one call with the configured token, and then
-- the request carried the cookie of a live session of an enabled owner, and a deployment asks for
-- a published range that holds the range the listeners use, if there are settings.
pub handle_host-IsEntitled :
    (site : HostSite) (q : HostRequest) (c : HostCall) (w : HostWorld)
    → IsEntitled site q c w (handle_host site q c w).1
unfolding handle_host
handle_host-IsEntitled site q status w =
    as_owner-calls site q w Unit _ (λ u. plain-calls site q w _ _ _)
handle_host-IsEntitled site q releases w =
    as_owner-calls site q w Unit _ (λ u. plain-calls site q w _ _ _)
handle_host-IsEntitled site q (job i) w =
    as_owner-calls site q w Unit _ (λ u. plain-calls site q w _ _ _)
handle_host-IsEntitled site q (preview p) w =
    as_owner-calls site q w Unit _ (λ u. plain-calls site q w _ _ _)
handle_host-IsEntitled site q (apply_firewall p) w =
    as_owner-calls site q w Unit _ (λ u. audited-calls site q w Unit u _ _ _ _ _ tt)
handle_host-IsEntitled site q (upgrade version) w =
    as_owner-calls site q w Unit _ (λ u. audited-calls site q w Unit u _ _ _ _ _ tt)
handle_host-IsEntitled site q rollback w =
    as_owner-calls site q w Unit _ (λ u. audited-calls site q w Unit u _ _ _ _ _ tt)
handle_host-IsEntitled site q (deployment p) w =
    as_owner-calls site q w (HoldsRange p w.db.settings) _ (λ u.
      elim (deploy_if-calls site q w (excludes_active p w.db.settings) _
        (audited-calls site q w Unit u _ _ _ _ _ tt)) [
          | inl quiet ↦ inl quiet
          | inr (spoken, within) ↦ inr (spoken, holds_range p w.db.settings within)
        ])
