-- ===== src/HostAgent/Health.antt =====
-- The health check after a deployment: `_healthy`, which asks until a deadline.
use wolt.Prelude.{
  ℕ, Bool, true, false, ◌≡◌, ◌<◌, not, ◌+◌, ◌≤◌, zero, suc, ltb, Option, none, some, if◌then◌else◌,
}
use wolt.Errors.{or_raise, os_error}
use wolt.HostAgent.{Agent, Machine, Step}

abbrev pub at : ℕ → Agent → Agent
at t a = record a { clock = t }

-- The loop of `_healthy`: a request, and two seconds of sleep if it is not answered by 200. The
-- result is `none` where the fuel is used up before the deadline.
unfoldable pub poll : Machine → ℕ → ℕ → Agent → Option Bool × Agent
poll host zero deadline a = (if ltb a.clock deadline then none else some false, a)
poll host (suc fuel) deadline a =
    let asked = host.probe a.done a.clock in
    let rest = poll host fuel deadline (at (a.clock + asked.1 + 2000) a) in
    if not (ltb a.clock deadline)
    then (some false, a)
    else if asked.0
    then (some true, at (a.clock + asked.1) a)
    else rest

-- `_healthy`: 120 seconds hold 60 rounds at most.
unfoldable pub healthy : Machine → Step Bool
unfolding poll
healthy host a =
    let polled = poll host 60 (a.clock + 120000) a in (or_raise (polled.0) os_error, polled.1)

-- A request that started before the deadline was answered.
abbrev pub AnsweredAt : Machine → ℕ → Agent → ℕ → Type 0
AnsweredAt host deadline a t = (a.clock ≤ t) × (t < deadline) × ((host.probe a.done t).0 ≡ true)
