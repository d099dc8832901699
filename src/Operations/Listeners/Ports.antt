-- ===== src/Operations/Listeners/Ports.antt =====
-- Which port a new mapping gets.
use wolt.Prelude.{
  ℕ, zero, suc, ◌+◌, ◌≤◌, ◌<◌, ◌≡◌, inl, inr, Bool, true, false, not, ◌&&◌, List, ◌==◌, arith, any,
  Bool-cases,
}
use native.Mathlib.Decide.{dec_le}
use wolt.Errors.{Error, ok, err, resource_conflict}
use wolt.Db.Models.{ListenerMapping, ApplicationSettings}
use wolt.Operations.Listeners.{first_free, allocate_port}

module _ (listeners : List ListenerMapping) (available : ℕ → Bool) where
  -- No mapping has the port, and a socket can be bound to it.
  abbrev pub is_free : ℕ → Bool
  is_free port = not (any (λ m. m.udp_port == port) listeners) && available port

  -- The test that the loop makes at one port, and what it says of the ports from there on.
  below_next :
      (from bound : ℕ)
      → is_free from ≡ false
      → ((q : ℕ) → suc from ≤ q → q < bound → is_free q ≡ false)
      → (q : ℕ) → from ≤ q
      → q < bound
      → is_free q ≡ false
  below_next from bound busy later q l u = elim (dec_le (suc from) q) [
    | yes h ↦ later q h u
    | no h ↦ let e : q ≡ from = omega arith in rw e busy
  ]

  first_free-ok :
      (n from port : ℕ)
      → first_free listeners available n from ≡ ok port
      → (from ≤ port)
        × (port < from + n)
        × (is_free port ≡ true)
        × ((q : ℕ) → from ≤ q → q < port → is_free q ≡ false)
  unfolding first_free
  first_free-ok zero from port h = cc
  first_free-ok (suc n) from port h = elim (Bool-cases (is_free from)) [
    | inl free ↦
        let e : from ≡ port = ground arith in
        (omega arith, omega arith, rw (← e) free, λ q l u. absurd (omega arith))
    | inr busy ↦
        let (low, high, free, least) = first_free-ok n (suc from) port (rw busy at h) in
        (omega arith, omega arith, free, below_next from port busy least)
  ]

  first_free-err :
      (n from : ℕ) (e : Error)
      → first_free listeners available n from ≡ err e
      → (e ≡ resource_conflict) × ((q : ℕ) → from ≤ q → q < from + n → is_free q ≡ false)
  unfolding first_free
  first_free-err zero from e h = (ground arith, λ q l u. absurd (omega arith))
  first_free-err (suc n) from e h = elim (Bool-cases (is_free from)) [
    | inl free ↦ absurd (cc (rw free at h))
    | inr busy ↦
        let (kind, later) = first_free-err n (suc from) e (rw busy at h) in
        (kind, below_next from (from + suc n) busy (λ q l u. later q l (omega arith)))
  ]

  -- What `_allocate_port` returns is the least free port of the settings' range, where the range is
  -- not empty.
  pub allocate_port-ok :
      (s : ApplicationSettings) (port : ℕ)
      → s.udp_port_start ≤ s.udp_port_end
      → allocate_port listeners available s ≡ ok port
      → (s.udp_port_start ≤ port)
        × (port ≤ s.udp_port_end)
        × (is_free port ≡ true)
        × ((q : ℕ) → s.udp_port_start ≤ q → q < port → is_free q ≡ false)
  unfolding allocate_port
  allocate_port-ok s port ordered h =
      let (low, high, free, least) = first_free-ok _ _ port h in (low, omega arith, free, least)

  -- If `_allocate_port` raises, it is `ResourceConflictError` and no port of the settings' range is
  -- free.
  pub allocate_port-err :
      (s : ApplicationSettings) (e : Error)
      → allocate_port listeners available s ≡ err e
      → (e ≡ resource_conflict)
        × ((q : ℕ) → s.udp_port_start ≤ q → q ≤ s.udp_port_end → is_free q ≡ false)
  unfolding allocate_port
  allocate_port-err s e h =
      let (kind, none_free) = first_free-err _ _ e h in (kind, λ q l u. none_free q l (omega arith))
