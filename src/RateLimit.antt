-- ===== src/RateLimit.antt =====
-- The per-listener rate limiter (app/rate_limit.py). Clock readings and the interval are whole
-- numbers of one unit. `now - previous < interval` is written with the sum, since the readings of
-- two threads may reach the lock in either order and the difference may be negative.
pub mod Spacing
use wolt.Prelude.{
  ℕ, String, Bool, true, false, Option, none, some, List, [], ◌∷◌, ◌&&◌, ◌+◌, ltb, ◌==◌, str_eq,
  if◌then◌else◌,
}

-- `(listen_port, mac_address)`
pub record Key : Type 0 where
  pub listen_port : ℕ
  pub mac_address : String

abbrev pub same_key : Key → Key → Bool
same_key a b = a.listen_port == b.listen_port && str_eq a.mac_address b.mac_address

pub record RateLimiter : Type 0 where
  pub interval : ℕ
  pub last_allowed : List (Key × ℕ)

-- `RateLimiter(interval_seconds)`
unfoldable pub new_limiter : ℕ → RateLimiter
new_limiter interval = record { interval = interval; last_allowed = [] }

-- `self._last_allowed.get(key)`
unfoldable pub lookup : Key → List (Key × ℕ) → Option ℕ
lookup k [] = none
lookup k ((j, t) ∷ d) = if same_key j k then some t else lookup k d

-- `self._last_allowed[key] = now`
unfoldable pub insert : Key → ℕ → List (Key × ℕ) → List (Key × ℕ)
insert k t [] = (k, t) ∷ []
insert k t ((j, u) ∷ d) = if same_key j k then (k, t) ∷ d else (j, u) ∷ insert k t d

abbrev too_soon : ℕ → ℕ → Option ℕ → Bool
too_soon now interval none = false
too_soon now interval (some previous) = ltb now (previous + interval)

-- `allow`, from the reading of the clock on: what follows is under the lock.
unfoldable pub allow : ℕ → String → ℕ → RateLimiter → Bool × RateLimiter
unfolding lookup insert
allow listen_port mac_address now limiter =
    let key : Key = record { listen_port = listen_port; mac_address = mac_address } in
    if too_soon now limiter.interval (lookup key limiter.last_allowed)
    then (false, limiter)
    else (true, record limiter { last_allowed = insert key now limiter.last_allowed })
