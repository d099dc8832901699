-- ===== src/Tests/Limits.antt =====
-- Tests of app/rate_limit.py.
use wolt.Prelude.{◌≡◌, refl, none, List, [], ◌∷◌}
use wolt.RateLimit.{Key, RateLimiter, new_limiter, allow}
use wolt.RateLimit.Spacing.{Request, allowed, Spaced, allowed-Spaced}

abbrev desk : Key
desk = record { listen_port = 40000; mac_address = "00:1B:21:A0:FF:09" }

abbrev lab : Key
lab = record { listen_port = 40001; mac_address = "00:1B:21:A0:FF:09" }

abbrev requests : List Request
requests =
    record { key = desk; now = 100 }
    ∷ record { key = desk; now = 104 }
    ∷ record { key = lab; now = 104 }
    ∷ record { key = desk; now = 105 }
    ∷ []

abbrev limiter : RateLimiter
limiter = record { interval = 5; last_allowed = (desk, 100) ∷ [] }

desk_readings : allowed desk requests (new_limiter 5) ≡ 100 ∷ 105 ∷ []
unfolding allowed allow new_limiter
desk_readings = refl

allowed-Spaced_example : Spaced 5 none (allowed desk requests (new_limiter 5))
allowed-Spaced_example = allowed-Spaced 5 desk requests

abbrev early : Request
early = record { key = desk; now = 104 }
