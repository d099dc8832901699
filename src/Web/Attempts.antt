-- ===== src/Web/Attempts.antt =====
-- `LoginAttemptLimiter` (app/web/auth_routes.py). `time.monotonic` readings and the window are whole
-- numbers of one unit; `attempts[0] < now - window` is written with the sum.
pub mod Deque
pub mod Counted
use wolt.Prelude.{
  ℕ, String, ◌+◌, Bool, true, false, List, [], ◌∷◌, ◌++◌, ltb, leb, length, str_eq, if◌then◌else◌,
}

-- `_attempts`: a deque for each key, oldest attempt first.
abbrev pub Attempts : Type 0
Attempts = List (String × List ℕ)

pub record LoginAttemptLimiter : Type 0 where
  pub limit : ℕ
  pub window : ℕ
  pub attempts : Attempts

-- `self._attempts[key]`, of a `defaultdict`
unfoldable pub attempts_of : String → Attempts → List ℕ
attempts_of key [] = []
attempts_of key ((k, ts) ∷ d) = if str_eq k key then ts else attempts_of key d

-- The deque of a key after the calls that change it.
unfoldable pub put_attempts : String → List ℕ → Attempts → Attempts
put_attempts key ts [] = (key, ts) ∷ []
put_attempts key ts ((k, us) ∷ d) =
    let rest = put_attempts key ts d in if str_eq k key then (k, ts) ∷ d else (k, us) ∷ rest

-- `self._attempts.pop(key, None)`; a key occurs once, so taking each of its entries takes one.
unfoldable pub pop_attempts : String → Attempts → Attempts
pop_attempts key [] = []
pop_attempts key ((k, us) ∷ d) =
    let rest = pop_attempts key d in if str_eq k key then rest else (k, us) ∷ rest

-- `while attempts and attempts[0] < cutoff: attempts.popleft()`
unfoldable pub pop_old : ℕ → ℕ → List ℕ → List ℕ
pop_old window now [] = []
pop_old window now (t ∷ ts) =
    let rest = pop_old window now ts in if ltb (t + window) now then rest else t ∷ ts

-- `allow`, for the reading of the clock that it takes before the lock.
unfoldable pub allow : String → ℕ → LoginAttemptLimiter → Bool × LoginAttemptLimiter
unfolding attempts_of put_attempts pop_old
allow key now l =
    let kept = pop_old l.window now (attempts_of key l.attempts) in
    if leb l.limit (length kept)
    then (false, record l { attempts = put_attempts key kept l.attempts })
    else (true, record l { attempts = put_attempts key (kept ++ (now ∷ [])) l.attempts })

unfoldable pub clear : String → LoginAttemptLimiter → LoginAttemptLimiter
unfolding pop_attempts
clear key l = record l { attempts = pop_attempts key l.attempts }

-- `LoginAttemptLimiter(limit, window_seconds)`
unfoldable pub new_limiter : ℕ → ℕ → LoginAttemptLimiter
new_limiter limit window = record { limit = limit; window = window; attempts = [] }
