-- ===== src/Web/Login/Throttled.antt =====
-- How many guesses at a password the login route (app/web/auth_routes.py) passes on.
use wolt.Prelude.{
  ℕ, suc, String, ◌+◌, ◌-◌, ◌≤◌, ◌<◌, Bool, true, false, not, none, List, [], ◌∷◌, ◌++◌, ◌≡◌, refl,
  ap, ◌∙◌, ◌==◌, leb, count, length, str_eq, str_eq_iff, if◌then◌else◌, inl, inr, arith, Bool-cases,
  All,
}
use wolt.Errors.{Result, ok, err}
use wolt.Db.{Db}
use wolt.Auth.{AuthenticationResult}
use wolt.Auth.Login.{login}
use wolt.Web.Access.{Response, sent, http_error}
use wolt.Web.Attempts.{LoginAttemptLimiter, allow, attempts_of, pop_old}
use wolt.Web.Attempts.Deque.{attempts_of-put_attempts, count_end}
use wolt.Web.Login.{
  AuthSite, Gate, Visit, AuthResponse, visitor_ip, login_route, login_allowed, credentials_done,
  lifetime,
}

-- A request to the login route.
pub record Guess : Type 0 where
  pub visit : Visit
  pub identifier : String
  pub password : String

-- The responses to a sequence of requests.
unfoldable pub login_run : AuthSite → List Guess → Gate → List (Response AuthResponse)
unfolding login_route
login_run site [] g = []
login_run site (q ∷ qs) g =
    let r = login_route site q.visit q.identifier q.password g in r.0 ∷ login_run site qs r.1

-- The service has seen the request: the response is not the one of the limiter.
abbrev pub is_tried : {A : Type 0} → Response A → Bool
is_tried (http_error status _) = not (status == 429)
is_tried _ = true

-- No session was opened.
abbrev pub IsFailed : {A : Type 0} → Response A → Type 0
IsFailed (sent _) = ⊥
IsFailed _ = Unit

-- The request comes from an address, at a time within a window from `start` on.
abbrev pub IsWithin : String → ℕ → ℕ → Guess → Type 0
IsWithin ip start window q =
    (visitor_ip q.visit ≡ ip) × (start ≤ q.visit.monotonic) × (q.visit.monotonic ≤ start + window)

-- The attempts of an address that the limiter remembers from `start` on.
abbrev remembered : String → ℕ → LoginAttemptLimiter → ℕ
remembered ip start l = count (λ t. leb start t) (attempts_of ip l.attempts)

count-pop_old_start :
    (window now start : ℕ) (ts : List ℕ)
    → now ≤ start + window
    → count (λ t. leb start t) (pop_old window now ts) ≡ count (λ t. leb start t) ts
unfolding pop_old
count-pop_old_start window now start [] h = refl
count-pop_old_start window now start (t ∷ ts) h =
    ground (arith, count-pop_old_start window now start ts h)

count-le-length : (p : ℕ → Bool) (ts : List ℕ) → count p ts ≤ length ts
count-le-length p [] = omega arith
count-le-length p (t ∷ ts) = ground (arith, count-le-length p ts)

-- An attempt that is let through finds fewer than `limit` of them, and is one more.
allow-remembered :
    (ip : String) (start now : ℕ) (l : LoginAttemptLimiter)
    → start ≤ now
    → now ≤ start + l.window
    → ((allow ip now l).1.limit ≡ l.limit)
      × ((allow ip now l).1.window ≡ l.window)
      × (remembered ip start (allow ip now l).1
          ≡ (if (allow ip now l).0 then suc (remembered ip start l) else remembered ip start l))
      × ((allow ip now l).0 ≡ true → remembered ip start l < l.limit)
unfolding allow
allow-remembered ip start now l after before =
    let kept = pop_old l.window now (attempts_of ip l.attempts) in
    let same : str_eq ip ip ≡ true = (str_eq_iff ip ip).1 refl in
    let popped = count-pop_old_start l.window now start (attempts_of ip l.attempts) before in
    elim (Bool-cases (leb l.limit (length kept))) [
      | inl full ↦ rw full (
        refl,
        refl,
        ap (count (λ t. leb start t)) (rw same at (attempts_of-put_attempts ip ip kept l.attempts))
            ∙ popped,
        λ h. absurd (ground arith),
      )
      | inr free ↦ rw free (
        refl,
        refl,
        ap (count (λ t. leb start t))
              (rw same at (attempts_of-put_attempts ip ip (kept ++ (now ∷ [])) l.attempts))
            ∙ count_end (λ t. leb start t) kept now
            ∙ ground (arith, after, popped),
        λ h. ground (arith, popped, count-le-length (λ t. leb start t) kept),
      )
    ]

credentials_done-failed :
    (site : AuthSite) (key : String) (r : Result AuthenticationResult × Db) (g : Gate)
    → let answer =
        credentials_done site key (http_error 401 "invalid_credentials") (λ _. none) r g in
      IsFailed answer.0 → (answer.1.limiter ≡ g.limiter) × (is_tried answer.0 ≡ true)
credentials_done-failed site key (ok r, db) g h = absurd h
credentials_done-failed site key (err e, db) g h = ground arith

login_allowed-failed :
    (site : AuthSite) (q : Guess) (allowed : Bool) (g : Gate)
    → let answer = login_allowed site q.visit q.identifier q.password allowed g in
      IsFailed answer.0 → (answer.1.limiter ≡ g.limiter) × (is_tried answer.0 ≡ allowed)
login_allowed-failed site q false g h = (refl, refl)
login_allowed-failed site q true g h =
    credentials_done-failed site (visitor_ip q.visit)
      (login site.library (lifetime site) q.visit.draws q.identifier q.password (visitor_ip q.visit)
        g.db)
      g h

-- What a login that opens no session does to the limiter.
login_route-failed :
    (site : AuthSite) (q : Guess) (g : Gate)
    → IsFailed (login_route site q.visit q.identifier q.password g).0
    → let r = allow (visitor_ip q.visit) q.visit.monotonic g.limiter in
      let answer = login_route site q.visit q.identifier q.password g in
      (answer.1.limiter ≡ r.1) × (is_tried answer.0 ≡ r.0)
unfolding login_route
login_route-failed site q g failed =
    let r = allow (visitor_ip q.visit) q.visit.monotonic g.limiter in
    login_allowed-failed site q r.0 (record g { limiter = r.1 }) failed

-- What it does to the attempts that are remembered of its address.
login_route-remembered :
    (site : AuthSite) (start : ℕ) (q : Guess) (g : Gate)
    → start ≤ q.visit.monotonic
    → q.visit.monotonic ≤ start + g.limiter.window
    → let ip = visitor_ip q.visit in
      let answer = login_route site q.visit q.identifier q.password g in
      let n = remembered ip start g.limiter in
      IsFailed answer.0
      → (answer.1.limiter.limit ≡ g.limiter.limit)
        × (answer.1.limiter.window ≡ g.limiter.window)
        × (remembered ip start answer.1.limiter ≡ (if is_tried answer.0 then suc n else n))
        × (is_tried answer.0 ≡ true → n < g.limiter.limit)
login_route-remembered site start q g after before failed =
    let (limiter, tried) = login_route-failed site q g failed in
    rw (limiter, tried)
      (allow-remembered (visitor_ip q.visit) start q.visit.monotonic g.limiter after before)

login_run-bound_from :
    (site : AuthSite) (ip : String) (start : ℕ) (qs : List Guess) (g : Gate) (window limit : ℕ)
    → g.limiter.window ≡ window
    → g.limiter.limit ≡ limit
    → All (IsWithin ip start window) qs
    → All IsFailed (login_run site qs g)
    → count is_tried (login_run site qs g) ≤ limit - remembered ip start g.limiter
unfolding login_run
login_run-bound_from site ip start [] g window limit same_w same_l within failed = omega arith
login_run-bound_from site ip start (q ∷ qs) g window limit same_w same_l within failed =
    let answer = login_route site q.visit q.identifier q.password g in
    let (from_ip, after, before) = within.0 in
    let (limit_kept, window_kept, more, room) =
      login_route-remembered site start q g after (rw same_w before) failed.0 in
    let more_here : remembered ip start answer.1.limiter ≡ (
        if is_tried answer.0
        then suc (remembered ip start g.limiter)
        else remembered ip start g.limiter) =
      rw (← from_ip) more in
    let room_here : is_tried answer.0 ≡ true → remembered ip start g.limiter < limit =
      rw (← from_ip, ← same_l) room in
    let rest =
      login_run-bound_from site ip start qs answer.1 window limit (window_kept ∙ same_w)
        (limit_kept ∙ same_l) within.1 failed.1 in
    elim (Bool-cases (is_tried answer.0)) [
      | inl tried ↦ rw tried (omega (arith, rest, rw tried at more_here, room_here tried))
      | inr refused ↦ rw refused (omega (arith, rest, rw refused at more_here))
    ]

-- Of any sequence of login requests from one address within one window of the limiter, in any
-- order of their clock readings, if none of them opens a session then at most as many as the limit
-- get past the limiter; all others are answered with 429.
pub login_run-bound :
    (site : AuthSite) (ip : String) (start : ℕ) (qs : List Guess) (g : Gate)
    → All (IsWithin ip start g.limiter.window) qs
    → All IsFailed (login_run site qs g)
    → count is_tried (login_run site qs g) ≤ g.limiter.limit
login_run-bound site ip start qs g within failed = omega (
  arith,
  login_run-bound_from site ip start qs g g.limiter.window g.limiter.limit refl refl within failed,
)
