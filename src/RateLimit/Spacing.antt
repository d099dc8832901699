-- ===== src/RateLimit/Spacing.antt =====
-- The limiter over a whole history of calls, in the order in which they take the lock.
use wolt.Prelude.{
  ℕ, ◌+◌, ◌≤◌, ◌<◌, ◌≡◌, ◌↔◌, refl, Bool, true, false, Option, none, some, List, [], ◌∷◌, arith,
  str_eq_iff, ◌&&◌, if◌then◌else◌, Bool-cases, inl, inr,
}
use wolt.RateLimit.{Key, same_key, too_soon, RateLimiter, new_limiter, lookup, insert, allow}

pub record Request : Type 0 where
  pub key : Key
  pub now : ℕ

abbrev pub ask : Request → RateLimiter → Bool × RateLimiter
ask r = allow r.key.listen_port r.key.mac_address r.now

-- The clock readings at which requests for `k` were allowed, in order.
unfoldable pub allowed : Key → List Request → RateLimiter → List ℕ
allowed k [] limiter = []
allowed k (r ∷ rs) limiter =
    let (granted, limiter') = ask r limiter in
    let later = allowed k rs limiter' in
    if granted then (if same_key r.key k then r.now ∷ later else later) else later

-- Each reading lies at least `gap` after the one before it, the first after `previous`.
abbrev pub Spaced : ℕ → Option ℕ → List ℕ → Type 0
Spaced gap previous [] = Unit
Spaced gap none (t ∷ ts) = Spaced gap (some t) ts
Spaced gap (some p) (t ∷ ts) = (p + gap ≤ t) × Spaced gap (some t) ts

lookup-insert :
    (k j : Key) (t : ℕ) (d : List (Key × ℕ))
    → lookup j (insert k t d) ≡ (if same_key k j then some t else lookup j d)
unfolding lookup insert
lookup-insert k j t [] = refl
lookup-insert k j t ((i, u) ∷ d) = ground (
  arith,
  str_eq_iff k.mac_address j.mac_address,
  str_eq_iff i.mac_address k.mac_address,
  str_eq_iff i.mac_address j.mac_address,
  lookup-insert k j t d,
)

lookup_same : (j k : Key) (d : List (Key × ℕ)) → same_key j k ≡ true → lookup j d ≡ lookup k d
unfolding lookup
lookup_same j k [] h = refl
lookup_same j k ((i, u) ∷ d) h = ground (
  arith,
  str_eq_iff j.mac_address k.mac_address,
  str_eq_iff i.mac_address j.mac_address,
  str_eq_iff i.mac_address k.mac_address,
  lookup_same j k d,
)

-- A refused request changes nothing; an allowed one is not too soon and is the last of its key.
module _ (gap : ℕ) (k : Key) (r : Request) (d : List (Key × ℕ)) (later : List ℕ) where
  skip_other :
      same_key r.key k ≡ false
      → Spaced gap (lookup k (insert r.key r.now d)) later
      → Spaced gap (lookup k d) (if same_key r.key k then r.now ∷ later else later)
  skip_other other h = rw other (rw (lookup-insert r.key k r.now d, other) at h)

  count_own :
      same_key r.key k ≡ true
      → too_soon r.now gap (lookup r.key d) ≡ false
      → Spaced gap (lookup k (insert r.key r.now d)) later
      → Spaced gap (lookup k d) (if same_key r.key k then r.now ∷ later else later)
  count_own same fits h = rw same (
      rw (← lookup_same r.key k d same)
        (first_after (lookup r.key d) fits (rw (lookup-insert r.key k r.now d, same) at h)))
    where
      first_after :
          (previous : Option ℕ)
          → too_soon r.now gap previous ≡ false
          → Spaced gap (some r.now) later
          → Spaced gap previous (r.now ∷ later)
      first_after none _ s = s
      first_after (some p) fits s = (ground arith, s)

allowed_step :
    (k : Key) (r : Request) (limiter : RateLimiter) (later : RateLimiter → List ℕ)
    → (let next = (ask r limiter).1 in
        Spaced next.interval (lookup k next.last_allowed) (later next))
    → (let (granted, next) = ask r limiter in
        Spaced limiter.interval (lookup k limiter.last_allowed) (
          if granted
          then (if same_key r.key k then r.now ∷ later next else later next)
          else later next))
unfolding allow
allowed_step k r limiter later h =
    elim (Bool-cases (too_soon r.now limiter.interval (lookup r.key limiter.last_allowed))) [
      | inl soon ↦ rw soon (rw soon at h)
      | inr fits ↦ elim (Bool-cases (same_key r.key k)) [
        | inl same ↦ rw fits (count_own _ k r _ _ same fits (rw fits at h))
        | inr other ↦ rw fits (skip_other _ k r _ _ other (rw fits at h))
      ]
    ]

allowed-Spaced_from :
    (k : Key) (rs : List Request) (limiter : RateLimiter)
    → Spaced limiter.interval (lookup k limiter.last_allowed) (allowed k rs limiter)
unfolding allowed
allowed-Spaced_from k [] limiter = tt
allowed-Spaced_from k (r ∷ rs) limiter =
    allowed_step k r limiter (allowed k rs) (allowed-Spaced_from k rs (ask r limiter).1)

-- Whatever calls a new limiter answers and whatever their clock readings, the readings at which it
-- allows the requests of one listen port and MAC address lie at least the interval apart, each
-- after the one that was allowed before it.
pub allowed-Spaced :
    (interval : ℕ) (k : Key) (rs : List Request)
    → Spaced interval none (allowed k rs (new_limiter interval))
unfolding new_limiter lookup
allowed-Spaced interval k rs = allowed-Spaced_from k rs (new_limiter interval)

refused_only :
    (r : Request) (limiter : RateLimiter) (o : Option ℕ)
    → lookup r.key limiter.last_allowed ≡ o
    → (ask r limiter).0 ≡ false
    → (previous : ℕ) × (lookup r.key limiter.last_allowed ≡ some previous)
      × (r.now < previous + limiter.interval)
unfolding allow
refused_only r limiter none e h = ground arith
refused_only r limiter (some p) e h = (p, e, ground arith)

-- A request is refused exactly when its key was allowed less than the interval before. After it,
-- the interval is the same, the last allowed reading of its own key is the request's if it was
-- allowed, and all other last allowed readings are as they were.
pub allow_lem :
    (r : Request) (limiter : RateLimiter) (k : Key)
    → (((ask r limiter).0 ≡ false) ↔ (
        (previous : ℕ) × (lookup r.key limiter.last_allowed ≡ some previous)
        × (r.now < previous + limiter.interval)))
      × ((ask r limiter).1.interval ≡ limiter.interval)
      × (lookup k (ask r limiter).1.last_allowed ≡ (
          if (ask r limiter).0 && same_key r.key k
          then some r.now
          else lookup k limiter.last_allowed))
unfolding allow
allow_lem r limiter k = (
  (refused_only r limiter _ refl, λ (p, e, h). ground arith),
  ground arith,
  ground (arith, lookup-insert r.key k r.now limiter.last_allowed),
)
