-- ===== src/Web/Attempts/Deque.antt =====
-- The deques of `LoginAttemptLimiter` (app/web/auth_routes.py): what popping the old attempts leaves.
use wolt.Prelude.{
  ℕ, suc, String, ◌+◌, ◌≤◌, Bool, List, [], ◌∷◌, ◌++◌, ◌≡◌, refl, ltb, leb, length, count, str_eq,
  str_eq_iff, if◌then◌else◌, arith, inl, inr, Bool-cases,
}
use wolt.Web.Attempts.{Attempts, attempts_of, put_attempts, pop_attempts, pop_old}

-- At most a window back.
abbrev pub is_recent : ℕ → ℕ → ℕ → Bool
is_recent window now t = leb now (t + window)

-- The attempts of a deque go up, from `low` to `high`.
abbrev pub Sorted : ℕ → ℕ → List ℕ → Type 0
Sorted low high [] = low ≤ high
Sorted low high (t ∷ ts) = (low ≤ t) × Sorted t high ts

Sorted-lower : (a b high : ℕ) (ts : List ℕ) → a ≤ b → Sorted b high ts → Sorted a high ts
Sorted-lower a b high [] h s = omega (arith, h, s)
Sorted-lower a b high (t ∷ ts) h s = (omega (arith, h, s.0), s.1)

pub Sorted-higher : (low a b : ℕ) (ts : List ℕ) → a ≤ b → Sorted low a ts → Sorted low b ts
Sorted-higher low a b [] h s = omega (arith, h, s)
Sorted-higher low a b (t ∷ ts) h s = (s.0, Sorted-higher t a b ts h s.1)

pub Sorted-append :
    (low high now : ℕ) (ts : List ℕ)
    → high ≤ now
    → Sorted low high ts
    → Sorted low now (ts ++ (now ∷ []))
Sorted-append low high now [] h s = (omega (arith, h, s), omega arith)
Sorted-append low high now (t ∷ ts) h s = (s.0, Sorted-append t high now ts h s.1)

pub Sorted-pop_old :
    (window now low high : ℕ) (ts : List ℕ)
    → Sorted low high ts
    → Sorted low high (pop_old window now ts)
unfolding pop_old
Sorted-pop_old window now low high [] s = s
Sorted-pop_old window now low high (t ∷ ts) s = elim (Bool-cases (ltb (t + window) now)) [
  | inl old ↦ rw old (
      Sorted-lower low t high (pop_old window now ts) s.0 (Sorted-pop_old window now t high ts s.1))
  | inr new ↦ rw new s
]

all_recent :
    (window now low high : ℕ) (ts : List ℕ)
    → now ≤ low + window
    → Sorted low high ts
    → count (is_recent window now) ts ≡ length ts
all_recent window now low high [] h s = refl
all_recent window now low high (t ∷ ts) h s =
    ground (arith, s.0, all_recent window now t high ts (omega (arith, h, s.0)) s.1)

pub length-pop_old :
    (window now low high : ℕ) (ts : List ℕ)
    → Sorted low high ts
    → length (pop_old window now ts) ≡ count (is_recent window now) ts
unfolding pop_old
length-pop_old window now low high [] s = refl
length-pop_old window now low high (t ∷ ts) s = elim (Bool-cases (ltb (t + window) now)) [
  | inl old ↦ ground (arith, length-pop_old window now t high ts s.1)
  | inr new ↦ ground (arith, all_recent window now t high ts (ground arith) s.1)
]

pub count-pop_old :
    (window now later : ℕ) (ts : List ℕ)
    → now ≤ later
    → count (is_recent window later) (pop_old window now ts) ≡ count (is_recent window later) ts
unfolding pop_old
count-pop_old window now later [] h = refl
count-pop_old window now later (t ∷ ts) h = ground (arith, count-pop_old window now later ts h)

pub count_end :
    (p : ℕ → Bool) (ts : List ℕ) (t : ℕ)
    → count p (ts ++ (t ∷ [])) ≡ (if p t then suc (count p ts) else count p ts)
count_end p [] t = refl
count_end p (u ∷ ts) t = ground (arith, count_end p ts t)

pub attempts_of-put_attempts :
    (key k : String) (ts : List ℕ) (d : Attempts)
    → attempts_of k (put_attempts key ts d) ≡ (if str_eq key k then ts else attempts_of k d)
unfolding attempts_of put_attempts
attempts_of-put_attempts key k ts [] = refl
attempts_of-put_attempts key k ts ((j, us) ∷ d) =
    ground (
      arith,
      str_eq_iff key k,
      str_eq_iff j key,
      str_eq_iff j k,
      attempts_of-put_attempts key k ts d,
    )

pub attempts_of-pop_attempts :
    (key k : String) (d : Attempts)
    → attempts_of k (pop_attempts key d) ≡ (if str_eq key k then [] else attempts_of k d)
unfolding attempts_of pop_attempts
attempts_of-pop_attempts key k [] = ground arith
attempts_of-pop_attempts key k ((j, us) ∷ d) =
    ground
      (arith, str_eq_iff key k, str_eq_iff j key, str_eq_iff j k, attempts_of-pop_attempts key k d)
