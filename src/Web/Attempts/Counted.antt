-- ===== src/Web/Attempts/Counted.antt =====
-- The attempt limiter of app/web/auth_routes.py against a limiter that never forgets an attempt.
use wolt.Prelude.{
  ℕ, suc, String, ◌≤◌, Bool, true, false, ◌&&◌, List, [], ◌∷◌, ◌++◌, ◌≡◌, refl, sym, ap, ◌∙◌, ltb,
  leb, length, count, remove, str_eq, str_eq_iff, if◌then◌else◌, arith, inl, inr, Bool-cases,
}
use wolt.Web.Attempts.Deque.{
  is_recent, Sorted, Sorted-higher, Sorted-append, Sorted-pop_old, length-pop_old, count-pop_old,
  count_end, attempts_of-put_attempts, attempts_of-pop_attempts,
}
use wolt.Web.Attempts.{
  Attempts, LoginAttemptLimiter, attempts_of, put_attempts, pop_attempts, pop_old, allow, clear,
  new_limiter,
}

-- The calls that the routes make.
pub data Call : Type 0 where
  try_at : String → ℕ → Call
  succeed : String → Call

-- The answers to a sequence of calls: one for each `allow`.
unfoldable pub answers : List Call → LoginAttemptLimiter → List Bool
unfolding allow clear
answers [] l = []
answers (try_at key now ∷ calls) l = let r = allow key now l in r.0 ∷ answers calls r.1
answers (succeed key ∷ calls) l = answers calls (clear key l)

-- The reference: `history` holds every attempt that was let through, and an attempt is let through
-- if fewer than `limit` of those with its key are at most `window` ago.
abbrev pub recent_for : ℕ → String → ℕ → String × ℕ → Bool
recent_for window key now (k, t) = str_eq k key && is_recent window now t

abbrev pub counted_ok : ℕ → ℕ → String → ℕ → List (String × ℕ) → Bool
counted_ok limit window key now history = ltb (count (recent_for window key now) history) limit

unfoldable pub counted : ℕ → ℕ → List Call → List (String × ℕ) → List Bool
counted limit window [] history = []
counted limit window (try_at key now ∷ calls) history =
    let fine = counted_ok limit window key now history in
    fine ∷ counted limit window calls (if fine then (key, now) ∷ history else history)
counted limit window (succeed key ∷ calls) history =
    counted limit window calls (remove (λ (k, _). str_eq k key) history)

-- The clock does not run backwards from one call to the next.
unfoldable pub Ordered : ℕ → List Call → Type 0
Ordered last [] = Unit
Ordered last (try_at key now ∷ calls) = (last ≤ now) × Ordered now calls
Ordered last (succeed key ∷ calls) = Ordered last calls

count-removed :
    (window : ℕ) (key k : String) (now : ℕ) (history : List (String × ℕ))
    → count (recent_for window k now) (remove (λ (j, _). str_eq j key) history)
      ≡ (if str_eq key k then 0 else count (recent_for window k now) history)
count-removed window key k now [] = ground arith
count-removed window key k now ((j, t) ∷ history) = ground (
  arith,
  str_eq_iff key k,
  str_eq_iff j key,
  str_eq_iff j k,
  count-removed window key k now history,
)

-- What the deques have to do with the whole history, at every time from `last` on.
abbrev Agrees : ℕ → ℕ → Attempts → List (String × ℕ) → Type 0
Agrees window last d history =
    (key : String)
    → Sorted 0 last (attempts_of key d)
      × ((now : ℕ)
          → last ≤ now
          → count (is_recent window now) (attempts_of key d)
            ≡ count (recent_for window key now) history)

module _ (window last : ℕ) (d : Attempts) (history : List (String × ℕ))
    (agrees : Agrees window last d history) where
  kept_length :
      (key : String) (now : ℕ)
      → last ≤ now
      → length (pop_old window now (attempts_of key d)) ≡ count (recent_for window key now) history
  kept_length key now h =
      length-pop_old window now 0 last (attempts_of key d) (agrees key).0 ∙ (agrees key).1 now h

  Agrees-refused :
      (key : String) (now : ℕ)
      → last ≤ now
      → Agrees window now (put_attempts key (pop_old window now (attempts_of key d)) d) history
  Agrees-refused key now h k = elim (Bool-cases (str_eq key k)) [
    | inl same ↦
        rw (attempts_of-put_attempts key k (pop_old window now (attempts_of key d)) d, same)
          (
            Sorted-higher 0 last now (pop_old window now (attempts_of key d)) h
                (Sorted-pop_old window now 0 last (attempts_of key d) (agrees key).0),
            λ later g.
                count-pop_old window now later (attempts_of key d) g
                ∙ (agrees key).1 later (omega (arith, h, g))
                ∙ ap (λ j. count (recent_for window j later) history) ((str_eq_iff key k).0 same),
          )
    | inr other ↦
        rw (attempts_of-put_attempts key k (pop_old window now (attempts_of key d)) d, other)
          (
            Sorted-higher 0 last now (attempts_of k d) h (agrees k).0,
            λ later g. (agrees k).1 later (omega (arith, h, g)),
          )
  ]

  Agrees-succeed :
      (key : String)
      → Agrees window last (pop_attempts key d) (remove (λ (j, _). str_eq j key) history)
  Agrees-succeed key k = elim (Bool-cases (str_eq key k)) [
    | inl same ↦
        rw (attempts_of-pop_attempts key k d, same)
          (omega arith, λ later g. sym (rw same at (count-removed window key k later history)))
    | inr other ↦
        rw (attempts_of-pop_attempts key k d, other)
          (
            (agrees k).0,
            λ later g.
                (agrees k).1 later g ∙ sym (rw other at (count-removed window key k later history)),
          )
  ]

  Agrees-allowed :
      (key : String) (now : ℕ)
      → last ≤ now
      → Agrees window now
          (put_attempts key (pop_old window now (attempts_of key d) ++ (now ∷ [])) d)
          ((key, now) ∷ history)
  Agrees-allowed key now h k =
      let kept = pop_old window now (attempts_of key d) in
      elim (Bool-cases (str_eq key k)) [
        | inl same ↦
            rw (attempts_of-put_attempts key k (kept ++ (now ∷ [])) d, same)
              (
                Sorted-append 0 now now kept (omega arith) (
                    Sorted-higher 0 last now kept h
                      (Sorted-pop_old window now 0 last (attempts_of key d) (agrees key).0)),
                λ later g.
                    count_end (is_recent window later) kept now
                    ∙ ap (λ n. if is_recent window later now then suc n else n)
                        (count-pop_old window now later (attempts_of key d) g
                          ∙ (agrees key).1 later (omega (arith, h, g))
                          ∙ ap (λ j. count (recent_for window j later) history)
                              ((str_eq_iff key k).0 same)),
              )
        | inr other ↦
            rw (attempts_of-put_attempts key k (kept ++ (now ∷ [])) d, other)
              (
                Sorted-higher 0 last now (attempts_of k d) h (agrees k).0,
                λ later g. (agrees k).1 later (omega (arith, h, g)),
              )
      ]

answers-counted_from :
    (limit window last : ℕ) (d : Attempts) (history : List (String × ℕ)) (calls : List Call)
    → Agrees window last d history
    → Ordered last calls
    → answers calls (record { limit = limit; window = window; attempts = d })
      ≡ counted limit window calls history
unfolding answers counted Ordered allow clear
answers-counted_from limit window last d history [] agrees o = refl
answers-counted_from limit window last d history (succeed key ∷ calls) agrees o =
    answers-counted_from limit window last (pop_attempts key d)
      (remove (λ (j, _). str_eq j key) history) calls
      (Agrees-succeed window last d history agrees key) o
answers-counted_from limit window last d history (try_at key now ∷ calls) agrees o =
    let kept = pop_old window now (attempts_of key d) in
    let n = count (recent_for window key now) history in
    let same_length : length kept ≡ n = kept_length window last d history agrees key now o.0 in
    elim (Bool-cases (leb limit n)) [
      | inl full ↦
          let refused : ltb n limit ≡ false = ground arith in
          rw (same_length, full, refused)
            (ap (λ later. false ∷ later)
              (answers-counted_from limit window now (put_attempts key kept d) history calls
                (Agrees-refused window last d history agrees key now o.0) o.1))
      | inr free ↦
          let allowed : ltb n limit ≡ true = ground arith in
          rw (same_length, free, allowed)
            (ap (λ later. true ∷ later)
              (answers-counted_from limit window now (put_attempts key (kept ++ (now ∷ [])) d)
                ((key, now) ∷ history) calls
                (Agrees-allowed window last d history agrees key now o.0) o.1))
    ]

-- A new `LoginAttemptLimiter`, called at times that do not go down, gives the answers of the
-- reference that keeps every attempt it let through since the key was cleared: an attempt is let
-- through exactly if fewer than `limit` of those lie at most a window back.
pub answers-counted :
    (limit window : ℕ) (calls : List Call)
    → Ordered 0 calls
    → answers calls (new_limiter limit window) ≡ counted limit window calls []
unfolding new_limiter attempts_of
answers-counted limit window calls o =
    answers-counted_from limit window 0 [] [] calls (λ key. (omega arith, λ now h. refl)) o
