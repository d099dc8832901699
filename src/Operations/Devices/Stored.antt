-- ===== src/Operations/Devices/Stored.antt =====
-- A device that was created can be used: its credential is read back as it was validated.
use wolt.Prelude.{ℕ, ◌≡◌, true, some, List, [], ◌∷◌, ◌++◌, arith, ◌==◌, any-append, first}
use wolt.Db.{Db, unique}
use wolt.Driver

module _ {A : Type 0} (key : A → ℕ) (x : A) where
  -- The last row of a table with a unique key is found by its key.
  pub first-append_unique :
      (xs : List A)
      → unique (λ a b. key a == key b) (xs ++ (x ∷ [])) ≡ true
      → first (λ a. key a == key x) (xs ++ (x ∷ [])) ≡ some x
  unfolding unique
  first-append_unique [] h = ground arith
  first-append_unique (y ∷ xs) h =
      ground (arith, first-append_unique xs, any-append (λ b. key y == key b) xs (x ∷ []))
