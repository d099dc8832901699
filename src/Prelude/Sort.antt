-- ===== src/Prelude/Sort.antt =====
-- An `ORDER BY` as insertion sort, with what it keeps.
use mathlib.Core.Path.{◌≡◌, refl}
use mathlib.Core.Logic.{inl, inr}
use mathlib.Core.Bool.{Bool, true, false}
use mathlib.Core.List.{List, [], ◌∷◌}
use native.Mathlib.Omega.{arith}
use wolt.Prelude.Tests.{if◌then◌else◌, Bool-cases}
use wolt.Prelude.Lists.{count}

module _ {ℓ} {A : Type ℓ} where
  unfoldable pub insert_by : (A → A → Bool) → A → List A → List A
  insert_by before a [] = a ∷ []
  insert_by before a (x ∷ xs) =
      let rest = insert_by before a xs in if before a x then a ∷ x ∷ xs else x ∷ rest

  unfoldable pub sort_by : (A → A → Bool) → List A → List A
  unfolding insert_by
  sort_by before [] = []
  sort_by before (x ∷ xs) = insert_by before x (sort_by before xs)

  -- The element, if there is one, may stand before those of the list.
  abbrev pub Leads : (A → A → Bool) → A → List A → Type 0
  Leads before a [] = Unit
  Leads before a (x ∷ xs) = before a x ≡ true

  -- Each element may stand before the next.
  abbrev pub InOrder : (A → A → Bool) → List A → Type 0
  InOrder before [] = Unit
  InOrder before (x ∷ xs) = Leads before x xs × InOrder before xs

module _ {ℓ} {A : Type ℓ} (before : A → A → Bool) where
  count-insert_by :
      (p : A → Bool) (a : A) (xs : List A) → count p (insert_by before a xs) ≡ count p (a ∷ xs)
  unfolding insert_by
  count-insert_by p a [] = refl
  count-insert_by p a (x ∷ xs) = ground (arith, count-insert_by p a xs)

  -- Sorting keeps how many elements pass any test.
  pub count-sort_by : (p : A → Bool) (xs : List A) → count p (sort_by before xs) ≡ count p xs
  unfolding sort_by
  count-sort_by p [] = refl
  count-sort_by p (x ∷ xs) =
      ground (arith, count-insert_by p x (sort_by before xs), count-sort_by p xs)

module _ {ℓ} {A : Type ℓ} (before : A → A → Bool)
    (total : (a b : A) → before a b ≡ false → before b a ≡ true) where
  insert_by-Leads :
      (y a : A) (xs : List A)
      → before y a ≡ true
      → Leads before y xs
      → Leads before y (insert_by before a xs)
  unfolding insert_by
  insert_by-Leads y a [] h l = h
  insert_by-Leads y a (x ∷ xs) h l = elim (Bool-cases (before a x)) [
    | inl earlier ↦ rw earlier h
    | inr later ↦ rw later l
  ]

  insert_by-InOrder :
      (a : A) (xs : List A) → InOrder before xs → InOrder before (insert_by before a xs)
  unfolding insert_by
  insert_by-InOrder a [] h = (tt, tt)
  insert_by-InOrder a (x ∷ xs) h = elim (Bool-cases (before a x)) [
    | inl earlier ↦ rw earlier (earlier, h)
    | inr later ↦
        rw later (insert_by-Leads x a xs (total a x later) h.0, insert_by-InOrder a xs h.1)
  ]

  pub sort_by-InOrder : (xs : List A) → InOrder before (sort_by before xs)
  unfolding sort_by
  sort_by-InOrder [] = tt
  sort_by-InOrder (x ∷ xs) = insert_by-InOrder x (sort_by before xs) (sort_by-InOrder xs)
