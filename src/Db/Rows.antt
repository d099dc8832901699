-- ===== src/Db/Rows.antt =====
-- Rows under unique columns: what an `UPDATE` of one row does to a count, and a token that an
-- `UPDATE` has used up.
use wolt.Prelude.{
  ℕ, String, ◌+◌, ◌≡◌, refl, Bool, true, false, ◌&&◌, some, List, [], ◌∷◌, arith, ◌==◌, str_eq,
  str_eq_iff, any, first, count, update, Bool-cases, inl, inr,
}
use wolt.Db.{unique}

abbrev pub weight : Bool → ℕ
weight true = 1
weight false = 0

module _ {A : Type 0} where
  pub update_absent :
      (q : A → Bool) (f : A → A) (xs : List A) → any q xs ≡ false → update q f xs ≡ xs
  update_absent q f [] h = refl
  update_absent q f (x ∷ xs) h = ground (arith, update_absent q f xs)

module _ {A : Type 0} (key : A → ℕ) where
  abbrev pub distinct : List A → Bool
  distinct = unique (λ a b. key a == key b)

  other_keys :
      (x : A) (i : ℕ) (xs : List A)
      → any (λ y. key x == key y) xs ≡ false
      → key x ≡ i
      → any (λ y. key y == i) xs ≡ false
  other_keys x i [] h e = refl
  other_keys x i (y ∷ ys) h e = ground (arith, other_keys x i ys)

  -- An update of the one row with a key moves a count by that row.
  pub count-update :
      (p : A → Bool) (f : A → A) (i : ℕ) (xs : List A) (a : A)
      → distinct xs ≡ true
      → first (λ y. key y == i) xs ≡ some a
      → count p (update (λ y. key y == i) f xs) + weight (p a) ≡ count p xs + weight (p (f a))
  unfolding unique
  count-update p f i [] a d h = ground arith
  count-update p f i (x ∷ xs) a d h = elim (Bool-cases (key x == i)) [
    | inl hit ↦ ground (arith, update_absent (λ y. key y == i) f xs, other_keys x i xs)
    | inr miss ↦ ground (arith, count-update p f i xs a)
  ]

-- Rows with a unique text, of which `close` shuts one for good.
module _ {A : Type 0} (key : A → ℕ) (hash : A → String) (opened : A → Bool) (close : A → A)
    (hash-close : (a : A) → hash (close a) ≡ hash a)
    (opened-close : (a : A) → opened (close a) ≡ false) where
  abbrev carries : String → A → Bool
  carries h a = str_eq (hash a) h

  other_hashes :
      (x : A) (h : String) (xs : List A)
      → any (λ y. str_eq (hash x) (hash y)) xs ≡ false
      → hash x ≡ h
      → any (carries h) xs ≡ false
  other_hashes x h [] d e = refl
  other_hashes x h (y ∷ ys) d e =
      ground (arith, str_eq_iff (hash x) (hash y), str_eq_iff (hash y) h, other_hashes x h ys)

  none_open :
      (h : String) (q : A → Bool) (xs : List A)
      → any (carries h) xs ≡ false
      → any (λ a. str_eq (hash a) h && opened a) (update q close xs) ≡ false
  none_open h q [] d = refl
  none_open h q (x ∷ xs) d = ground (arith, none_open h q xs, hash-close x)

  none_found :
      (h : String) (p : A → Bool) (xs : List A) (a : A)
      → any (carries h) xs ≡ false
      → first (λ y. str_eq (hash y) h && p y) xs ≡ some a
      → ⊥
  none_found h p [] a d e = cc
  none_found h p (x ∷ xs) a d e = ground (arith, none_found h p xs a)

  -- Once the row that carries a text has been closed, no open row carries it.
  pub closed_after :
      (h : String) (p : A → Bool) (xs : List A) (a : A)
      → unique (λ x y. str_eq (hash x) (hash y)) xs ≡ true
      → first (λ y. str_eq (hash y) h && p y) xs ≡ some a
      → any (λ y. str_eq (hash y) h && opened y) (update (λ y. key y == key a) close xs) ≡ false
  unfolding unique
  closed_after h p [] a d e = refl
  closed_after h p (x ∷ xs) a d e = elim (Bool-cases (carries h x)) [
    | inl hit ↦ ground (
      arith,
      str_eq_iff (hash x) h,
      other_hashes x h xs,
      none_open h (λ y. key y == key a) xs,
      none_found h p xs a,
      opened-close x,
    )
    | inr miss ↦ ground (arith, hash-close x, closed_after h p xs a)
  ]
