-- ===== src/Observability/Events/Paging.antt =====
-- Lemmas on the rows of a query, and on the pages that they are cut into (app/application/observability_service.py).
use wolt.Prelude.{
  ℕ, zero, suc, ◌+◌, ◌-◌, ◌*◌, ◌/◌, ◌%◌, ◌≤◌, ◌<◌, Bool, true, false, ◌&&◌, List, [], ◌∷◌, ◌++◌,
  map, ◌≡◌, refl, ap, leb, count, select, take, drop, length, any, first, is_some, sort_by,
  count-sort_by, arith, Bool-cases, inl, inr,
}
use native.Mathlib.Nat.{
  div-add-mod', mod-lt, suc-mul, zero-add, suc-add, zero-mul, mul-le-mul_right,
}
use native.Mathlib.Numerals.{unary_clauses}
use wolt.Observability.Events.{page_count, page_rows}

-- The items of the pages from 1 to `n`, one page after another.
abbrev pub all_pages : {A : Type 0} → (ℕ → List A) → ℕ → List A
all_pages page zero = []
all_pages page (suc n) = all_pages page n ++ page (suc n)

take-add : {A : Type 0} (a b : ℕ) (xs : List A) → take a xs ++ take b (drop a xs) ≡ take (a + b) xs
take-add zero b xs = rw (zero-add b) refl
take-add (suc a) zero [] = simp unary_clauses refl
take-add (suc a) (suc b) [] = simp unary_clauses refl
take-add (suc a) b (x ∷ xs) = rw (suc-add a b) (ap (λ ys. x ∷ ys) (take-add a b xs))

pub take_all : {A : Type 0} (n : ℕ) (xs : List A) → length xs ≤ n → take n xs ≡ xs
take_all zero [] h = refl
take_all zero (x ∷ xs) h = absurd (omega (arith, h))
take_all (suc n) [] h = refl
take_all (suc n) (x ∷ xs) h = ap (λ ys. x ∷ ys) (take_all n xs (omega (arith, h)))

pub all_pages-take :
    {A : Type 0} (size n : ℕ) (xs : List A)
    → all_pages (λ i. page_rows i size xs) n ≡ take (n * size) xs
unfolding page_rows
all_pages-take size zero xs = rw (zero-mul size) refl
all_pages-take size (suc n) xs =
    let previous : suc n - 1 ≡ n = omega arith in
    rw (previous, suc-mul n size, all_pages-take size n xs) (take-add (n * size) size xs)

few_le : (n : ℕ) → leb n 1 ≡ true → n ≤ 1
few_le n h = ground arith

-- The pages are enough for all rows.
pub page_count-enough : (total size : ℕ) → 1 ≤ size → total ≤ page_count total size * size
unfolding page_count
page_count-enough total size h =
    let pages = (total + size - 1) / size in
    let whole : pages * size + (total + size - 1) % size ≡ total + size - 1 =
      div-add-mod' (total + size - 1) size in
    let left : (total + size - 1) % size < size = mod-lt (total + size - 1) (omega (arith, h)) in
    elim (Bool-cases (leb pages 1)) [
      | inl few ↦ rw few (omega (arith, whole, left, h, mul-le-mul_right size (few_le pages few)))
      | inr many ↦ rw many (omega (arith, whole, left, h))
    ]

pub count-select :
    {A : Type 0} (p q : A → Bool) (xs : List A) → count p (select q xs) ≡ count (λ a. q a && p a) xs
count-select p q [] = refl
count-select p q (x ∷ xs) = ground (arith, count-select p q xs)

pub count_mono :
    {A : Type 0} (p q : A → Bool) (xs : List A)
    → ((a : A) → p a ≡ true → q a ≡ true)
    → count p xs ≤ count q xs
count_mono p q [] h = omega arith
count_mono p q (x ∷ xs) h = ground (arith, h x, count_mono p q xs h)

pub any-first :
    {A : Type 0} (p : A → Bool) (xs : List A) → any p xs ≡ true → is_some (first p xs) ≡ true
any-first p [] h = ground arith
any-first p (x ∷ xs) h = ground (arith, any-first p xs)

pub length-map : {A B : Type 0} (f : A → B) (xs : List A) → length (map f xs) ≡ length xs
length-map f [] = refl
length-map f (x ∷ xs) = omega (arith, length-map f xs)

length-count : {A : Type 0} (xs : List A) → length xs ≡ count (λ _. true) xs
length-count [] = refl
length-count (x ∷ xs) = omega (arith, length-count xs)

count_ext :
    {A : Type 0} (p q : A → Bool) (xs : List A) → ((a : A) → p a ≡ q a) → count p xs ≡ count q xs
count_ext p q [] h = refl
count_ext p q (x ∷ xs) h = ground (arith, h x, count_ext p q xs h)

&&-true : (b : Bool) → (b && true) ≡ b
&&-true true = refl
&&-true false = refl

pub sorted-length :
    {A : Type 0} (before : A → A → Bool) (p : A → Bool) (xs : List A)
    → length (sort_by before (select p xs)) ≡ count p xs
sorted-length before p xs = omega (
  arith,
  length-count (sort_by before (select p xs)),
  count-sort_by before (λ _. true) (select p xs),
  count-select (λ _. true) p xs,
  count_ext (λ e. p e && true) p xs (λ e. &&-true (p e)),
)
