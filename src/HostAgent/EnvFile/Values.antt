-- ===== src/HostAgent/EnvFile/Values.antt =====
-- What a file says of each key, and what an update makes of it.
use wolt.Prelude.{
  String, ◌≡◌, refl, inl, inr, Option, none, some, List, [], ◌∷◌, arith, str_eq, str_eq_iff,
  if◌then◌else◌, Option-cases, Bool-cases, All,
}
use mathlib.Core.Path.{subst}
use wolt.HostAgent.EnvFile.{
  Values, lookup_value, set_value, pop_value, assignment, render, rendered, values_from, env_values,
  update_lines,
}

abbrev pub or_else : Option String → Option String → Option String
or_else (some v) o = some v
or_else none o = o

abbrev own_value : String → Option (String × String) → Option String
own_value k none = none
own_value k (some (j, v)) = if str_eq j k then some v else none

-- The value that the last line with the key gives it.
unfoldable pub value_of : String → List String → Option String
value_of k [] = none
value_of k (line ∷ lines) = or_else (value_of k lines) (own_value k (assignment line))

pub lookup-set_value {ℓ} :
    {A : Type ℓ} (k j : String) (v : A) (d : List (String × A))
    → lookup_value k (set_value j v d) ≡ (if str_eq j k then some v else lookup_value k d)
unfolding lookup_value set_value
lookup-set_value k j v [] = refl
lookup-set_value k j v ((i, w) ∷ d) =
    ground (arith, str_eq_iff i j, str_eq_iff i k, str_eq_iff j k, lookup-set_value k j v d)

values_from-lookup :
    (k : String) (lines : List String) (d : Values)
    → lookup_value k (values_from d lines) ≡ or_else (value_of k lines) (lookup_value k d)
unfolding values_from value_of
values_from-lookup k [] d = refl
values_from-lookup k (line ∷ lines) d = elim (Option-cases (assignment line)) [
  | inl skip ↦ ground (arith, values_from-lookup k lines d)
  | inr ((j, v), e) ↦
      ground (arith, values_from-lookup k lines (set_value j v d), lookup-set_value k j v d)
]

-- No two lines of the file give a value to one key.
abbrev pub Unseen : Option (String × String) → List String → Type 0
Unseen none lines = Unit
Unseen (some (j, v)) lines = value_of j lines ≡ none

abbrev pub DistinctLines : List String → Type 0
DistinctLines [] = Unit
DistinctLines (line ∷ lines) = Unseen (assignment line) lines × DistinctLines lines

abbrev pub DistinctKeys : Values → Type 0
DistinctKeys [] = Unit
DistinctKeys ((k, v) ∷ d) = (lookup_value k d ≡ none) × DistinctKeys d

-- A rendered pair is read back as itself.
abbrev pub Readable : String × String → Type 0
Readable (k, v) = assignment (render k v) ≡ some (k, v)

lookup-pop_value :
    (k j : String) (d : Values)
    → DistinctKeys d
    → lookup_value k (pop_value j d) ≡ (if str_eq j k then none else lookup_value k d)
unfolding lookup_value pop_value
lookup-pop_value k j [] u = ground arith
lookup-pop_value k j ((i, w) ∷ d) u =
    ground (arith, str_eq_iff i j, str_eq_iff i k, str_eq_iff j k, lookup-pop_value k j d)

pop_value-DistinctKeys : (j : String) (d : Values) → DistinctKeys d → DistinctKeys (pop_value j d)
unfolding pop_value
pop_value-DistinctKeys j [] u = tt
pop_value-DistinctKeys j ((i, w) ∷ d) u =
    ground (arith, pop_value-DistinctKeys j d, lookup-pop_value i j d)

pub All-pop_value :
    (P : String × String → Type 0) (j : String) (d : Values) → All P d → All P (pop_value j d)
unfolding pop_value
All-pop_value P j [] h = tt
All-pop_value P j ((i, w) ∷ d) h = ground (arith, All-pop_value P j d)

value_of-rendered :
    (k : String) (d : Values)
    → DistinctKeys d
    → All Readable d
    → value_of k (rendered d) ≡ lookup_value k d
unfolding value_of lookup_value
value_of-rendered k [] u r = refl
value_of-rendered k ((i, w) ∷ d) u r = ground (arith, value_of-rendered k d, str_eq_iff i k)

pub lookup-member :
    (P : String × String → Type 0) (j w : String) (d : Values)
    → All P d
    → lookup_value j d ≡ some w
    → P (j, w)
unfolding lookup_value
lookup-member P j w [] r e = ground arith
lookup-member P j w ((i, x) ∷ d) (r, rs) e = elim (Bool-cases (str_eq i j)) [
  | inl same ↦ subst P (ground (arith, str_eq_iff i j)) r
  | inr other ↦ lookup-member P j w d rs (ground arith)
]

value_of-rendered_line :
    (k j w : String) (lines : List String)
    → Readable (j, w)
    → value_of k (render j w ∷ lines) ≡ or_else (value_of k lines) (own_value k (some (j, w)))
unfolding value_of
value_of-rendered_line k j w lines r = rw r refl

Unseen-at :
    (o : Option (String × String)) (j v : String) (lines : List String)
    → o ≡ some (j, v)
    → Unseen o lines
    → value_of j lines ≡ none
Unseen-at none j v lines e u = ground arith
Unseen-at (some (i, w)) j v lines e u = ground (arith, e)

pub update_lines-set :
    (line j v w : String) (lines : List String) (d : Values)
    → assignment line ≡ some (j, v)
    → lookup_value j d ≡ some w
    → update_lines d (line ∷ lines) ≡ render j w ∷ update_lines (pop_value j d) lines
unfolding update_lines
update_lines-set line j v w lines d e set = rw (e, set, update_lines) refl

value_of-update_lines :
    (k : String) (lines : List String) (d : Values)
    → DistinctKeys d
    → All Readable d
    → DistinctLines lines
    → value_of k (update_lines d lines) ≡ or_else (lookup_value k d) (value_of k lines)
unfolding value_of update_lines
value_of-update_lines k [] d u r s = ground (arith, value_of-rendered k d u r)
value_of-update_lines k (line ∷ lines) d u r s = elim (Option-cases (assignment line)) [
  | inl skip ↦ ground (arith, value_of-update_lines k lines d u r)
  | inr ((j, v), e) ↦ elim (Option-cases (lookup_value j d)) [
    | inl kept ↦ ground (arith, value_of-update_lines k lines d u r, str_eq_iff j k)
    | inr (w, set) ↦ ground (
      arith,
      update_lines-set line j v w lines d e set,
      value_of-rendered_line k j w (update_lines (pop_value j d) lines)
          (lookup-member Readable j w d r set),
      value_of-update_lines k lines (pop_value j d) (pop_value-DistinctKeys j d u)
          (All-pop_value Readable j d r),
      lookup-pop_value k j d u,
      str_eq_iff j k,
      Unseen-at (assignment line) j v lines e,
    )
  ]
]

-- After an update of distinct lines with distinct keys, a key has the value of the change, or the one it had.
pub env_values-update_lines :
    (k : String) (lines : List String) (d : Values)
    → DistinctKeys d
    → All Readable d
    → DistinctLines lines
    → lookup_value k (env_values (update_lines d lines))
      ≡ or_else (lookup_value k d) (lookup_value k (env_values lines))
unfolding env_values lookup_value
env_values-update_lines k lines d u r s = ground (
  arith,
  values_from-lookup k lines [],
  values_from-lookup k (update_lines d lines) [],
  value_of-update_lines k lines d u r s,
)
