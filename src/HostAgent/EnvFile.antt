-- ===== src/HostAgent/EnvFile.antt =====
-- The environment file of the deployment: `_env_values` and `_update_env`, over the lines of the file.
pub mod Values
pub mod Lines
pub mod Update
use Prim.Native.Char.{Char, code}
use wolt.Prelude.{
  ℕ, String, Bool, true, false, not, ◌&&◌, ◌||◌, Option, none, some, List, [], ◌∷◌, ◌++◌, ◌==◌,
  str_eq, is_empty, is_some, lstrip, has_prefix, append, concat, leb, if◌then◌else◌,
}

-- A dictionary with texts as keys, in insertion order.
abbrev pub Values : Type 0
Values = List (String × String)

-- `values.get(key)`
unfoldable pub lookup_value {ℓ} : {A : Type ℓ} → String → List (String × A) → Option A
lookup_value k [] = none
lookup_value k ((j, v) ∷ d) = if str_eq j k then some v else lookup_value k d

-- `values[key] = value`
unfoldable pub set_value {ℓ} : {A : Type ℓ} → String → A → List (String × A) → List (String × A)
set_value k v [] = (k, v) ∷ []
set_value k v ((j, w) ∷ d) = if str_eq j k then (k, v) ∷ d else (j, w) ∷ set_value k v d

-- What is left after `remaining.pop(key)`.
unfoldable pub pop_value : String → Values → Values
pop_value k [] = []
pop_value k ((j, v) ∷ d) = if str_eq j k then d else (j, v) ∷ pop_value k d

abbrev put_first : Char → Option (String × String) → Option (String × String)
put_first c none = none
put_first c (some (k, v)) = some (String.◌∷◌ c k, v)

-- `line.split("=", 1)`, where the line has a "=".
unfoldable pub split_at_equals : String → Option (String × String)
split_at_equals String.[] = none
split_at_equals (String.◌∷◌ c s) =
    let rest = split_at_equals s in if code c == 61 then some ("", s) else put_first c rest

-- The key and the value of a line that is not blank, is no comment and has a "=".
unfoldable pub assignment : String → Option (String × String)
unfolding split_at_equals
assignment line =
    if is_empty line || has_prefix "#" (lstrip line) then none else split_at_equals line

-- `f"{key}={value}"`
abbrev pub render : String → String → String
render k v = append k (String.◌∷◌ "=" v)

-- `_env_values`, from the values so far.
unfoldable pub values_from : Values → List String → Values
unfolding set_value
values_from d [] = d
values_from d (line ∷ lines) =
    values_from (elim (assignment line) [ none ↦ d | some (k, v) ↦ set_value k v d ]) lines

unfoldable pub env_values : List String → Values
unfolding values_from
env_values lines = values_from [] lines

abbrev pub rendered : Values → List String
rendered [] = []
rendered ((k, v) ∷ d) = render k v ∷ rendered d

-- The loop of `_update_env` over the lines, with what remains to be set, and the lines after it.
unfoldable pub update_lines : Values → List String → List String
unfolding lookup_value pop_value
update_lines remaining [] = rendered remaining
update_lines remaining (line ∷ lines) = elim (assignment line) [
  | none ↦ line ∷ update_lines remaining lines
  | some (k, _) ↦ elim (lookup_value k remaining) [
    | none ↦ line ∷ update_lines remaining lines
    | some v ↦ render k v ∷ update_lines (pop_value k remaining) lines
  ]
]

-- The text that `_update_env` writes: `"\n".join(output) + "\n"`.
unfoldable pub join_lines : List String → String
join_lines [] = String.◌∷◌ "\n" String.[]
join_lines (line ∷ []) = append line (String.◌∷◌ "\n" String.[])
join_lines (line ∷ l ∷ lines) = append line (String.◌∷◌ "\n" (join_lines (l ∷ lines)))

-- The code points at which `str.splitlines` ends a line.
abbrev pub is_break : ℕ → Bool
is_break c =
    (leb 10 c && leb c 13) || ((leb 28 c && leb c 30) || (c == 133 || (c == 8232 || c == 8233)))

abbrev pub onto_first : Char → List String → List String
onto_first c [] = String.◌∷◌ c String.[] ∷ []
onto_first c (l ∷ ls) = String.◌∷◌ c l ∷ ls

-- `str.splitlines`; "\r\n" is one break.
unfoldable pub split_lines : String → List String
split_lines String.[] = []
split_lines (String.◌∷◌ c String.[]) = if is_break (code c) then "" ∷ [] else String.◌∷◌ c "" ∷ []
split_lines (String.◌∷◌ c (String.◌∷◌ d s)) =
    let after_two = split_lines s in
    let after_one = split_lines (String.◌∷◌ d s) in
    if code c == 13 && code d == 10
    then "" ∷ after_two
    else if is_break (code c)
    then "" ∷ after_one
    else onto_first c after_one

-- `_env_values` of the text of the file.
unfoldable pub file_values : String → Values
unfolding env_values split_lines
file_values content = env_values (split_lines content)

-- The text that `_update_env` puts in place of the file's.
unfoldable pub updated_text : Values → String → String
unfolding update_lines split_lines join_lines
updated_text changes content = join_lines (update_lines changes (split_lines content))
