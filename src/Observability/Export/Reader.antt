-- ===== src/Observability/Export/Reader.antt =====
-- A reader of comma-separated values, for the file that app/application/observability_service.py
-- exports: fields between commas, a field in quotes may hold any character, and a quote in it is
-- written twice.
use wolt.Prelude.{String, List, [], ◌∷◌, ◌≡◌, refl, ℕ, ◌==◌, if◌then◌else◌}
use Prim.Native.Char.{Char, code}

pub data Mark : Type 0 where
  quote comma cr lf other : Mark

abbrev pub mark : ℕ → Mark
mark c =
    if c == 34
    then quote
    else if c == 44
    then comma
    else if c == 13
    then cr
    else if c == 10
    then lf
    else other

-- Where the reader is: at the start of a row or of a field, in a field without or with quotes, after
-- a quote in a field with quotes, or after a carriage return.
pub data Mode : Type 0 where
  fresh field bare quoted closing ended : Mode

-- The character goes in front of the first field of the first row.
abbrev pub grow : Char → List (List String) → List (List String)
grow c [] = (String.◌∷◌ c "" ∷ []) ∷ []
grow c ([] ∷ rows) = (String.◌∷◌ c "" ∷ []) ∷ rows
grow c ((f ∷ fs) ∷ rows) = (String.◌∷◌ c f ∷ fs) ∷ rows

-- A field goes in front of the first row.
abbrev pub push : String → List (List String) → List (List String)
push f [] = (f ∷ []) ∷ []
push f (r ∷ rows) = (f ∷ r) ∷ rows

unfoldable pub read : Mode → String → List (List String)
read fresh String.[] = []
read ended String.[] = []
read field String.[] = ("" ∷ []) ∷ []
read bare String.[] = ("" ∷ []) ∷ []
read quoted String.[] = ("" ∷ []) ∷ []
read closing String.[] = ("" ∷ []) ∷ []
read quoted (String.◌∷◌ c s) = elim (mark (code c)) [
  | quote ↦ read closing s
  | _ ↦ grow c (read quoted s)
]
read closing (String.◌∷◌ c s) = elim (mark (code c)) [
  | quote ↦ grow c (read quoted s)
  | comma ↦ push "" (read field s)
  | cr ↦ ("" ∷ []) ∷ read ended s
  | lf ↦ ("" ∷ []) ∷ read fresh s
  | other ↦ grow c (read bare s)
]
read bare (String.◌∷◌ c s) = elim (mark (code c)) [
  | comma ↦ push "" (read field s)
  | cr ↦ ("" ∷ []) ∷ read ended s
  | lf ↦ ("" ∷ []) ∷ read fresh s
  | _ ↦ grow c (read bare s)
]
read field (String.◌∷◌ c s) = elim (mark (code c)) [
  | quote ↦ read quoted s
  | comma ↦ push "" (read field s)
  | cr ↦ ("" ∷ []) ∷ read ended s
  | lf ↦ ("" ∷ []) ∷ read fresh s
  | other ↦ grow c (read bare s)
]
read fresh (String.◌∷◌ c s) = elim (mark (code c)) [
  | quote ↦ read quoted s
  | comma ↦ push "" (read field s)
  | cr ↦ ("" ∷ []) ∷ read ended s
  | lf ↦ ("" ∷ []) ∷ read fresh s
  | other ↦ grow c (read bare s)
]
read ended (String.◌∷◌ c s) = elim (mark (code c)) [
  | quote ↦ read quoted s
  | comma ↦ push "" (read field s)
  | cr ↦ ("" ∷ []) ∷ read ended s
  | lf ↦ read fresh s
  | other ↦ grow c (read bare s)
]

unfoldable pub read_csv : String → List (List String)
unfolding read
read_csv = read fresh

read_test :
    read_csv "a,\"b\"\"\r\n,\",c\r\n,\r\n" ≡ ("a" ∷ "b\"\r\n," ∷ "c" ∷ []) ∷ ("" ∷ "" ∷ []) ∷ []
unfolding read_csv
read_test = refl
