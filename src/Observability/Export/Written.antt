-- ===== src/Observability/Export/Written.antt =====
-- What a reader of comma-separated values finds in the file that
-- app/application/observability_service.py exports.
use wolt.Prelude.{
  ℕ, String, true, false, List, [], ◌∷◌, ◌≡◌, refl, ap, ◌∙◌, ◌==◌, All, take, map, append, arith,
  Bool-cases, inl, inr, has_prefix,
}
use Prim.Native.Char.{Char, code}
use wolt.Db.{Db}
use wolt.Observability.Events.{Sql, WakeFilters, WakeView, wake_rows}
use wolt.Observability.Export.{
  is_formula, csv_cell, needs_quotes, double_quotes, write_field, write_row, write_rows, header_row,
  event_row, wake_events_csv,
}
use wolt.Observability.Export.Reader.{
  fresh, field, bare, quoted, closing, grow, push, read, read_csv,
}

-- The characters of a text go in front, the first one last.
grow_all : String → List (List String) → List (List String)
grow_all String.[] rows = rows
grow_all (String.◌∷◌ c s) rows = grow c (grow_all s rows)

grow_all-first :
    (s : String) (r : List String) (rows : List (List String))
    → grow_all s (("" ∷ r) ∷ rows) ≡ (s ∷ r) ∷ rows
unfolding grow_all
grow_all-first String.[] r rows = refl
grow_all-first (String.◌∷◌ c s) r rows = rw (grow_all-first s r rows) refl

read_twice :
    (c : Char) (s : String)
    → (code c == 34) ≡ true
    → read quoted (String.◌∷◌ c (String.◌∷◌ c s)) ≡ grow c (read quoted s)
unfolding read
read_twice c s h = ground arith

read_once :
    (c : Char) (s : String)
    → (code c == 34) ≡ false
    → read quoted (String.◌∷◌ c s) ≡ grow c (read quoted s)
unfolding read
read_once c s h = ground arith

read-double_quotes :
    (s rest : String)
    → read quoted (append (double_quotes s) (append "\"" rest)) ≡ grow_all s (read closing rest)
unfolding read double_quotes grow_all
read-double_quotes String.[] rest = refl
read-double_quotes (String.◌∷◌ c s) rest = elim (Bool-cases (code c == 34)) [
  | inl same ↦ rw same (
      read_twice c (append (double_quotes s) (append "\"" rest)) same
      ∙ ap (grow c) (read-double_quotes s rest))
  | inr differs ↦ rw differs (
      read_once c (append (double_quotes s) (append "\"" rest)) differs
      ∙ ap (grow c) (read-double_quotes s rest))
]

read-bare :
    (s rest : String)
    → needs_quotes s ≡ false
    → read bare (append s rest) ≡ grow_all s (read bare rest)
unfolding read needs_quotes grow_all
read-bare String.[] rest h = refl
read-bare (String.◌∷◌ c s) rest h = ground (arith, read-bare s rest)

append_assoc : (s t u : String) → append (append s t) u ≡ append s (append t u)
append_assoc String.[] t u = refl
append_assoc (String.◌∷◌ c s) t u = ap (String.◌∷◌ c) (append_assoc s t u)

-- A text at which every field ends, and the rows that are read from there.
record Ends (rest : String) (r : List String) (rows : List (List String)) : Type 0 where
  in_bare : read bare rest ≡ ("" ∷ r) ∷ rows
  in_closing : read closing rest ≡ ("" ∷ r) ∷ rows
  in_field : read field rest ≡ ("" ∷ r) ∷ rows

read-plain :
    (s rest : String) (r : List String) (rows : List (List String))
    → needs_quotes s ≡ false
    → Ends rest r rows
    → read field (append s rest) ≡ (s ∷ r) ∷ rows
unfolding read needs_quotes
read-plain String.[] rest r rows h e = e.in_field
read-plain (String.◌∷◌ c s) rest r rows h e =
    let read_on : read bare (append s rest) ≡ (s ∷ r) ∷ rows =
      read-bare s rest (ground arith) ∙ ap (grow_all s) e.in_bare ∙ grow_all-first s r rows in
    ground (arith, read_on)

read-write_field :
    (s rest : String) (r : List String) (rows : List (List String))
    → Ends rest r rows
    → read field (append (write_field s) rest) ≡ (s ∷ r) ∷ rows
unfolding write_field read
read-write_field s rest r rows e = elim (Bool-cases (needs_quotes s)) [
  | inl special ↦ rw special (
      ap (read quoted) (append_assoc (double_quotes s) "\"" rest)
      ∙ read-double_quotes s rest
      ∙ ap (grow_all s) e.in_closing
      ∙ grow_all-first s r rows)
  | inr plain ↦ rw plain (read-plain s rest r rows plain e)
]

Ends-comma :
    (t f : String) (fs : List String) (rows : List (List String))
    → read field t ≡ (f ∷ fs) ∷ rows
    → Ends (append "," t) (f ∷ fs) rows
unfolding read
Ends-comma t f fs rows h = record {
  in_bare = ap (push "") h;
  in_closing = ap (push "") h;
  in_field = ap (push "") h;
}

Ends-line : (t : String) → Ends (append "\r\n" t) [] (read fresh t)
unfolding read
Ends-line t = record { in_bare = refl; in_closing = refl; in_field = refl }

read-write_row :
    (f : String) (fs : List String) (t : String)
    → read field (append (write_row (f ∷ fs)) t) ≡ (f ∷ fs) ∷ read fresh t
unfolding write_row
read-write_row f [] t =
    ap (read field) (append_assoc (write_field f) "\r\n" t)
    ∙ read-write_field f (append "\r\n" t) [] (read fresh t) (Ends-line t)
read-write_row f (g ∷ fs) t =
    ap (read field) (append_assoc (write_field f) (append "," (write_row (g ∷ fs))) t)
    ∙ read-write_field f (append "," (append (write_row (g ∷ fs)) t)) (g ∷ fs) (read fresh t)
        (Ends-comma (append (write_row (g ∷ fs)) t) g fs (read fresh t) (read-write_row g fs t))

fresh_field :
    (w : String) (c : Char) (s : String)
    → read fresh (append w (String.◌∷◌ c s)) ≡ read field (append w (String.◌∷◌ c s))
unfolding read
fresh_field String.[] c s = refl
fresh_field (String.◌∷◌ b w) c s = refl

-- A row starts with a character, for it ends with a line.
read_fresh_row :
    (f : String) (fs : List String) (t : String)
    → read fresh (append (write_row (f ∷ fs)) t) ≡ read field (append (write_row (f ∷ fs)) t)
unfolding write_row
read_fresh_row f [] t = rw (append_assoc (write_field f) "\r\n" t) (fresh_field (write_field f) _ _)
read_fresh_row f (g ∷ fs) t =
    rw (append_assoc (write_field f) (append "," (write_row (g ∷ fs))) t)
      (fresh_field (write_field f) _ _)

-- A row with a field.
abbrev pub HasField : List String → Type 0
HasField [] = ⊥
HasField (f ∷ fs) = Unit

read-write_rows :
    (rows : List (List String)) → All HasField rows → read fresh (write_rows rows) ≡ rows
unfolding write_rows read
read-write_rows [] h = refl
read-write_rows ([] ∷ rows) h = absurd h.0
read-write_rows ((f ∷ fs) ∷ rows) h =
    read_fresh_row f fs (write_rows rows)
    ∙ read-write_row f fs (write_rows rows)
    ∙ ap (λ rest. (f ∷ fs) ∷ rest) (read-write_rows rows h.1)

rows-HasField :
    (sql : Sql) (isoformat : ℕ → String) (vs : List WakeView)
    → All HasField (map (event_row sql isoformat) vs)
unfolding event_row
rows-HasField sql isoformat [] = tt
rows-HasField sql isoformat (v ∷ vs) = (tt, rows-HasField sql isoformat vs)

csv_cell-safe : (value : String) → is_formula (csv_cell value) ≡ false
unfolding csv_cell is_formula has_prefix
csv_cell-safe value = elim (Bool-cases (is_formula value)) [
  | inl formula ↦ rw formula (quoted_safe value)
  | inr plain ↦ rw plain plain
]
  where
    quoted_safe : (value : String) → is_formula (append "'" value) ≡ false
    quoted_safe value = refl

-- The cells that hold a result code, the name of a mapping and the name of a device do not begin
-- as a formula of a spreadsheet does.
abbrev pub IsHarmless : List String → Type 0
IsHarmless (time ∷ result ∷ mac ∷ mapping ∷ device ∷ rest) =
    (is_formula result ≡ false) × (is_formula mapping ≡ false) × (is_formula device ≡ false)
IsHarmless _ = ⊥

rows-IsHarmless :
    (sql : Sql) (isoformat : ℕ → String) (vs : List WakeView)
    → All IsHarmless (map (event_row sql isoformat) vs)
unfolding event_row
rows-IsHarmless sql isoformat [] = tt
rows-IsHarmless sql isoformat (v ∷ vs) = (
  (csv_cell-safe v.event.result_code, csv_cell-safe v.mapping_name, csv_cell-safe v.device_name),
  rows-IsHarmless sql isoformat vs,
)

-- Whatever the names of mappings and devices hold (commas, quotes and line ends too), a reader of
-- comma-separated values reads the exported file as the header and one row for each of the first
-- 10,000 rows of the query, with the cells that were written, and in no row does the cell with the
-- result, the mapping or the device begin with a character that starts a formula.
pub read_csv-wake_events_csv :
    (sql : Sql) (isoformat : ℕ → String) (f : WakeFilters) (db : Db)
    → (read_csv (wake_events_csv sql isoformat f db)
        ≡ header_row ∷ map (event_row sql isoformat) (take 10000 (wake_rows sql f db)))
      × All IsHarmless (map (event_row sql isoformat) (take 10000 (wake_rows sql f db)))
unfolding read_csv wake_events_csv
read_csv-wake_events_csv sql isoformat f db =
    let rows = take 10000 (wake_rows sql f db) in
    (
      read-write_rows (header_row ∷ map (event_row sql isoformat) rows)
          (tt, rows-HasField sql isoformat rows),
      rows-IsHarmless sql isoformat rows,
    )
