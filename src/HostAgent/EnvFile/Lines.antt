-- ===== src/HostAgent/EnvFile/Lines.antt =====
-- The lines of a text that is the lines of another file, joined.
use Prim.Native.Char.{Char, code}
use wolt.Prelude.{String, ◌≡◌, refl, true, not, List, [], ◌∷◌, arith, All, all_chars, append}
use wolt.HostAgent.EnvFile.{is_break, onto_first, split_lines, join_lines}

-- The line holds no character that ends a line.
abbrev pub Unbroken : String → Type 0
Unbroken line = all_chars (λ c. not (is_break c)) line ≡ true

split_lines-break :
    (line rest : String)
    → Unbroken line
    → split_lines (append line (String.◌∷◌ "\n" rest)) ≡ line ∷ split_lines rest
unfolding split_lines
split_lines-break String.[] String.[] h = refl
split_lines-break String.[] (String.◌∷◌ d rest) h = refl
split_lines-break (String.◌∷◌ c String.[]) rest h = ground (arith, split_lines-break String.[] rest)
split_lines-break (String.◌∷◌ c (String.◌∷◌ d s)) rest h =
    ground (arith, split_lines-break (String.◌∷◌ d s) rest)

pub split_lines-join_lines :
    (l : String) (lines : List String)
    → Unbroken l
    → All Unbroken lines
    → split_lines (join_lines (l ∷ lines)) ≡ l ∷ lines
unfolding join_lines split_lines
split_lines-join_lines l [] h r = split_lines-break l String.[] h
split_lines-join_lines l (m ∷ lines) h (r, rs) =
    ground
      (arith, split_lines-break l (join_lines (m ∷ lines)) h, split_lines-join_lines m lines r rs)

onto_first-Unbroken :
    (c : Char) (lines : List String)
    → not (is_break (code c)) ≡ true
    → All Unbroken lines
    → All Unbroken (onto_first c lines)
onto_first-Unbroken c [] h r = ground arith
onto_first-Unbroken c (l ∷ lines) h (r, rs) = ground arith

pub split_lines-Unbroken : (s : String) → All Unbroken (split_lines s)
unfolding split_lines
split_lines-Unbroken String.[] = tt
split_lines-Unbroken (String.◌∷◌ c String.[]) = ground arith
split_lines-Unbroken (String.◌∷◌ c (String.◌∷◌ d s)) = ground (
  arith,
  split_lines-Unbroken s,
  split_lines-Unbroken (String.◌∷◌ d s),
  onto_first-Unbroken c (split_lines (String.◌∷◌ d s)),
)
