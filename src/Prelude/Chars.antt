-- ===== src/Prelude/Chars.antt =====
-- Tests on the characters of texts, and what the code does with texts beside comparing them.
use Prim.Native.Nat.{ℕ, zero, suc, ◌/◌, ◌%◌}
use Prim.Native.Char.{Char, code}
use Prim.Native.String.{String}
use mathlib.Core.Bool.{Bool, true, false, not, ◌&&◌, ◌||◌}
use mathlib.Core.List.{List, [], ◌∷◌}
use mathlib.Core.Path.{◌≡◌, refl}
use native.Mathlib.Omega.{arith}
use wolt.Prelude.Tests.{leb, ◌==◌, if◌then◌else◌}

-- Every character, by its code point.
abbrev pub all_chars : (ℕ → Bool) → String → Bool
all_chars p String.[] = true
all_chars p (String.◌∷◌ c s) = p (code c) && all_chars p s

abbrev pub is_digit : ℕ → Bool
is_digit c = leb 48 c && leb c 57

abbrev pub is_upper : ℕ → Bool
is_upper c = leb 65 c && leb c 90

abbrev pub is_lower : ℕ → Bool
is_lower c = leb 97 c && leb c 122

-- `[A-Za-z0-9]`
abbrev pub is_alnum : ℕ → Bool
is_alnum c = is_upper c || (is_lower c || is_digit c)

-- `len`
abbrev pub text_length : String → ℕ
text_length String.[] = 0
text_length (String.◌∷◌ c s) = suc (text_length s)

-- `+`
abbrev pub append : String → String → String
append String.[] t = t
append (String.◌∷◌ c s) t = String.◌∷◌ c (append s t)

-- The texts of an f-string, one after another.
abbrev pub concat : List String → String
concat [] = ""
concat (s ∷ []) = s
concat (s ∷ rest) = append s (concat rest)

-- `text.startswith(start)`
unfoldable pub has_prefix : String → String → Bool
has_prefix String.[] s = true
has_prefix (String.◌∷◌ a p) String.[] = false
has_prefix (String.◌∷◌ a p) (String.◌∷◌ c s) = code a == code c && has_prefix p s

-- `part in text`
unfoldable pub has_part : String → String → Bool
unfolding has_prefix
has_part part String.[] = has_prefix part ""
has_part part (String.◌∷◌ c s) = has_prefix part (String.◌∷◌ c s) || has_part part s

-- A character goes in front of the first word.
abbrev pub longer : Char → List String → List String
longer c [] = String.◌∷◌ c "" ∷ []
longer c (w ∷ ws) = String.◌∷◌ c w ∷ ws

-- The words between the spaces.
unfoldable pub split_spaces : String → List String
split_spaces String.[] = "" ∷ []
split_spaces (String.◌∷◌ c s) =
    let rest = split_spaces s in if code c == 32 then "" ∷ rest else longer c rest

-- A word without a space is split off at the space after it.
pub split_spaces_word :
    (w s : String)
    → all_chars (λ c. not (c == 32)) w ≡ true
    → split_spaces (append w (String.◌∷◌ " " s)) ≡ w ∷ split_spaces s
unfolding split_spaces
split_spaces_word String.[] s h = refl
split_spaces_word (String.◌∷◌ c w) s h = ground (arith, split_spaces_word w s)

pub split_spaces_last :
    (w : String) → all_chars (λ c. not (c == 32)) w ≡ true → split_spaces w ≡ w ∷ []
unfolding split_spaces
split_spaces_last String.[] h = refl
split_spaces_last (String.◌∷◌ c w) h = ground (arith, split_spaces_last w)

-- What a test implies of each character.
pub all_chars_mono :
    (p q : ℕ → Bool) (s : String)
    → ((c : ℕ) → p c ≡ true → q c ≡ true)
    → all_chars p s ≡ true
    → all_chars q s ≡ true
all_chars_mono p q String.[] h k = refl
all_chars_mono p q (String.◌∷◌ c s) h k = ground (arith, h (code c), all_chars_mono p q s h)

-- The decimal digit of a number below 10.
abbrev pub digit_text : ℕ → String
digit_text n =
    if n == 0
    then "0"
    else if n == 1
    then "1"
    else if n == 2
    then "2"
    else if n == 3
    then "3"
    else if n == 4
    then "4"
    else if n == 5
    then "5"
    else if n == 6
    then "6"
    else if n == 7
    then "7"
    else if n == 8
    then "8"
    else "9"

-- The digits of the number before those of the text; a number has no more digits than itself + 1.
unfoldable pub decimal_onto : ℕ → ℕ → String → String
decimal_onto zero n s = s
decimal_onto (suc fuel) n s =
    let more = decimal_onto fuel (n / 10) (append (digit_text (n % 10)) s) in
    if leb n 9 then append (digit_text n) s else more

-- `str` of a number.
unfoldable pub decimal : ℕ → String
unfolding decimal_onto
decimal n = decimal_onto (suc n) n ""

decimal_test : decimal 40099 ≡ "40099"
unfolding decimal
decimal_test = refl
