-- ===== src/Prelude/Texts.antt =====
-- Texts: equality under the name `str_eq`, and Python's `str.strip`.
use Prim.Native.Char.{Char, code}
use Prim.Native.String.{String}
use mathlib.Core.Bool.{Bool, true, ◌&&◌, ◌||◌}
use mathlib.Core.Path.{◌≡◌, refl}
use mathlib.Core.Logic.{◌↔◌}
use text.Mathlib.Text.{◌==◌ as text_eq}
use text.Mathlib.TextEquality.{eq_iff}
use wolt.Prelude.Tests.{leb, ◌==◌, if◌then◌else◌}

abbrev pub str_eq : String → String → Bool
str_eq = text_eq

pub str_eq_iff : (s t : String) → (str_eq s t ≡ true) ↔ (s ≡ t)
str_eq_iff = eq_iff

abbrev pub is_empty : String → Bool
is_empty s = str_eq s ""

-- The characters for which Python's `str.isspace` holds.
is_space : Char → Bool
is_space ch =
    let c = code ch in
    (leb 9 c && leb c 13)
    || (leb 28 c && leb c 32)
    || c == 133
    || c == 160
    || c == 5760
    || (leb 8192 c && leb c 8202)
    || c == 8232
    || c == 8233
    || c == 8239
    || c == 8287
    || c == 12288

unfoldable pub lstrip : String → String
unfolding is_space
lstrip String.[] = String.[]
lstrip (String.◌∷◌ c s) = let rest = lstrip s in if is_space c then rest else String.◌∷◌ c s

rstrip : String → String
rstrip String.[] = String.[]
rstrip (String.◌∷◌ c s) =
    let rest = rstrip s in if is_space c && is_empty rest then String.[] else String.◌∷◌ c rest

unfoldable pub strip : String → String
unfolding lstrip rstrip is_space
strip s = rstrip (lstrip s)

strip_test : strip " \ta b\n " ≡ "a b"
unfolding strip
strip_test = refl
