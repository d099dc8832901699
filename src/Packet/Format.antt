-- ===== src/Packet/Format.antt =====
-- The text of a MAC address determines its bytes.
use Prim.Native.Char.{Char, code}
use text.Mathlib.TextLemmas.{head-eq_of_cons-eq, tail-eq_of_cons-eq}
use wolt.Prelude.{
  ℕ, zero, suc, ◌-◌, ◌/◌, ◌%◌, ◌<◌, ◌≡◌, refl, sym, ap, ◌∙◌, List, [], ◌∷◌, arith, leb, ◌==◌,
  ==_iff, Bool-cases, inl, inr, if◌then◌else◌, length, All,
}
use wolt.Packet.{hex_digit, mac_text}

digit_value : Char → ℕ
digit_value c = let k = code c in if leb 65 k then k - 55 else k - 48

-- `digit_value` inverts `hex_digit` at every number under the bound.
ReadBack : ℕ → Type 0
ReadBack zero = Unit
ReadBack (suc bound) = ReadBack bound × (digit_value (hex_digit bound) ≡ bound)

sixteen_digits : ReadBack 16
unfolding ReadBack digit_value hex_digit
sixteen_digits = (
  (
    (
      (
        (
          (
            ((((((((((tt, refl), refl), refl), refl), refl), refl), refl), refl), refl), refl),
            refl,
          ),
          refl,
        ),
        refl,
      ),
      refl,
    ),
    refl,
  ),
  refl,
)

read_digit : (bound n : ℕ) → ReadBack bound → n < bound → digit_value (hex_digit n) ≡ n
unfolding ReadBack
read_digit zero n digits h = absurd (omega arith)
read_digit (suc bound) n digits h = elim (Bool-cases (n == bound)) [
  | inl last ↦ rw ((==_iff n bound).0 last) digits.1
  | inr earlier ↦ read_digit bound n digits.0 (ground arith)
]

digit_value-hex_digit : (n : ℕ) → n < 16 → digit_value (hex_digit n) ≡ n
digit_value-hex_digit n h = read_digit 16 n sixteen_digits h

hex_digit_injective : (m n : ℕ) → m < 16 → n < 16 → hex_digit m ≡ hex_digit n → m ≡ n
hex_digit_injective m n hm hn e =
    sym (digit_value-hex_digit m hm) ∙ ap digit_value e ∙ digit_value-hex_digit n hn

abbrev pub IsByte : ℕ → Type 0
IsByte b = b < 256

byte_injective :
    (b c : ℕ)
    → IsByte b
    → IsByte c
    → hex_digit (b / 16) ≡ hex_digit (c / 16)
    → hex_digit (b % 16) ≡ hex_digit (c % 16)
    → b ≡ c
byte_injective b c hb hc hi lo = omega (
  arith,
  hex_digit_injective (b / 16) (c / 16) (omega arith) (omega arith) hi,
  hex_digit_injective (b % 16) (c % 16) (omega arith) (omega arith) lo,
)

-- Two lists of bytes of the same length whose texts, as a parsed packet shows them, are equal are
-- equal.
pub mac_text_injective :
    (xs ys : List ℕ)
    → All IsByte xs
    → All IsByte ys
    → length xs ≡ length ys
    → mac_text xs ≡ mac_text ys
    → xs ≡ ys
unfolding mac_text
mac_text_injective [] [] hx hy n e = refl
mac_text_injective [] (y ∷ ys) hx hy n e = absurd (omega arith)
mac_text_injective (x ∷ xs) [] hx hy n e = absurd (omega arith)
mac_text_injective (x ∷ []) (y ∷ []) hx hy n e =
    ap (λ b. b ∷ [])
      (byte_injective x y hx.0 hy.0 (head-eq_of_cons-eq e)
        (head-eq_of_cons-eq (tail-eq_of_cons-eq e)))
mac_text_injective (x ∷ []) (y ∷ y' ∷ ys) hx hy n e = absurd (omega arith)
mac_text_injective (x ∷ x' ∷ xs) (y ∷ []) hx hy n e = absurd (omega arith)
mac_text_injective (x ∷ x' ∷ xs) (y ∷ y' ∷ ys) hx hy n e = cc (
  byte_injective x y hx.0 hy.0 (head-eq_of_cons-eq e) (head-eq_of_cons-eq (tail-eq_of_cons-eq e)),
  mac_text_injective (x' ∷ xs) (y' ∷ ys) hx.1 hy.1 (omega arith)
      (tail-eq_of_cons-eq (tail-eq_of_cons-eq (tail-eq_of_cons-eq e))),
)
