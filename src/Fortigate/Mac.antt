-- ===== src/Fortigate/Mac.antt =====
-- The address that the parser writes is one that `build_wol_command` takes.
use Prim.Native.Char.{code}
use wolt.Prelude.{
  ℕ, zero, suc, ◌/◌, ◌%◌, ◌<◌, ◌≡◌, refl, inl, inr, Bool-cases, true, List, [], ◌∷◌, arith, ◌==◌,
  ==_iff, length, All,
}
use wolt.Packet.{hex_digit, mac_text}
use wolt.Packet.Format.{IsByte}
use wolt.Fortigate.{is_hex_upper, is_mac_of}

UpperBelow : ℕ → Type 0
UpperBelow zero = Unit
UpperBelow (suc n) = UpperBelow n × (is_hex_upper (code (hex_digit n)) ≡ true)

sixteen_upper : UpperBelow 16
unfolding UpperBelow hex_digit
sixteen_upper = (
  (
    (
      (
        (
          (
            ((((((((((tt, refl), refl), refl), refl), refl), refl), refl), refl), refl), refl),
            refl,
          ),
          refl,
        ),
        refl,
      ),
      refl,
    ),
    refl,
  ),
  refl,
)

upper_at : (bound n : ℕ) → UpperBelow bound → n < bound → is_hex_upper (code (hex_digit n)) ≡ true
unfolding UpperBelow
upper_at zero n u h = absurd (omega arith)
upper_at (suc bound) n u h = elim (Bool-cases (n == bound)) [
  | inl last ↦ rw ((==_iff n bound).0 last) u.1
  | inr earlier ↦ upper_at bound n u.0 (ground arith)
]

pub is_mac-mac_text :
    (n : ℕ) (xs : List ℕ) → length xs ≡ suc n → All IsByte xs → is_mac_of n (mac_text xs) ≡ true
unfolding is_mac_of mac_text
is_mac-mac_text n [] l h = absurd (omega arith)
is_mac-mac_text zero (x ∷ []) l h =
    ground (arith, upper_at 16 (x / 16) sixteen_upper, upper_at 16 (x % 16) sixteen_upper)
is_mac-mac_text (suc n) (x ∷ []) l h = absurd (omega arith)
is_mac-mac_text zero (x ∷ y ∷ xs) l h = absurd (omega arith)
is_mac-mac_text (suc n) (x ∷ y ∷ xs) l h = ground (
  arith,
  upper_at 16 (x / 16) sixteen_upper,
  upper_at 16 (x % 16) sixteen_upper,
  is_mac-mac_text n (y ∷ xs),
)
