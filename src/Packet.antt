-- ===== src/Packet.antt =====
-- Wake-on-LAN magic packets (app/parser.py). A payload is the list of its bytes.
pub mod Format
pub mod Roundtrip
use wolt.Prelude.{
  ℕ, zero, suc, String, Bool, true, List, [], ◌∷◌, ◌++◌, ◌&&◌, ◌==◌, if◌then◌else◌, length, take,
  drop, replicate, ◌/◌, ◌%◌, false,
}
use Prim.Native.Char.{Char}
use Prim.Native.String.{char_at}

pub record ParsedMagicPacket : Type 0 where
  pub mac_address : String
  pub packet_length : ℕ

-- `wrong_length`, `wrong_header` and `mac_not_repeated` are the three `InvalidMagicPacketError`s.
pub data Parsed : Type 0 where
  packet : ParsedMagicPacket → Parsed
  wrong_length wrong_header mac_not_repeated : Parsed

pub data Built : Type 0 where
  built : List ℕ → Built
  wrong_mac_length : Built

-- `==` on `bytes`.
unfoldable pub bytes_eq : List ℕ → List ℕ → Bool
bytes_eq [] [] = true
bytes_eq (x ∷ xs) (y ∷ ys) = x == y && bytes_eq xs ys
bytes_eq _ _ = false

-- `bytes * n`
unfoldable pub times : ℕ → List ℕ → List ℕ
times zero xs = []
times (suc n) xs = xs ++ times n xs

abbrev pub header : List ℕ
header = replicate 6 255

-- A digit of `f"{byte:02X}"`.
unfoldable pub hex_digit : ℕ → Char
hex_digit n = char_at "0123456789ABCDEF" n

-- `":".join(f"{byte:02X}" for byte in mac)`
unfoldable pub mac_text : List ℕ → String
mac_text [] = ""
mac_text (b ∷ []) = String.◌∷◌ (hex_digit (b / 16)) (String.◌∷◌ (hex_digit (b % 16)) String.[])
mac_text (b ∷ c ∷ rest) =
    String.◌∷◌ (hex_digit (b / 16))
      (String.◌∷◌ (hex_digit (b % 16)) (String.◌∷◌ ":" (mac_text (c ∷ rest))))

unfoldable pub parse_magic_packet : List ℕ → Parsed
unfolding bytes_eq times
parse_magic_packet payload =
    let mac = take 6 (drop 6 payload) in
    if length payload == 102
    then if bytes_eq (take 6 payload) header
      then if bytes_eq (drop 6 payload) (times 16 mac)
        then packet (record { mac_address = mac_text mac; packet_length = length payload })
        else mac_not_repeated
      else wrong_header
    else wrong_length

unfoldable pub build_magic_packet : List ℕ → Built
unfolding times
build_magic_packet mac =
    if length mac == 6 then built (header ++ times 16 mac) else wrong_mac_length
