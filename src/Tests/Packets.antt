-- ===== src/Tests/Packets.antt =====
-- Tests of app/parser.py.
use wolt.Prelude.{ℕ, ◌≡◌, ◌↔◌, refl, All, arith, List, [], ◌∷◌, ◌++◌}
use wolt.Packet.{
  header, ParsedMagicPacket, packet, wrong_length, built, mac_text, hex_digit, parse_magic_packet,
  build_magic_packet,
}
use wolt.Packet.Format.{IsByte}
use wolt.Packet.Roundtrip.{parse-build}

abbrev mac : List ℕ
mac = 0 ∷ 27 ∷ 33 ∷ 160 ∷ 255 ∷ 9 ∷ []

abbrev four : List ℕ
four = mac ++ mac ++ mac ++ mac

abbrev pub payload : List ℕ
payload = header ++ (four ++ four ++ four ++ four)

abbrev pub reading : ParsedMagicPacket
reading = record { mac_address = "00:1B:21:A0:FF:09"; packet_length = 102 }

built_payload : build_magic_packet mac ≡ built payload
unfolding build_magic_packet
built_payload = refl

mac_example : mac_text mac ≡ "00:1B:21:A0:FF:09"
unfolding mac_text hex_digit
mac_example = refl

pub parsed_payload : parse_magic_packet payload ≡ packet reading
unfolding parse_magic_packet mac_text hex_digit
parsed_payload = refl

refuses_other_length : parse_magic_packet (0 ∷ payload) ≡ wrong_length
unfolding parse_magic_packet
refuses_other_length = refl

parse-build_example : (parse_magic_packet payload ≡ packet reading) ↔ (
    (m : List ℕ) × (build_magic_packet m ≡ built payload)
    × (reading ≡ record { mac_address = mac_text m; packet_length = 102 }))
parse-build_example = parse-build payload reading

mac_bytes : All IsByte mac
mac_bytes = ground arith
