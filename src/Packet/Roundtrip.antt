-- ===== src/Packet/Roundtrip.antt =====
-- `parse_magic_packet` accepts exactly what `build_magic_packet` builds.
use wolt.Prelude.{
  ℕ, ◌≡◌, ◌↔◌, refl, sym, ◌∙◌, true, List, [], ◌∷◌, ◌++◌, arith, length, take, drop,
  take-append-drop, length-take, length-drop, ap₂,
}
use wolt.Packet.{
  ParsedMagicPacket, packet, built, bytes_eq, times, header, mac_text, parse_magic_packet,
  build_magic_packet,
}

bytes_eq→eq : (xs ys : List ℕ) → bytes_eq xs ys ≡ true → xs ≡ ys
unfolding bytes_eq
bytes_eq→eq [] [] h = refl
bytes_eq→eq [] (y ∷ ys) h = ground arith
bytes_eq→eq (x ∷ xs) [] h = ground arith
bytes_eq→eq (x ∷ xs) (y ∷ ys) h = ground (arith, bytes_eq→eq xs ys)

bytes_eq_refl : (xs : List ℕ) → bytes_eq xs xs ≡ true
unfolding bytes_eq
bytes_eq_refl [] = refl
bytes_eq_refl (x ∷ xs) = ground (arith, bytes_eq_refl xs)

-- What is read back from a packet of a six-byte MAC: its length, its header, its MAC and its body.
module _ (a b c d e f : ℕ) where
  abbrev mac : List ℕ
  mac = a ∷ b ∷ c ∷ d ∷ e ∷ f ∷ []

  parse-six :
      parse_magic_packet (header ++ times 16 mac)
      ≡ packet (record { mac_address = mac_text mac; packet_length = 102 })
  unfolding parse_magic_packet
  parse-six = ground (arith, bytes_eq_refl (times 16 mac))

six_bytes :
    (mac : List ℕ)
    → length mac ≡ 6
    → parse_magic_packet (header ++ times 16 mac)
      ≡ packet (record { mac_address = mac_text mac; packet_length = 102 })
six_bytes (a ∷ b ∷ c ∷ d ∷ e ∷ f ∷ []) h = parse-six a b c d e f
six_bytes [] h = absurd (omega arith)
six_bytes (a ∷ []) h = absurd (omega arith)
six_bytes (a ∷ b ∷ []) h = absurd (omega arith)
six_bytes (a ∷ b ∷ c ∷ []) h = absurd (omega arith)
six_bytes (a ∷ b ∷ c ∷ d ∷ []) h = absurd (omega arith)
six_bytes (a ∷ b ∷ c ∷ d ∷ e ∷ []) h = absurd (omega arith)
six_bytes (a ∷ b ∷ c ∷ d ∷ e ∷ f ∷ g ∷ r) h = absurd (omega arith)

-- What parses is the header followed by sixteen copies of the six bytes behind it.
pub parse_parts :
    (payload : List ℕ) (p : ParsedMagicPacket)
    → parse_magic_packet payload ≡ packet p
    → let mac = take 6 (drop 6 payload) in
      (length payload ≡ 102)
      × (take 6 payload ≡ header)
      × (drop 6 payload ≡ times 16 mac)
      × (p ≡ record { mac_address = mac_text mac; packet_length = 102 })
unfolding parse_magic_packet
parse_parts payload p h =
    let mac = take 6 (drop 6 payload) in
    (
      ground arith,
      ground (arith, bytes_eq→eq (take 6 payload) header),
      ground (arith, bytes_eq→eq (drop 6 payload) (times 16 mac)),
      ground arith,
    )

abbrev Reading : List ℕ → ParsedMagicPacket → Type 0
Reading payload p =
    (mac : List ℕ) × (build_magic_packet mac ≡ built payload)
    × (p ≡ record { mac_address = mac_text mac; packet_length = 102 })

parse-Reading :
    (payload : List ℕ) (p : ParsedMagicPacket)
    → parse_magic_packet payload ≡ packet p
    → Reading payload p
unfolding build_magic_packet
parse-Reading payload p h =
    let mac = take 6 (drop 6 payload) in
    let (len, head, body, reads) = parse_parts payload p h in
    let whole : header ++ times 16 mac ≡ payload =
      ap₂ ◌++◌ (sym head) (sym body) ∙ take-append-drop 6 payload in
    (mac, ground (arith, whole, length-take 6 (drop 6 payload), length-drop 6 payload), reads)

Reading-parse :
    (payload : List ℕ) (p : ParsedMagicPacket)
    → Reading payload p
    → parse_magic_packet payload ≡ packet p
unfolding build_magic_packet
Reading-parse payload p (mac, builds, reads) = ground (arith, six_bytes mac)

-- A payload parses, as `p`, exactly when it is what `build_magic_packet` builds from some MAC, and
-- then `p` holds the text of that MAC and the length 102.
pub parse-build :
    (payload : List ℕ) (p : ParsedMagicPacket)
    → (parse_magic_packet payload ≡ packet p) ↔ (
        (mac : List ℕ) × (build_magic_packet mac ≡ built payload)
        × (p ≡ record { mac_address = mac_text mac; packet_length = 102 }))
parse-build payload p = (parse-Reading payload p, Reading-parse payload p)
