-- ===== src/Engine/Handle/Wakes.antt =====
-- When a datagram makes a listener wake a host.
use wolt.Prelude.{
  String, ◌≡◌, ◌≢◌, ◌⊎◌, inl, inr, Bool-cases, refl, true, false, some, str_eq, arith,
}
use wolt.Db.{Db}
use wolt.Packet.{
  Parsed, ParsedMagicPacket, packet, wrong_length, wrong_header, mac_not_repeated,
  parse_magic_packet,
}
use wolt.RateLimit.{RateLimiter, allow}
use wolt.Engine.{RuntimeMapping, Host}
use wolt.Engine.Handle.{Datagram, handle, handle_packet, ignored}

pub Parsed-cases :
    (r : Parsed)
    → ((p : ParsedMagicPacket) × (r ≡ packet p))
      ⊎ ((r ≡ wrong_length) ⊎ ((r ≡ wrong_header) ⊎ (r ≡ mac_not_repeated)))
Parsed-cases (packet p) = inl (p, refl)
Parsed-cases wrong_length = inr (inl refl)
Parsed-cases wrong_header = inr (inr (inl refl))
Parsed-cases mac_not_repeated = inr (inr (inr refl))

module _ (host : Host) (m : RuntimeMapping) (d : Datagram) (limiter : RateLimiter) (db : Db) where
  handle_packet-woken :
      (mac_address mac : String)
      → (handle_packet host m d mac_address limiter db).woken ≡ some mac
      → (mac ≡ mac_address) × ((allow m.port mac_address d.monotonic limiter).0 ≡ true)
  unfolding handle_packet
  handle_packet-woken mac_address mac h = ground arith

  -- A driver is asked to wake a host only for a datagram from the allowed source address that is a
  -- magic packet, for the address in it, and only when the rate limiter grants that address.
  pub handle-woken :
      (mac : String)
      → (handle host m d limiter db).woken ≡ some mac
      → (str_eq d.source_ip m.allowed_source_ip ≡ true)
        × ((p : ParsedMagicPacket) × (parse_magic_packet d.payload ≡ packet p)
            × (mac ≡ p.mac_address)
            × ((allow m.port p.mac_address d.monotonic limiter).0 ≡ true))
  unfolding handle
  handle-woken mac h = elim (Bool-cases (str_eq d.source_ip m.allowed_source_ip)) [
    | inl same ↦ elim (Parsed-cases (parse_magic_packet d.payload)) [
      | inl (p, e) ↦
          let (own, granted) = handle_packet-woken p.mac_address mac (ground arith) in
          (same, (p, e, own, granted))
      | inr other ↦ absurd (elim other [
        | inl e ↦ ground arith
        | inr (inl e) ↦ ground arith
        | inr (inr e) ↦ ground arith
      ])
    ]
    | inr other ↦ absurd (ground arith)
  ]

  -- A datagram from another source address than the allowed one, or that is no magic packet, changes
  -- neither the limiter nor the database, wakes nothing and raises nothing.
  pub handle-ignored :
      (str_eq d.source_ip m.allowed_source_ip ≡ false)
        ⊎ ((p : ParsedMagicPacket) → parse_magic_packet d.payload ≢ packet p)
      → handle host m d limiter db ≡ ignored limiter db
  unfolding handle
  handle-ignored (inl other) = ground arith
  handle-ignored (inr no_packet) = elim (Parsed-cases (parse_magic_packet d.payload)) [
    | inl (p, e) ↦ absurd (no_packet p e)
    | inr (inl e) ↦ ground arith
    | inr (inr (inl e)) ↦ ground arith
    | inr (inr (inr e)) ↦ ground arith
  ]
