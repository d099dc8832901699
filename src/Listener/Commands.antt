-- ===== src/Listener/Commands.antt =====
-- When a datagram makes the older listener send a command to the firewall.
use wolt.Prelude.{
  ℕ, String, ◌≡◌, inl, inr, Bool, Bool-cases, refl, true, false, Option-cases, some, List, str_eq,
  arith,
}
use wolt.Errors.{Result, ok, Result-cases}
use wolt.Packet.{ParsedMagicPacket, packet, parse_magic_packet}
use wolt.RateLimit.{RateLimiter, allow}
use wolt.Engine.Handle.Wakes.{Parsed-cases}
use wolt.Fortigate.{build_wol_command}
use wolt.Fortigate.Client.{Device, execute_wol, run_command}
use wolt.Listener.{UdpListener, wake_if, handle_parsed, handle}

module _ (device : Device) where
  run_command-sent :
      (r : Result String) (command : String)
      → (run_command device r).1 ≡ some command
      → r ≡ ok command
  run_command-sent r command h = elim (Result-cases r) [
    | inl (sent, e) ↦ elim (Option-cases device.connect) [
      | inl c ↦ ground arith
      | inr (f, c) ↦ absurd (ground arith)
    ]
    | inr (x, e) ↦ absurd (ground arith)
  ]

  module _ (l : UdpListener) (monotonic : ℕ) (limiter : RateLimiter) where
    wake_if-sent :
        (mac command : String) (granted : Bool × RateLimiter)
        → (wake_if device l mac granted).command ≡ some command
        → (granted.0 ≡ true)
          × (build_wol_command device.ip_address l.mapping.interface mac l.mapping.gateway_ip
              ≡ ok command)
    unfolding execute_wol
    wake_if-sent mac command (false, after) h = absurd (ground arith)
    wake_if-sent mac command (true, after) h = (refl, run_command-sent _ command h)

    -- The older listener sends a command to the firewall only for a datagram from the allowed source
    -- address that is a magic packet, only when the rate limiter grants the address in it, and the
    -- command is the one built for that address and the interface and gateway of the mapping.
    pub handle-command :
        (payload : List ℕ) (source_ip command : String)
        → (handle device l payload source_ip monotonic limiter).command ≡ some command
        → (str_eq source_ip l.allowed_ip ≡ true)
          × ((p : ParsedMagicPacket) × (parse_magic_packet payload ≡ packet p)
              × ((allow l.port p.mac_address monotonic limiter).0 ≡ true)
              × (build_wol_command device.ip_address l.mapping.interface p.mac_address
                    l.mapping.gateway_ip
                  ≡ ok command))
    unfolding handle
    handle-command payload source_ip command h = elim (Bool-cases (str_eq source_ip l.allowed_ip)) [
      | inl same ↦ elim (Parsed-cases (parse_magic_packet payload)) [
        | inl (p, e) ↦
            let sent : (handle_parsed device l monotonic limiter (packet p)).command
                ≡ some command =
              ground arith in
            let (granted, built) = wake_if-sent p.mac_address command _ sent in
            (same, (p, e, granted, built))
        | inr (inl e) ↦ absurd (ground arith)
        | inr (inr (inl e)) ↦ absurd (ground arith)
        | inr (inr (inr e)) ↦ absurd (ground arith)
      ]
      | inr other ↦ absurd (ground arith)
    ]
