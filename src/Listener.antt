-- ===== src/Listener.antt =====
-- `UDPListener._handle` (app/listener.py), the older listener of one port: one datagram.
pub mod Commands
use wolt.Prelude.{
  ℕ, String, Bool, true, false, not, Option, none, some, List, str_eq, if◌then◌else◌,
}
use wolt.Errors.{Error, Result, ok, err, fortigate_error}
use wolt.Packet.{Parsed, packet, parse_magic_packet}
use wolt.RateLimit.{RateLimiter, allow}
use wolt.ListenerConfig.{InterfaceMapping}
use wolt.Fortigate.Client.{Device, Woken, execute_wol}

pub record UdpListener : Type 0 where
  pub port : ℕ
  pub mapping : InterfaceMapping
  pub allowed_ip : String

-- What the log says of a datagram; another exception than `FortiGateError` goes to the log of `run`.
pub data Outcome : Type 0 where
  source_not_allowed invalid_magic_packet rate_limited success : Outcome
  wol_failed : String → Outcome
  raised : Error → Outcome

-- The outcome, the limiter after it, and the command that was sent to the firewall, if one was.
pub record Handled : Type 0 where
  pub outcome : Outcome
  pub limiter : RateLimiter
  pub command : Option String

abbrev pub logged : Result Unit → Outcome
logged (ok _) = success
logged (err (fortigate_error reason)) = wol_failed reason
logged (err e) = raised e

abbrev pub wake_if : Device → UdpListener → String → Bool × RateLimiter → Handled
wake_if device l mac (false, limiter) = record {
  outcome = rate_limited;
  limiter = limiter;
  command = none;
}
wake_if device l mac (true, limiter) =
    let r = execute_wol device l.mapping.interface mac l.mapping.gateway_ip in
    record { outcome = logged r.0; limiter = limiter; command = r.1 }

abbrev pub handle_parsed : Device → UdpListener → ℕ → RateLimiter → Parsed → Handled
handle_parsed device l monotonic limiter (packet p) =
    wake_if device l p.mac_address (allow l.port p.mac_address monotonic limiter)
handle_parsed device l monotonic limiter _ = record {
  outcome = invalid_magic_packet;
  limiter = limiter;
  command = none;
}

-- `_handle`, for the reading of the clock that the limiter takes
unfoldable pub handle : Device → UdpListener → List ℕ → String → ℕ → RateLimiter → Handled
unfolding parse_magic_packet allow execute_wol
handle device l payload source_ip monotonic limiter =
    if str_eq source_ip l.allowed_ip
    then handle_parsed device l monotonic limiter (parse_magic_packet payload)
    else record { outcome = source_not_allowed; limiter = limiter; command = none }
