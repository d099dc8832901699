-- ===== src/Tests/Runs.antt =====
-- Tests of the engine runtime and of the retention.
use wolt.Prelude.{
  ℕ, String, ◌≡◌, refl, true, false, not, none, some, [], ◌∷◌, ◌==◌, any, select, map, count,
  str_eq,
}
use wolt.Errors.{ok}
use wolt.Db.Models.{ListenerMapping, Observed, Status}
use wolt.Operations.Devices.{runtime_material}
use wolt.Packet.{ParsedMagicPacket, packet, parse_magic_packet, mac_text, hex_digit}
use wolt.RateLimit.{RateLimiter, new_limiter, allow}
use wolt.Engine.{
  RuntimeMapping, World, runtime_mapping, is_served, start, try_start, resume, observed_after,
  error_after,
}
use wolt.Engine.Resume.{can_start, resume_lem}
use wolt.Engine.Handle.{Datagram, handle}
use wolt.Engine.Handle.Wakes.{handle-woken}
use wolt.Samples.{db, device, host, mapping}
use wolt.Tests.Packets.{payload}

abbrev failures_text : ℕ → String
failures_text _ = "listener_failures"

abbrev world : World
world = record { db = db; runtime = record { listeners = []; limiter = new_limiter 1 } }

abbrev resumed : World
resumed = (resume host failures_text world).1

engine_resumed : resume host failures_text world ≡ (ok (Observed.active, none), resumed)
unfolding resume start try_start runtime_material is_served
engine_resumed = refl

resume_lem_example :
    let served = select (is_served db.devices) db.listeners in
    let failures = count (λ m. not (can_start host db m)) served in
    (resumed.runtime.listeners ≡ map runtime_mapping (select (can_start host db) served))
    × (Observed.active ≡ observed_after failures)
    × (none ≡ error_after failures_text failures)
resume_lem_example = resume_lem host failures_text world resumed Observed.active none engine_resumed

-- The mapping is active, and then its device is disabled.
abbrev disabled : World
disabled = record world {
  db = record db {
    devices = record device { enabled = false } ∷ [];
    listeners = record mapping { status = Status.active } ∷ [];
  };
}

not_served :
    any
      (λ (m : ListenerMapping). m.id == 7)
      (select (is_served disabled.db.devices) disabled.db.listeners)
    ≡ false
unfolding is_served
not_served = refl

abbrev datagram : Datagram
datagram = record {
  payload = payload;
  source_ip = "10.0.0.2";
  source_port = 9;
  monotonic = 100;
  duration_ms = 12;
  event_id = 72;
  correlation_id = 73;
}

abbrev limiter : RateLimiter
limiter = record { interval = 5; last_allowed = [] }

abbrev desk : RuntimeMapping
desk = runtime_mapping mapping

desk_woken : (handle host desk datagram limiter db).woken ≡ some "00:1B:21:A0:FF:09"
unfolding handle parse_magic_packet allow runtime_material mac_text hex_digit
desk_woken = refl

handle-woken_example :
    (str_eq "10.0.0.2" "10.0.0.2" ≡ true)
    × ((p : ParsedMagicPacket) × (parse_magic_packet payload ≡ packet p)
        × ("00:1B:21:A0:FF:09" ≡ p.mac_address)
        × ((allow 40000 p.mac_address 100 limiter).0 ≡ true))
handle-woken_example = handle-woken host desk datagram limiter db "00:1B:21:A0:FF:09" desk_woken

abbrev stray : Datagram
stray = record datagram { source_ip = "10.0.0.66" }
