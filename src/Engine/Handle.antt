-- ===== src/Engine/Handle.antt =====
-- `ManagedUDPListener._handle` and `_record`: one datagram at one listener.
pub mod Wakes
use wolt.Prelude.{
  ℕ, String, Bool, true, false, not, Option, none, some, List, [], ◌∷◌, ◌++◌, str_eq, is_empty,
  if◌then◌else◌,
}
use wolt.Errors.{Result, ok, err, resource_conflict, credential_crypto, driver_operation}
use wolt.Db.{Db}
use wolt.Db.Session.{◌>>◌, modify, commit, with_session}
use wolt.Driver
use wolt.Packet.{packet, parse_magic_packet}
use wolt.RateLimit.{RateLimiter, allow}
use wolt.Operations.Devices.{runtime_material}
use wolt.Engine.{RuntimeMapping, Host}

-- A datagram, with the readings and the UUIDs that its handling draws: the monotonic clock, the
-- duration that `_record` measures, and the ids of the event.
pub record Datagram : Type 0 where
  pub payload : List ℕ
  pub source_ip : String
  pub source_port : ℕ
  pub monotonic : ℕ
  pub duration_ms : ℕ
  pub event_id : ℕ
  pub correlation_id : ℕ

-- What handling has done: the limiter and the database after it, and the MAC address for which the
-- driver was asked to wake a host, if it was. An exception ends up in the log of `_run`.
pub record Handled : Type 0 where
  pub limiter : RateLimiter
  pub db : Db
  pub woken : Option String
  pub outcome : Result Unit

-- `_record`
unfoldable pub record_event :
    Host → RuntimeMapping → Datagram → String → String → Db → Result Unit × Db
record_event host m d mac_address result db =
    with_session
      (do
        modify (λ db. record db {
          wake_events =
              db.wake_events
              ++ (record {
                id = d.event_id;
                mapping_id = m.id;
                device_id = m.device_id;
                event_type = "wake_request";
                mac_address = mac_address;
                source_ip = d.source_ip;
                source_port = d.source_port;
                result_code = result;
                duration_ms = some d.duration_ms;
                correlation_id = d.correlation_id;
                occurred_at = host.now;
              }
                  ∷ []);
        })
        commit)
      db

-- `str(exc) or "device_unavailable"`
abbrev text_or_unavailable : String → String
text_or_unavailable s = if is_empty s then "device_unavailable" else s

-- The `except` clause: the code to record, or `none` where the exception propagates.
unfoldable pub result_code : Result Unit → Option String
result_code (ok _) = some "success"
result_code (err (driver_operation reason)) = some (text_or_unavailable reason)
result_code (err (credential_crypto reason)) = some (text_or_unavailable reason)
result_code (err resource_conflict) = some (text_or_unavailable "")
result_code (err _) = none

-- The `try`: the outcome, and whether `execute_wake` was called.
unfoldable pub try_wake : Host → RuntimeMapping → String → Db → Result Unit × Bool
unfolding Driver.get
try_wake host m mac_address db = elim (runtime_material host.cipher m.device_id db) [
  | err e ↦ (err e, false)
  | ok material ↦ elim (Driver.get host.registry material.driver_type) [
    | err e ↦ (err e, false)
    | ok driver ↦ (
      driver.execute_wake material.configuration material.credentials m.driver_parameters
          mac_address,
      true,
    )
  ]
]

abbrev conclude :
    Host → RuntimeMapping → Datagram → String → RateLimiter → Db → Result Unit × Bool → Handled
conclude host m d mac_address limiter db (outcome, called) =
    let woken = if called then some mac_address else none in
    elim (result_code outcome) [
      | none ↦ record { limiter = limiter; db = db; woken = woken; outcome = outcome }
      | some code ↦
          let (saved, db') = record_event host m d mac_address code db in
          record { limiter = limiter; db = db'; woken = woken; outcome = saved }
    ]

-- `_handle` from the limiter on, for a valid packet from the allowed source.
unfoldable pub handle_packet :
    Host → RuntimeMapping → Datagram → String → RateLimiter → Db → Handled
unfolding record_event result_code try_wake
handle_packet host m d mac_address limiter db =
    let (granted, limiter') = allow m.port mac_address d.monotonic limiter in
    if granted
    then conclude host m d mac_address limiter' db (try_wake host m mac_address db)
    else let (saved, db') = record_event host m d mac_address "rate_limited" db in
      record { limiter = limiter'; db = db'; woken = none; outcome = saved }

abbrev pub ignored : RateLimiter → Db → Handled
ignored limiter db = record { limiter = limiter; db = db; woken = none; outcome = ok tt }

unfoldable pub handle : Host → RuntimeMapping → Datagram → RateLimiter → Db → Handled
unfolding handle_packet
handle host m d limiter db =
    if not (str_eq d.source_ip m.allowed_source_ip)
    then ignored limiter db
    else elim (parse_magic_packet d.payload) [
      | packet p ↦ handle_packet host m d p.mac_address limiter db
      | _ ↦ ignored limiter db
    ]
