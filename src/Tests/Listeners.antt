-- ===== src/Tests/Listeners.antt =====
-- Tests of the listener mappings and the UDP range.
use wolt.Prelude.{◌≡◌, refl, true, false, none, [], ◌∷◌, arith, strip}
use wolt.Errors.{ok, err, stale_version, resource_conflict}
use wolt.Db.{
  Db, constraints, users_ok, sessions_ok, recovery_codes_ok, invitations_ok, reset_tokens_ok,
  devices_ok, credentials_ok, listeners_ok, wake_events_ok, smtp_ok, settings_ok,
}
use wolt.Db.Models.{ListenerMapping}
use wolt.Operations.Listeners.{ListenerView, first_free, allocate_port, create, source_ip}
use wolt.Operations.Listeners.Change.{update_listener}
use wolt.Operations.Listeners.Invariant.{IsWellFormed, create-IsWellFormed, update-IsWellFormed}
use wolt.Operations.Listeners.Versions.{update_listener_stale}
use wolt.Observability.Settings.{Published, SettingsView, update_udp_range}
use wolt.Observability.Range.{update_udp_range-IsWellFormed}
use wolt.Samples.{db, context, network, registry, input, mapping, settings}

pub db_constraints : constraints db ≡ true
unfolding constraints users_ok sessions_ok recovery_codes_ok invitations_ok reset_tokens_ok
    devices_ok credentials_ok listeners_ok wake_events_ok smtp_ok settings_ok
db_constraints = refl

db-IsWellFormed : IsWellFormed db
db-IsWellFormed = record { constrained = db_constraints; in_range = λ s e. ground arith }

create-IsWellFormed_example : IsWellFormed (create network registry context input none db).1
create-IsWellFormed_example =
    create-IsWellFormed network registry context input none db db-IsWellFormed

update-IsWellFormed_example :
    IsWellFormed (update_listener network registry context 7 1 input 40003 db).1
update-IsWellFormed_example =
    update-IsWellFormed network registry context input 7 1 40003 db db-IsWellFormed

abbrev lab : ListenerMapping
lab = record mapping {
  name = "lab";
  udp_port = 40003;
  allowed_source_ip = "10.0.0.3";
  version = 2;
  updated_at = 100;
}

abbrev lab_view : ListenerView
lab_view = record { mapping = lab; device_name = "edge"; driver_type = "fortigate_ssh" }

abbrev updated : Db
updated = (update_listener network registry context 7 1 input 40003 db).1

lab_updated : (update_listener network registry context 7 1 input 40003 db).0 ≡ ok lab_view
unfolding update_listener strip constraints users_ok sessions_ok recovery_codes_ok invitations_ok
    reset_tokens_ok devices_ok credentials_ok listeners_ok wake_events_ok smtp_ok settings_ok
lab_updated = refl

lab_source : source_ip network registry "10.0.0.3" ≡ ok "10.0.0.3"
unfolding source_ip strip
lab_source = refl

update_listener_stale_example :
    update_listener network registry context 7 1 input 40004 updated ≡ (err stale_version, updated)
update_listener_stale_example =
    update_listener_stale network registry 7 1 context context input input 40003 40004 "10.0.0.3" db
      lab_view lab_updated lab_source

allocated : allocate_port (mapping ∷ []) (λ _. true) settings ≡ ok 40001
unfolding allocate_port first_free
allocated = refl

none_allocated : allocate_port [] (λ _. false) settings ≡ err resource_conflict
unfolding allocate_port first_free
none_allocated = refl

abbrev pub published : Published
published = record { udp_start = 40000; udp_end = 40019 }

update_udp_range-IsWellFormed_example :
    IsWellFormed (update_udp_range published context 40000 40005 db).1
update_udp_range-IsWellFormed_example =
    update_udp_range-IsWellFormed published context 40000 40005 db db-IsWellFormed

abbrev narrow : SettingsView
narrow = record {
  settings = record settings { udp_port_end = 40005; updated_at = 100 };
  published = published;
  udp_port_capacity = 6;
  udp_ports_used = 1;
}

abbrev narrowed : Db
narrowed = (update_udp_range published context 40000 40005 db).1

range_updated : update_udp_range published context 40000 40005 db ≡ (ok narrow, narrowed)
unfolding update_udp_range constraints users_ok sessions_ok recovery_codes_ok invitations_ok
    reset_tokens_ok devices_ok credentials_ok listeners_ok wake_events_ok smtp_ok settings_ok
range_updated = refl
