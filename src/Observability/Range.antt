-- ===== src/Observability/Range.antt =====
-- A change of the UDP range keeps every mapping in the range and the range in the published one.
use wolt.Prelude.{
  ℕ, ◌≤◌, ◌≡◌, true, ◌||◌, some, List, [], ◌∷◌, arith, ltb, count, All, Bool-cases, inl, inr,
}
use wolt.Errors.{ok}
use wolt.Db.{Db, constraints}
use wolt.Db.Models.{ApplicationSettings, ListenerMapping}
use wolt.Db.Session.Keeps.{with_session-keeps}
use wolt.Operations.{Context}
use wolt.Operations.Listeners.Invariant.{IsWellFormed, InRange}
use wolt.Observability.Settings.{
  Published, SettingsView, outside_count, update_udp_range_tx, update_udp_range,
}

none_outside :
    (s : ApplicationSettings) (udp_start udp_end : ℕ) (ms : List ListenerMapping)
    → s.udp_port_start ≡ udp_start
    → s.udp_port_end ≡ udp_end
    → count (λ m. ltb m.udp_port udp_start || ltb udp_end m.udp_port) ms ≡ 0
    → All (InRange s) ms
none_outside s udp_start udp_end [] a b h = tt
none_outside s udp_start udp_end (m ∷ ms) a b h =
    (ground arith, none_outside s udp_start udp_end ms a b (ground arith))

range_tx-ok :
    (published : Published) (ctx : Context) (udp_start udp_end : ℕ) (db db' : Db) (v : SettingsView)
    → update_udp_range_tx published ctx udp_start udp_end db ≡ ok (v, db')
    → (constraints db' ≡ true)
      × (db'.listeners ≡ db.listeners)
      × (outside_count udp_start udp_end db ≡ 0)
      × (db'.settings ≡ some v.settings)
      × (v.settings.udp_port_start ≡ udp_start)
      × (v.settings.udp_port_end ≡ udp_end)
unfolding update_udp_range_tx
range_tx-ok published ctx udp_start udp_end db db' v h = ground arith

range_tx-IsWellFormed :
    (published : Published) (ctx : Context) (udp_start udp_end : ℕ) (db db' : Db) (v : SettingsView)
    → update_udp_range_tx published ctx udp_start udp_end db ≡ ok (v, db')
    → IsWellFormed db'
range_tx-IsWellFormed published ctx udp_start udp_end db db' v h =
    let (c, same, inside, stored, low, high) =
      range_tx-ok published ctx udp_start udp_end db db' v h in
    record {
      constrained = c;
      in_range = λ s e.
          let view : s ≡ v.settings = ground arith in
          rw (view, same) (none_outside v.settings udp_start udp_end db.listeners low high inside);
    }

-- From a well-formed database, whether `update_udp_range` succeeds or raises, it leaves a well-formed
-- one: the constraints hold and every mapping's port lies in the range that is then stored.
pub update_udp_range-IsWellFormed :
    (published : Published) (ctx : Context) (udp_start udp_end : ℕ) (db : Db)
    → IsWellFormed db
    → IsWellFormed (update_udp_range published ctx udp_start udp_end db).1
unfolding update_udp_range
update_udp_range-IsWellFormed published ctx udp_start udp_end db w =
    elim (Bool-cases (ltb udp_start published.udp_start || ltb published.udp_end udp_end)) [
      | inl outside ↦ rw (outside, update_udp_range) w
      | inr within ↦
          rw (within, update_udp_range)
            (with_session-keeps IsWellFormed (update_udp_range_tx published ctx udp_start udp_end)
              db w (λ v db' h. range_tx-IsWellFormed published ctx udp_start udp_end db db' v h))
    ]

-- When `update_udp_range` succeeds, the range that is stored and shown is the requested one, it lies
-- in the published range, and every mapping's port lies in it.
pub update_udp_range-ok :
    (published : Published) (ctx : Context) (udp_start udp_end : ℕ) (db db' : Db) (v : SettingsView)
    → update_udp_range published ctx udp_start udp_end db ≡ (ok v, db')
    → (db'.settings ≡ some v.settings)
      × (v.settings.udp_port_start ≡ udp_start)
      × (v.settings.udp_port_end ≡ udp_end)
      × (published.udp_start ≤ udp_start)
      × (udp_end ≤ published.udp_end)
      × All (InRange v.settings) db'.listeners
unfolding update_udp_range
update_udp_range-ok published ctx udp_start udp_end db db' v h =
    elim (Bool-cases (ltb udp_start published.udp_start || ltb published.udp_end udp_end)) [
      | inl outside ↦ absurd (ground arith)
      | inr within ↦
          let (_, same, inside, stored, low, high) =
            range_tx-ok published ctx udp_start udp_end db db' v (ground arith) in
          (
            stored,
            low,
            high,
            ground arith,
            ground arith,
            rw same (none_outside v.settings udp_start udp_end db.listeners low high inside),
          )
    ]
