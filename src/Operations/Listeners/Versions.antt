-- ===== src/Operations/Listeners/Versions.antt =====
-- Optimistic locking by the `version` column.
use wolt.Prelude.{
  ℕ, String, ◌+◌, ◌≡◌, refl, inl, inr, false, some, List, [], ◌∷◌, arith, ◌==◌, first, update,
  Option-cases, first-eq-some,
}
use wolt.Errors.{ok, err, Result-cases, stale_version}
use wolt.Db.{Db}
use wolt.Db.Models.{ListenerMapping}
use wolt.Db.Session.{◌>>=◌}
use wolt.Db.Session.Keeps.{>>=-eq-ok}
use wolt.Driver.{DriverRegistry}
use wolt.Operations.{Context}
use wolt.Operations.Listeners.{
  Network, ListenerInput, ListenerView, find_listener, source_ip, then_get,
}
use wolt.Operations.Listeners.Change.{changed_mapping, save_mapping, update_listener}
use wolt.Operations.Listeners.Invariant.{save_mapping-ok}

first-update :
    (i : ℕ) (m : ListenerMapping) (ms : List ListenerMapping) (old : ListenerMapping)
    → m.id ≡ i
    → first (λ l. l.id == i) ms ≡ some old
    → first (λ l. l.id == i) (update (λ l. l.id == i) (λ _. m) ms) ≡ some m
first-update i m [] old e h = ground arith
first-update i m (x ∷ ms) old e h = ground (arith, first-update i m ms old)

module _ (network : Network) (registry : DriverRegistry) (mapping_id version : ℕ) where
  -- What a successful `update` has seen, and what it writes.
  changed_version :
      (ctx : Context) (input : ListenerInput) (port : ℕ) (source : String) (db db' : Db)
      (m : ListenerMapping)
      → changed_mapping network registry ctx mapping_id version input port source db ≡ ok (m, db')
      → (old : ListenerMapping) × (find_listener mapping_id db ≡ some old)
        × (old.version ≡ version)
        × (m.id ≡ old.id)
        × (m.version ≡ version + 1)
        × (db' ≡ db)
  unfolding changed_mapping
  changed_version ctx input port source db db' m h =
      elim (Option-cases (find_listener mapping_id db)) [
        | inl missing ↦ absurd (ground arith)
        | inr (old, found) ↦ (old, found, ground arith, ground arith, ground arith, ground arith)
      ]

  -- A request that names another version than the stored one.
  stale :
      (ctx : Context) (input : ListenerInput) (port : ℕ) (db : Db) (m : ListenerMapping)
      (source : String)
      → find_listener mapping_id db ≡ some m
      → (m.version == version) ≡ false
      → source_ip network registry input.allowed_source_ip ≡ ok source
      → update_listener network registry ctx mapping_id version input port db
        ≡ (err stale_version, db)
  unfolding update_listener
  stale ctx input port db m source found other ip = rw (ip, update_listener) (ground arith)

  -- What a success of `update` tells of its session.
  update_listener-ok :
      (ctx : Context) (input : ListenerInput) (port : ℕ) (source : String) (db : Db)
      (view : ListenerView)
      → source_ip network registry input.allowed_source_ip ≡ ok source
      → (update_listener network registry ctx mapping_id version input port db).0 ≡ ok view
      → (i : ℕ) × (db' : Db) × ((changed_mapping network registry ctx mapping_id version input port
                source
              >>= save_mapping ctx mapping_id)
            db
          ≡ ok (i, db'))
        × ((update_listener network registry ctx mapping_id version input port db).1 ≡ db')
  unfolding update_listener then_get
  update_listener-ok ctx input port source db view ip h =
      elim (Result-cases (
        (changed_mapping network registry ctx mapping_id version input port source
            >>= save_mapping ctx mapping_id)
          db)) [
            | inl ((i, db'), e) ↦ (i, db', e, rw (ip, update_listener) (rw (e, then_get) refl))
            | inr (x, e) ↦ absurd (ground arith)
          ]

  -- After an update that succeeded, the mapping is there with the next version.
  updated_version :
      (ctx : Context) (input : ListenerInput) (port : ℕ) (db : Db) (view : ListenerView)
      → (update_listener network registry ctx mapping_id version input port db).0 ≡ ok view
      → (m : ListenerMapping) × (find_listener mapping_id
            (update_listener network registry ctx mapping_id version input port db).1
          ≡ some m)
        × (m.version ≡ version + 1)
  unfolding update_listener
  updated_version ctx input port db view h =
      elim (Result-cases (source_ip network registry input.allowed_source_ip)) [
        | inl (source, ip) ↦
            let (i, db', e, same) = update_listener-ok ctx input port source db view ip h in
            let (m, d, made, saved) =
              >>=-eq-ok (changed_mapping network registry ctx mapping_id version input port source)
                (save_mapping ctx mapping_id) db i db' e in
            let (old, found, _, id, next, unchanged) =
              changed_version ctx input port source db d m made in
            let (_, _, _, listeners) =
              save_mapping-ok network registry ctx input mapping_id m d db' i saved in
            let own : m.id ≡ mapping_id =
              ground (arith, first-eq-some (λ l. l.id == mapping_id) db.listeners old found) in
            (
              m,
              rw same (
                  rw (listeners, unchanged) (first-update mapping_id m db.listeners old own found)),
              next,
            )
        | inr (x, ip) ↦ absurd (ground arith)
      ]

-- After an update of a mapping that succeeded, another update that names the same version, with a
-- valid source address, is refused as stale and changes nothing, whoever sends it and whatever else
-- it holds.
pub update_listener_stale :
    (network : Network) (registry : DriverRegistry) (mapping_id version : ℕ) (ctx ctx' : Context)
    (input input' : ListenerInput) (port port' : ℕ) (source' : String) (db : Db)
    (view : ListenerView)
    → (update_listener network registry ctx mapping_id version input port db).0 ≡ ok view
    → source_ip network registry input'.allowed_source_ip ≡ ok source'
    → let db' = (update_listener network registry ctx mapping_id version input port db).1 in
      update_listener network registry ctx' mapping_id version input' port' db'
      ≡ (err stale_version, db')
update_listener_stale network registry mapping_id version ctx ctx' input input' port port' source'
      db view h ip =
    let db' = (update_listener network registry ctx mapping_id version input port db).1 in
    let (m, found, next) =
      updated_version network registry mapping_id version ctx input port db view h in
    stale network registry mapping_id version ctx' input' port' db' m source' found (ground arith)
      ip
