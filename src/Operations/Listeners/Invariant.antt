-- ===== src/Operations/Listeners/Invariant.antt =====
-- No operation of the service breaks the constraints of the database or leaves a mapping on a port
-- outside the settings' range.
use wolt.Prelude.{
  ℕ, String, ◌≤◌, ◌≡◌, refl, inl, inr, Bool, true, Option, some, List, [], ◌∷◌, ◌++◌, ◌==◌, arith,
  All, update, remove,
}
use wolt.Errors.{Result, ok, err, Result-cases}
use wolt.Json.{end, field, number}
use wolt.Db.{Db, constraints}
use wolt.Db.Models.{ListenerMapping, ApplicationSettings, ObjectId}
use wolt.Db.Session.{◌>>=◌}
use wolt.Db.Session.Keeps.{with_session-keeps, >>=-eq-ok, insert-ok, save-ok}
use wolt.Driver.{DriverRegistry}
use wolt.Operations.{Context, audit, add_audit}
use wolt.Operations.Listeners.{
  Network, ListenerInput, checked_parameters, new_mapping, insert_mapping, then_get, create,
  source_ip, listener_changes, validate_port, replace_listener,
}
use wolt.Operations.Listeners.Change.{
  changed_mapping, save_mapping, update_listener, delete_tx, event_count,
}

abbrev pub InRange : ApplicationSettings → ListenerMapping → Type 0
InRange s m = (s.udp_port_start ≤ m.udp_port) × (m.udp_port ≤ s.udp_port_end)

pub record IsWellFormed (db : Db) : Type 0 where
  pub constrained : constraints db ≡ true
  pub in_range : (s : ApplicationSettings) → db.settings ≡ some s → All (InRange s) db.listeners

module _ (s : ApplicationSettings) where
  All-append_one :
      (m : ListenerMapping) (ms : List ListenerMapping)
      → All (InRange s) ms
      → InRange s m
      → All (InRange s) (ms ++ m ∷ [])
  All-append_one m [] h r = (r, tt)
  All-append_one m (n ∷ ms) h r = (h.0, All-append_one m ms h.1 r)

  All-update :
      (p : ListenerMapping → Bool) (m : ListenerMapping) (ms : List ListenerMapping)
      → All (InRange s) ms
      → InRange s m
      → All (InRange s) (update p (λ _. m) ms)
  All-update p m [] h r = tt
  All-update p m (n ∷ ms) h r = (ground arith, All-update p m ms h.1 r)

module _ (network : Network) (registry : DriverRegistry) (ctx : Context)
    (input : ListenerInput) where
  -- The guards read, and write nothing.
  checked_parameters-reads :
      (db db' : Db) (f : _) → checked_parameters network registry input db ≡ ok (f, db') → db' ≡ db
  unfolding checked_parameters
  checked_parameters-reads db db' f h = ground arith

  -- An accepted port is in the range.
  validate_port-ok :
      (ms : List ListenerMapping) (s : ApplicationSettings) (port : ℕ) (i : Option ℕ)
      → validate_port ms s port i ≡ ok tt
      → (s.udp_port_start ≤ port) × (port ≤ s.udp_port_end)
  unfolding validate_port
  validate_port-ok ms s port i h = ground arith

  new_mapping-ok :
      (udp_port : Option ℕ) (source : String) (db db' : Db) (m : ListenerMapping)
      → new_mapping network registry ctx input udp_port source db ≡ ok (m, db')
      → (db' ≡ db) × ((s : ApplicationSettings) → db.settings ≡ some s → InRange s m)
  unfolding new_mapping
  new_mapping-ok udp_port source db db' m h = (ground arith, λ s e. ground arith)

module _ (ctx : Context) (m : ListenerMapping) (db db' : Db) where
  insert_mapping-ok :
      (i : ℕ)
      → insert_mapping ctx m db ≡ ok (i, db')
      → let add = λ (d : Db). record d { listeners = d.listeners ++ (m ∷ []) } in
        let event =
          audit ctx "listener.created" "listener" (ObjectId.row m.id) (listener_changes m end) in
        (constraints db' ≡ true) × (i ≡ m.id) × (db' ≡ add_audit event (add db))
  unfolding insert_mapping
  insert_mapping-ok i h =
      let add = λ (d : Db). record d { listeners = d.listeners ++ (m ∷ []) } in
      let event =
        audit ctx "listener.created" "listener" (ObjectId.row m.id) (listener_changes m end) in
      let (c, j, e) = insert-ok _ add (add_audit event) m.id i db db' h in (rw e c, j, e)

then_get-db : (p : Result ℕ × Db) → (then_get p).1 ≡ p.1
unfolding then_get
then_get-db (ok i, db) = refl
then_get-db (err e, db) = refl

module _ (network : Network) (registry : DriverRegistry) (ctx : Context)
    (input : ListenerInput) where
  -- The session of `create`.
  create_tx-IsWellFormed :
      (udp_port : Option ℕ) (source : String) (db db' : Db) (i : ℕ)
      → IsWellFormed db
      → (new_mapping network registry ctx input udp_port source >>= insert_mapping ctx) db
        ≡ ok (i, db')
      → IsWellFormed db'
  create_tx-IsWellFormed udp_port source db db' i v h =
      let (m, d, made, saved) =
        >>=-eq-ok (new_mapping network registry ctx input udp_port source) (insert_mapping ctx) db i
          db' h in
      let (same, range) = new_mapping-ok network registry ctx input udp_port source db d m made in
      let (c, _, e) = insert_mapping-ok ctx m d db' i saved in
      record {
        constrained = c;
        in_range = λ s p.
            let before : db.settings ≡ some s = ground arith in
            let all : All (InRange s) (db.listeners ++ (m ∷ [])) =
              All-append_one s m db.listeners (v.in_range s before) (range s before) in
            rw (e, same) all;
      }

  -- From a well-formed database, whether `create` succeeds or raises, it leaves a well-formed one: the
  -- constraints hold and every mapping's port lies in the settings' range.
  pub create-IsWellFormed :
      (udp_port : Option ℕ) (db : Db)
      → IsWellFormed db
      → IsWellFormed (create network registry ctx input udp_port db).1
  unfolding create
  create-IsWellFormed udp_port db v =
      elim (Result-cases (source_ip network registry input.allowed_source_ip)) [
        | inl (source, e) ↦
            rw (e, create)
              (rw then_get-db (
                with_session-keeps IsWellFormed
                  (new_mapping network registry ctx input udp_port source >>= insert_mapping ctx) db
                  v (λ i db' h. create_tx-IsWellFormed udp_port source db db' i v h)))
        | inr (x, e) ↦ rw (e, create) v
      ]

  changed_mapping-ok :
      (mapping_id version udp_port : ℕ) (source : String) (db db' : Db) (m : ListenerMapping)
      → changed_mapping network registry ctx mapping_id version input udp_port source db
        ≡ ok (m, db')
      → (db' ≡ db) × ((s : ApplicationSettings) → db.settings ≡ some s → InRange s m)
  unfolding changed_mapping
  changed_mapping-ok mapping_id version udp_port source db db' m h =
      (ground arith, λ s e. ground arith)

  pub save_mapping-ok :
      (mapping_id : ℕ) (m : ListenerMapping) (db db' : Db) (i : ℕ)
      → save_mapping ctx mapping_id m db ≡ ok (i, db')
      → (constraints db' ≡ true)
        × (i ≡ mapping_id)
        × (db'.settings ≡ db.settings)
        × (db'.listeners ≡ update (λ l. l.id == mapping_id) (λ _. m) db.listeners)
  unfolding save_mapping
  save_mapping-ok mapping_id m db db' i h =
      let event =
        audit ctx "listener.updated" "listener" (ObjectId.row m.id)
          (listener_changes m (field "version" (number m.version) end)) in
      let (c, j, e) =
        save-ok _ (λ d. add_audit event (replace_listener mapping_id m d)) mapping_id i db db' h in
      (rw e c, j, rw e refl, rw e refl)

  update_tx-IsWellFormed :
      (mapping_id version udp_port : ℕ) (source : String) (db db' : Db) (i : ℕ)
      → IsWellFormed db
      → (changed_mapping network registry ctx mapping_id version input udp_port source
            >>= save_mapping ctx mapping_id)
          db
        ≡ ok (i, db')
      → IsWellFormed db'
  update_tx-IsWellFormed mapping_id version udp_port source db db' i v h =
      let (m, d, made, saved) =
        >>=-eq-ok (changed_mapping network registry ctx mapping_id version input udp_port source)
          (save_mapping ctx mapping_id) db i db' h in
      let (same, range) = changed_mapping-ok mapping_id version udp_port source db d m made in
      let (c, _, settings, listeners) = save_mapping-ok mapping_id m d db' i saved in
      record {
        constrained = c;
        in_range = λ s p.
            let before : db.settings ≡ some s = ground arith in
            rw (listeners, same)
              (All-update s _ m db.listeners (v.in_range s before) (range s before));
      }

  -- From a well-formed database, whether `update` succeeds or raises, it leaves a well-formed one: the
  -- constraints hold and every mapping's port lies in the settings' range.
  pub update-IsWellFormed :
      (mapping_id version udp_port : ℕ) (db : Db)
      → IsWellFormed db
      → IsWellFormed (update_listener network registry ctx mapping_id version input udp_port db).1
  unfolding update_listener
  update-IsWellFormed mapping_id version udp_port db v =
      elim (Result-cases (source_ip network registry input.allowed_source_ip)) [
        | inl (source, e) ↦
            rw (e, update_listener)
              (rw then_get-db (
                with_session-keeps IsWellFormed
                  (changed_mapping network registry ctx mapping_id version input udp_port source
                    >>= save_mapping ctx mapping_id)
                  db v
                  (λ i db' h.
                    update_tx-IsWellFormed mapping_id version udp_port source db db' i v h)))
        | inr (x, e) ↦ rw (e, update_listener) v
      ]

-- What `delete` has done when it succeeds.
pub delete_tx-ok :
    (ctx : Context) (mapping_id : ℕ) (db db' : Db)
    → delete_tx ctx mapping_id db ≡ ok (tt, db')
    → (constraints db' ≡ true)
      × (event_count mapping_id db ≡ 0)
      × (db'.settings ≡ db.settings)
      × (db'.listeners ≡ remove (λ m. m.id == mapping_id) db.listeners)
unfolding delete_tx
delete_tx-ok ctx mapping_id db db' h = ground arith
