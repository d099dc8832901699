-- ===== src/Engine/Resume.antt =====
-- What `resume` and `pause` leave behind.
use wolt.Prelude.{
  ℕ, suc, String, ◌+◌, ◌*◌, ◌≡◌, ◌∙◌, ◌⊎◌, refl, inl, inr, Bool, true, false, not, Option, none,
  some, List, [], ◌∷◌, ◌++◌, arith, ◌==◌, any, select, update, map, count, first, Option-cases,
}
use mathlib.Core.List.{append-nil, append_assoc}
use wolt.Errors.{Result, ok, err}
use wolt.Db.{Db}
use wolt.Db.Models.{
  ListenerMapping, Observed, Status, is_active, inactive, Desired, ApplicationSettings,
}
use wolt.Operations.Devices.{runtime_material}
use wolt.RateLimit.{new_limiter}
use wolt.Engine.{
  World, Host, runtime_mapping, is_served, set_mapping_status, heartbeat, Start, started, failed,
  raised, try_start, start, start_rows, resume, observed_after, error_after, pause,
  is_desired_active, finish_resume,
}

-- Whether the listener of a mapping can be started.
abbrev pub is_started : Start → Bool
is_started started = true
is_started _ = false

abbrev pub can_start : Host → Db → ListenerMapping → Bool
can_start host db row = is_started (start host db row)

-- A status that is written does not matter to a start.
start-set_mapping_status :
    (host : Host) (now i : ℕ) (s : Status) (e : Option String) (db : Db) (row : ListenerMapping)
    → start host (set_mapping_status now i s e db) row ≡ start host db row
unfolding start try_start runtime_material set_mapping_status
start-set_mapping_status host now i s e db row = refl

Start-cases :
    (s : Start) → (s ≡ started) ⊎ (((r : String) × (s ≡ failed r)) ⊎ ((e : _) × (s ≡ raised e)))
Start-cases started = inl refl
Start-cases (failed r) = inr (inl (r, refl))
Start-cases (raised e) = inr (inr (e, refl))

module _ (host : Host) (before : Db) where
  -- The loop, from a database on which starts answer as on `before`.
  start_rows-eq-ok :
      (rows : List ListenerMapping) (failures n : ℕ) (w w' : World)
      → ((row : ListenerMapping) → start host w.db row ≡ start host before row)
      → start_rows host rows failures w ≡ (ok n, w')
      → (w'.runtime.listeners
          ≡ w.runtime.listeners ++ map runtime_mapping (select (can_start host before) rows))
        × (n ≡ failures + count (λ row. not (can_start host before row)) rows)
  unfolding start_rows
  start_rows-eq-ok [] failures n w w' agree h =
      (ground (arith, append-nil w.runtime.listeners), ground arith)
  start_rows-eq-ok (row ∷ rows) failures n w w' agree h =
      let same : start host w.db row ≡ start host before row = agree row in
      elim (Start-cases (start host before row)) [
        | inl e ↦
            let next : World = record {
              db = set_mapping_status host.now row.id Status.active none w.db;
              runtime = record w.runtime {
                listeners = w.runtime.listeners ++ (runtime_mapping row ∷ []);
              };
            } in
            let rest =
              start_rows-eq-ok rows failures n next w'
                (λ r.
                  rw (start-set_mapping_status host host.now row.id Status.active none w.db r)
                    (agree r))
                (ground arith) in
            let chosen : can_start host before row ≡ true = rw e refl in
            let shift =
              append_assoc w.runtime.listeners (runtime_mapping row ∷ [])
                (map runtime_mapping (select (can_start host before) rows)) in
            rw chosen (rest.0 ∙ shift, rest.1)
        | inr (inl (r, e)) ↦
            let next : World = record w {
              db = set_mapping_status host.now row.id Status.error (some r) w.db;
            } in
            let rest =
              start_rows-eq-ok rows (suc failures) n next w'
                (λ q.
                  rw (start-set_mapping_status host host.now row.id Status.error (some r) w.db q)
                    (agree q))
                (ground arith) in
            let chosen : can_start host before row ≡ false = rw e refl in
            rw chosen (rest.0, ground arith)
        | inr (inr (x, e)) ↦ absurd (ground arith)
      ]

first-set_mapping_status :
    (now i j : ℕ) (s : Status) (e : Option String) (rows : List ListenerMapping)
    → (j == i) ≡ false
    → first
        (λ m. m.id == i)
        (update
          (λ m. m.id == j)
          (λ m. record m { status = s; last_error = e; updated_at = now })
          rows)
      ≡ first (λ m. m.id == i) rows
first-set_mapping_status now i j s e [] h = refl
first-set_mapping_status now i j s e (m ∷ rows) h =
    ground (arith, first-set_mapping_status now i j s e rows h)

start_rows-first :
    (host : Host) (i : ℕ) (rows : List ListenerMapping) (failures : ℕ) (w : World)
    → any (λ m. m.id == i) rows ≡ false
    → first (λ m. m.id == i) (start_rows host rows failures w).1.db.listeners
      ≡ first (λ m. m.id == i) w.db.listeners
unfolding start_rows set_mapping_status
start_rows-first host i [] failures w h = refl
start_rows-first host i (row ∷ rows) failures w h = elim (Start-cases (start host w.db row)) [
  | inl e ↦
      (ground (
        arith,
        start_rows-first host i rows failures (record {
          db = set_mapping_status host.now row.id Status.active none w.db;
          runtime = record w.runtime {
            listeners = w.runtime.listeners ++ (runtime_mapping row ∷ []);
          };
        }),
        first-set_mapping_status host.now i row.id Status.active none w.db.listeners,
      ))
  | inr (inl (r, e)) ↦
      (ground (
        arith,
        start_rows-first host i rows (suc failures)
            (record w { db = set_mapping_status host.now row.id Status.error (some r) w.db }),
        first-set_mapping_status host.now i row.id Status.error (some r) w.db.listeners,
      ))
  | inr (inr (x, e)) ↦ ground arith
]

heartbeat-listeners :
    (now : ℕ) (d : Desired) (o : Observed) (e : Option String) (db : Db)
    → (heartbeat now d o e db).listeners ≡ db.listeners
unfolding heartbeat
heartbeat-listeners now d o e db = ground arith

finish_resume-eq-ok :
    (host : Host) (failures_text : ℕ → String) (r : Result ℕ × World) (w' : World)
    (observed : Observed) (error : Option String)
    → finish_resume host failures_text r ≡ (ok (observed, error), w')
    → (n : ℕ) × (w : World) × (r ≡ (ok n, w))
      × (w'.runtime ≡ w.runtime)
      × (observed ≡ observed_after n)
      × (error ≡ error_after failures_text n)
finish_resume-eq-ok host failures_text (err x, w) w' observed error h = absurd (ground arith)
finish_resume-eq-ok host failures_text (ok n, w) w' observed error h =
    (n, w, refl, ground arith, ground arith, ground arith)

finish_resume-listeners :
    (host : Host) (failures_text : ℕ → String) (r : Result ℕ × World)
    → (finish_resume host failures_text r).1.db.listeners ≡ r.1.db.listeners
finish_resume-listeners host failures_text (err x, w) = refl
finish_resume-listeners host failures_text (ok n, w) =
    heartbeat-listeners host.now Desired.active (observed_after n) (error_after failures_text n)
      w.db

-- The world in which the loop of `resume` starts.
abbrev restarted : Host → ApplicationSettings → World → World
restarted host s w = record w {
  runtime = record { listeners = []; limiter = new_limiter (s.rate_limit_seconds * host.second) };
}

-- When `resume` succeeds, the bound listeners are those of the enabled mappings of enabled devices
-- whose start succeeds on the database before it, in their order, and the state and the error that
-- it reports are those for the number of such mappings whose start fails.
pub resume_lem :
    (host : Host) (failures_text : ℕ → String) (w w' : World) (observed : Observed)
    (error : Option String)
    → resume host failures_text w ≡ (ok (observed, error), w')
    → let served = select (is_served w.db.devices) w.db.listeners in
      let failures = count (λ m. not (can_start host w.db m)) served in
      (w'.runtime.listeners ≡ map runtime_mapping (select (can_start host w.db) served))
      × (observed ≡ observed_after failures)
      × (error ≡ error_after failures_text failures)
unfolding resume
resume_lem host failures_text w w' observed error h = elim (Option-cases w.db.settings) [
  | inl none_set ↦ absurd (ground arith)
  | inr (s, set) ↦
      let served = select (is_served w.db.devices) w.db.listeners in
      let (n, w1, loop, same, o, e) =
        finish_resume-eq-ok host failures_text (start_rows host served 0 (restarted host s w)) w'
          observed error (ground arith) in
      let (bound, counted) =
        start_rows-eq-ok host w.db served 0 n (restarted host s w) w1 (λ row. refl) loop in
      let total : n ≡ count (λ m. not (can_start host w.db m)) served = ground arith in
      (rw same bound, rw (← total) o, rw (← total) e)
]

-- `resume` leaves the row of a mapping that it does not serve as it is, with its status.
pub resume_unserved :
    (host : Host) (failures_text : ℕ → String) (i : ℕ) (w : World)
    → any (λ m. m.id == i) (select (is_served w.db.devices) w.db.listeners) ≡ false
    → first (λ m. m.id == i) (resume host failures_text w).1.db.listeners
      ≡ first (λ m. m.id == i) w.db.listeners
unfolding resume heartbeat
resume_unserved host failures_text i w h = elim (Option-cases w.db.settings) [
  | inl none_set ↦ ground arith
  | inr (s, set) ↦
      let served = select (is_served w.db.devices) w.db.listeners in
      rw (set, resume)
        (rw
          (finish_resume-listeners host failures_text
            (start_rows host served 0 (restarted host s w)))
          (start_rows-first host i served 0 (restarted host s w) h))
]

no_active :
    (now : ℕ) (rows : List ListenerMapping)
    → any
        (λ m. is_active m.status)
        (update
          (λ m. is_active m.status)
          (λ m. record m { status = inactive; last_error = none; updated_at = now })
          rows)
      ≡ false
no_active now [] = refl
no_active now (m ∷ rows) = ground (arith, no_active now rows)

-- After `pause` no listener is bound, no mapping has the status "active", and the engine does not
-- start at the next start of the process.
pub pause_lem :
    (host : Host) (w : World)
    → ((pause host w).runtime.listeners ≡ [])
      × (any (λ m. is_active m.status) (pause host w).db.listeners ≡ false)
      × (is_desired_active (pause host w).db ≡ false)
unfolding pause heartbeat
pause_lem host w = (refl, ground (arith, no_active host.now w.db.listeners), ground arith)
