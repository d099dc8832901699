-- ===== src/HostAgent/Jobs/Exclusion.antt =====
-- When two jobs can run at one time.
use wolt.Prelude.{
  String, ◌≡◌, refl, inl, inr, true, false, none, some, [], ◌∷◌, arith, str_eq, str_eq_iff, any,
  Bool-cases,
}
use wolt.Errors.{ok, err, agent_error}
use wolt.HostAgent.{Agent, Job, running, Jobs}
use wolt.HostAgent.EnvFile.{lookup_value, set_value}
use wolt.HostAgent.EnvFile.Values.{lookup-set_value}
use wolt.HostAgent.Jobs.{is_running, is_operation, new_job, save_job, start_job}

any-set_running :
    (k : String) (job : Job) (jobs : Jobs)
    → job.status ≡ running
    → any is_running (set_value k job jobs) ≡ true
unfolding set_value
any-set_running k job [] h = ground (arith, h)
any-set_running k job ((i, j) ∷ jobs) h = ground (arith, h, any-set_running k job jobs h)

abbrev started : String → String → Job
started job_id operation = record {
  id = job_id;
  operation = operation;
  status = running;
  error = none;
}

start_job-running :
    (job_id operation : String) (a b : Agent) (x : String)
    → start_job job_id operation a ≡ (ok x, b)
    → any is_running b.jobs ≡ true
unfolding start_job new_job save_job
start_job-running job_id operation a b x h = elim (Bool-cases (is_operation operation)) [
  | inr bad ↦ absurd (ground (arith, bad))
  | inl known ↦ elim (Bool-cases (any is_running a.jobs)) [
    | inl busy ↦ absurd (ground (arith, known, busy))
    | inr free ↦
        ground (arith, known, free, any-set_running job_id (started job_id operation) a.jobs refl)
  ]
]

-- A job that was started keeps `start_job` from starting another one, as long as it has not been
-- saved with another status; the agent does not change.
pub start_job-excludes :
    (i j operation other : String) (a b : Agent) (x : String)
    → start_job i operation a ≡ (ok x, b)
    → is_operation other ≡ true
    → start_job j other b ≡ (err (agent_error "host_operation_in_progress" 409), b)
unfolding start_job new_job
start_job-excludes i j operation other a b x h o =
    ground (arith, start_job-running i operation a b x h, o)

-- Two requests that pass the lock before either saves its job: both get a job, and in the end
-- both jobs are there and running.
pub new_job-twice :
    (i j operation other : String) (a : Agent)
    → str_eq i j ≡ false
    → any is_running a.jobs ≡ false
    → (new_job i operation a ≡ ok (started i operation))
      × (new_job j other a ≡ ok (started j other))
      × (lookup_value i (save_job (started j other) (save_job (started i operation) a).1).1.jobs
          ≡ some (started i operation))
      × (lookup_value j (save_job (started j other) (save_job (started i operation) a).1).1.jobs
          ≡ some (started j other))
unfolding new_job save_job
new_job-twice i j operation other a d free = ground (
  arith,
  lookup-set_value i i (started i operation) a.jobs,
  lookup-set_value i j (started j other) (set_value i (started i operation) a.jobs),
  lookup-set_value j j (started j other) (set_value i (started i operation) a.jobs),
  str_eq_iff i i,
  str_eq_iff i j,
  str_eq_iff j i,
  str_eq_iff j j,
)
