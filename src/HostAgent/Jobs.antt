-- ===== src/HostAgent/Jobs.antt =====
-- The jobs of the agent: `_save_job`, `start_job` and `job`.
pub mod Saved
pub mod Exclusion
use Prim.Native.Char.{code}
use wolt.Prelude.{
  ℕ, String, Bool, true, false, not, ◌&&◌, ◌||◌, ◌+◌, ◌-◌, ◌==◌, leb, ltb, Option, none, some, List,
  [], ◌∷◌, str_eq, any, length, drop, if◌then◌else◌,
}
use wolt.Errors.{Result, ok, err, agent_error}
use wolt.HostAgent.{
  Agent, Job, JobStatus, running, succeeded, failed, Jobs, Step, ◌>>=◌, ◌>>◌, pure, raise,
}
use wolt.HostAgent.EnvFile.{lookup_value, set_value}

-- `<=` on texts
unfoldable pub text_leb : String → String → Bool
text_leb String.[] t = true
text_leb (String.◌∷◌ c s) String.[] = false
text_leb (String.◌∷◌ c s) (String.◌∷◌ d t) =
    ltb (code c) (code d) || (code c == code d && text_leb s t)

unfoldable pub put_by_id : String × Job → Jobs → Jobs
unfolding text_leb
put_by_id j [] = j ∷ []
put_by_id j (k ∷ jobs) =
    let rest = put_by_id j jobs in if text_leb (j.0) (k.0) then j ∷ k ∷ jobs else k ∷ rest

-- The jobs as they are read: the file is written with `sort_keys=True`.
unfoldable pub by_id : Jobs → Jobs
unfolding put_by_id
by_id [] = []
by_id (j ∷ jobs) = put_by_id j (by_id jobs)

-- `if len(jobs) > 20: for old_id in list(jobs)[:-20]: jobs.pop(old_id, None)`
abbrev pub last_jobs : Jobs → Jobs
last_jobs jobs = if leb (length jobs) 20 then jobs else drop (length jobs - 20) jobs

-- `_save_job`
unfoldable pub save_job : Job → Step Unit
unfolding by_id set_value
save_job job a = (
  ok tt,
  record a {
    jobs = set_value job.id job a.jobs;
    store = record a.store { jobs = last_jobs (set_value job.id job (by_id a.store.jobs)) };
  },
)

abbrev pub is_running : String × Job → Bool
is_running (i, job) = elim (job.status) [ running ↦ true | _ ↦ false ]

abbrev pub is_operation : String → Bool
is_operation s = str_eq s "deployment" || (str_eq s "upgrade" || str_eq s "rollback")

-- The part of `start_job` under the lock: the new job, with the id that `uuid4` drew.
unfoldable pub new_job : String → String → Agent → Result Job
new_job job_id operation a =
    if any is_running a.jobs
    then err (agent_error "host_operation_in_progress" 409)
    else ok (record { id = job_id; operation = operation; status = running; error = none })

-- `start_job` up to the start of the thread; `save_job` runs after the lock is released.
unfoldable pub start_job : String → String → Step String
unfolding new_job save_job
start_job job_id operation a =
    if not (is_operation operation)
    then (err (agent_error "unsupported_host_operation" 400), a)
    else elim (new_job job_id operation a) [
      | err e ↦ (err e, a)
      | ok job ↦ (save_job job >> pure job_id) a
    ]

-- `job`
unfoldable pub find_job : String → Step Job
unfolding lookup_value
find_job job_id a = elim (lookup_value job_id a.jobs) [
  | some job ↦ (ok job, a)
  | none ↦ elim (lookup_value job_id a.store.jobs) [
    | some job ↦ (ok job, a)
    | none ↦ (err (agent_error "host_job_not_found" 404), a)
  ]
]
