-- ===== src/HostAgent/Jobs/Saved.antt =====
-- What the agent keeps of its jobs.
use wolt.Prelude.{
  ℕ, String, ◌≡◌, refl, inl, inr, ◌≤◌, zero, suc, none, some, [], ◌∷◌, arith, str_eq, str_eq_iff,
  is_some, length, length-drop, drop, ◌-◌, if◌then◌else◌, Option-cases, Bool-cases,
}
use wolt.Errors.{ok}
use wolt.HostAgent.{Agent, Job, Jobs}
use wolt.HostAgent.EnvFile.{lookup_value, set_value}
use wolt.HostAgent.EnvFile.Values.{lookup-set_value}
use wolt.HostAgent.Jobs.{put_by_id, by_id, last_jobs, save_job, find_job}

length-put_by_id : (j : String × Job) (jobs : Jobs) → length (put_by_id j jobs) ≡ suc (length jobs)
unfolding put_by_id
length-put_by_id j [] = refl
length-put_by_id j (k ∷ jobs) = ground (arith, length-put_by_id j jobs)

length-by_id : (jobs : Jobs) → length (by_id jobs) ≡ length jobs
unfolding by_id
length-by_id [] = refl
length-by_id (j ∷ jobs) = ground (arith, length-by_id jobs, length-put_by_id j (by_id jobs))

-- A key that is there keeps its place; another one goes to the end.
length-set_value :
    (k : String) (job : Job) (jobs : Jobs)
    → length (set_value k job jobs)
      ≡ (if is_some (lookup_value k jobs) then length jobs else suc (length jobs))
unfolding set_value lookup_value
length-set_value k job [] = refl
length-set_value k job ((i, j) ∷ jobs) = ground (arith, length-set_value k job jobs)

lookup-drop_set :
    (n : ℕ) (k : String) (job : Job) (jobs : Jobs)
    → lookup_value k jobs ≡ none
    → n ≤ length jobs
    → lookup_value k (drop n (set_value k job jobs)) ≡ some job
unfolding set_value lookup_value
lookup-drop_set zero k job jobs h b = ground (arith, lookup-set_value k k job jobs, str_eq_iff k k)
lookup-drop_set (suc n) k job [] h b = absurd (ground arith)
lookup-drop_set (suc n) k job ((i, j) ∷ jobs) h b =
    ground (arith, lookup-drop_set n k job jobs, Bool-cases (str_eq i k))

length-last_jobs : (jobs : Jobs) → length (last_jobs jobs) ≤ 20
length-last_jobs jobs = ground (arith, length-drop (length jobs - 20) jobs)

-- The job that was set is among the last ones.
last_jobs-set_value :
    (k : String) (job : Job) (jobs : Jobs)
    → length jobs ≤ 20
    → lookup_value k (last_jobs (set_value k job jobs)) ≡ some job
last_jobs-set_value k job jobs h = elim (Option-cases (lookup_value k jobs)) [
  | inl new ↦ ground (
    arith,
    length-set_value k job jobs,
    lookup-drop_set (length (set_value k job jobs) - 20) k job jobs new,
    lookup-set_value k k job jobs,
    str_eq_iff k k,
  )
  | inr (old, there) ↦
      ground (arith, length-set_value k job jobs, lookup-set_value k k job jobs, str_eq_iff k k)
]

-- The agent after a restart: it knows only what the state file says.
abbrev pub restarted : Agent → Agent
restarted a = record a { jobs = [] }

-- `_save_job`, where the state file holds at most 20 jobs: `job` then finds the job as it was
-- saved, also after a restart of the agent, and the file holds at most 20 jobs again.
pub save_job-find_job :
    (job : Job) (a b : Agent)
    → length a.store.jobs ≤ 20
    → save_job job a ≡ (ok tt, b)
    → (find_job job.id b ≡ (ok job, b))
      × (find_job job.id (restarted b) ≡ (ok job, restarted b))
      × (length b.store.jobs ≤ 20)
unfolding save_job find_job lookup_value
save_job-find_job job a b h e = ground (
  arith,
  lookup-set_value job.id job.id job a.jobs,
  str_eq_iff job.id job.id,
  length-by_id a.store.jobs,
  last_jobs-set_value job.id job (by_id a.store.jobs),
  length-last_jobs (set_value job.id job (by_id a.store.jobs)),
)
