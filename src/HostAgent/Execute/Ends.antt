-- ===== src/HostAgent/Execute/Ends.antt =====
-- How a job ends.
use wolt.Prelude.{String, ◌≡◌, Bool, none, some}
use wolt.Errors.{Result, ok, err}
use wolt.HostAgent.{Job, succeeded, failed}
use wolt.HostAgent.Execute.{ended, detail}

-- The result of a job: it succeeded, or it failed for a reason.
abbrev pub Ended : String → String → Result Bool → Job → Type 0
Ended job_id operation (ok restart) job = job ≡ ended job_id operation succeeded none
Ended job_id operation (err e) job = job ≡ ended job_id operation failed (some (detail e))
