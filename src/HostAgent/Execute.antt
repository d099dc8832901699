-- ===== src/HostAgent/Execute.antt =====
-- `_execute_job`: an operation, and how its outcome is noted.
pub mod Ends
use wolt.Prelude.{
  ℕ, String, Bool, true, false, not, ◌&&◌, ◌||◌, Option, none, some, List, [], ◌∷◌, str_eq,
  is_empty, is_some, concat, decimal, if◌then◌else◌, ℤ, pos,
}
use wolt.Errors.{Error, Result, ok, err, or_raise, agent_error, value_error}
use wolt.Json.{Json, number, Fields, get_field, get_text}
use wolt.HostAgent.{
  AgentConfig, Agent, Machine, Rule, Rollback, Stored, Job, JobStatus, running, succeeded, failed,
  Command, other, Step, ◌>>=◌, ◌>>◌, pure, raise, lift, read_store, write_store, run, on_disk,
  read_env, update_env, run_compose,
}
use wolt.HostAgent.EnvFile.{Values, lookup_value}
use wolt.HostAgent.Firewall.{network_values, apply_firewall, remove_firewall}
use wolt.HostAgent.Health.{healthy}
use wolt.HostAgent.Jobs.{save_job}
use wolt.HostAgent.Runtime.{without_key, on_failure, deploy_runtime, restore_runtime}
use wolt.HostAgent.Image.{
  is_version, verified_image, current_image, canonical_version, extract_runtime,
}
use wolt.HostAgent.Database.{database_backup, database_restore}
use wolt.HostAgent.Deployment.{deployment}
use wolt.HostAgent.Upgrade.{upgrade, rollback, quietly}

abbrev has_installer : Option Values → Bool
has_installer none = false
has_installer (some files) = is_some (lookup_value "scripts/install-host-agent.sh" files)

abbrev can_refresh : AgentConfig → Machine → Agent → Bool
can_refresh config host a = host.present config.systemd_run_binary && has_installer a.runtime_dir

abbrev refresh_command : AgentConfig → Machine → Agent → Command
refresh_command config host a = other (
    config.systemd_run_binary
    ∷ concat ("--unit=wolt-host-agent-refresh-" ∷ decimal (host.seconds a.clock) ∷ [])
    ∷ "--on-active=5s"
    ∷ config.installer
    ∷ config.project_dir
    ∷ [])

-- `_schedule_agent_refresh`
unfoldable pub schedule_agent_refresh : AgentConfig → Machine → Step Unit
unfolding lookup_value run decimal
schedule_agent_refresh config host a =
    if can_refresh config host a
    then quietly (run host (refresh_command config host a) >> pure tt) a
    else (ok tt, a)

abbrev pub operation_of : AgentConfig → Machine → String → Fields → Step Bool
operation_of config host operation payload =
    if str_eq operation "deployment"
    then deployment host payload
    else if str_eq operation "upgrade"
    then upgrade config host payload
    else rollback config host

abbrev pub ended : String → String → JobStatus → Option String → Job
ended job_id operation status error = record {
  id = job_id;
  operation = operation;
  status = status;
  error = error;
}

-- `exc.detail if isinstance(exc, AgentError) else "host_operation_failed"`
abbrev pub detail : Error → String
detail (agent_error why _) = why
detail _ = "host_operation_failed"

abbrev refresh_if : AgentConfig → Machine → Bool → Step Unit
refresh_if config host true = schedule_agent_refresh config host
refresh_if config host false = pure tt

-- What `_execute_job` does with the outcome of the operation.
abbrev record_outcome : AgentConfig → Machine → String → String → Result Bool → Step Unit
record_outcome config host job_id operation (ok restart) =
    save_job (ended job_id operation succeeded none) >> refresh_if config host restart
record_outcome config host job_id operation (err e) =
    save_job (ended job_id operation failed (some (detail e)))

-- `_execute_job`
unfoldable pub execute_job : AgentConfig → Machine → String → String → Fields → Step Unit
unfolding deployment upgrade rollback save_job schedule_agent_refresh
execute_job config host job_id operation payload a =
    let done = operation_of config host operation payload a in
    record_outcome config host job_id operation (done.0) (done.1)
