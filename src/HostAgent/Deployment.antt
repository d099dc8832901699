-- ===== src/HostAgent/Deployment.antt =====
-- The job "deployment": the branch of `_execute_job`, and what it puts back.
pub mod Undone
use wolt.Prelude.{
  ℕ, String, Bool, true, false, not, ◌&&◌, ◌||◌, Option, none, some, List, [], ◌∷◌, str_eq,
  is_empty, is_some, concat, decimal, if◌then◌else◌, ℤ, pos,
}
use wolt.Errors.{Error, Result, ok, err, or_raise, agent_error, value_error}
use wolt.Json.{Json, number, Fields, get_field, get_text}
use wolt.HostAgent.{
  AgentConfig, Agent, Machine, Rule, Rollback, Stored, Job, JobStatus, running, succeeded, failed,
  Command, other, Step, ◌>>=◌, ◌>>◌, pure, raise, lift, read_store, write_store, run, on_disk,
  read_env, update_env, run_compose,
}
use wolt.HostAgent.EnvFile.{Values, lookup_value}
use wolt.HostAgent.Firewall.{network_values, apply_firewall, remove_firewall}
use wolt.HostAgent.Health.{healthy}
use wolt.HostAgent.Jobs.{save_job}
use wolt.HostAgent.Runtime.{without_key, on_failure, deploy_runtime, restore_runtime}
use wolt.HostAgent.Image.{
  is_version, verified_image, current_image, canonical_version, extract_runtime,
}
use wolt.HostAgent.Database.{database_backup, database_restore}

-- `int(payload.get(key, 0))`
unfoldable pub get_int : Machine → String → Fields → Result ℤ
unfolding get_field
get_int host key payload = elim (get_field key payload) [
  | none ↦ ok (pos 0)
  | some v ↦ or_raise (host.int_of v) (value_error "int")
]

abbrev pub value_or : String → String → Values → String
value_or default key values = elim (lookup_value key values) [ none ↦ default | some v ↦ v ]

-- `_compose("up", "-d", "--no-build", "app")`
abbrev pub up : Machine → Step Unit
up host = run_compose host ("up" ∷ "-d" ∷ "--no-build" ∷ "app" ∷ [])

-- `apply_firewall` of a rule of the state file, or `remove_firewall`
abbrev pub restore_firewall : Machine → Option Rule → Step Unit
restore_firewall host none = remove_firewall host
restore_firewall host (some rule) =
    apply_firewall host rule.source_ip (pos rule.udp_start) (pos rule.udp_end) >> pure tt

abbrev published_env : String → String → Values
published_env start last =
    ("WOLT_UDP_PUBLISHED_START", start) ∷ ("WOLT_UDP_PUBLISHED_END", last) ∷ []

-- What a deployment puts back when the health check fails.
unfoldable pub undo_deployment : Machine → Values → Option Rule → Step Unit
unfolding update_env run
undo_deployment host rollback_env previous = do
  update_env host rollback_env
  restore_firewall host previous
  up host

abbrev keep_or_undo : Machine → Bool → Values → Option Rule → Step Unit
keep_or_undo host true rollback_env previous = pure tt
keep_or_undo host false rollback_env previous =
    undo_deployment host rollback_env previous
    >> raise (agent_error "deployment_health_check_failed" 502)

-- The branch "deployment", after its numbers are checked.
unfoldable pub deploy_ports : Machine → Rule → Step Unit
unfolding undo_deployment update_env run read_env lookup_value
deploy_ports host rule = do
  old ← read_env
  state ← read_store
  let rollback_env =
      published_env (value_or "40000" "WOLT_UDP_PUBLISHED_START" old)
        (value_or "40099" "WOLT_UDP_PUBLISHED_END" old)
  update_env host (published_env (decimal rule.udp_start) (decimal rule.udp_end))
  apply_firewall host rule.source_ip (pos rule.udp_start) (pos rule.udp_end)
  up host
  good ← healthy host
  keep_or_undo host good rollback_env state.firewall
  after ← read_store
  write_store (record after {
    deployment = some (rule.udp_start, rule.udp_end);
    rollback = some (record {
      env = rollback_env;
      firewall = some state.firewall;
      database_backup = none;
      runtime_backup = none;
    });
  })

unfoldable pub deployment : Machine → Fields → Step Bool
unfolding deploy_ports get_int
deployment host payload = do
  start ← lift (get_int host "udp_start" payload)
  last ← lift (get_int host "udp_end" payload)
  rule ← lift (network_values host (get_text host.str_of "source_ip" payload) start last)
  deploy_ports host rule
  pure false
