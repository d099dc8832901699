-- ===== src/HostAgent/Upgrade.antt =====
-- The jobs "upgrade" and "rollback": the branches of `_execute_job`, which give whether the agent is
-- to be restarted.
pub mod Noted
use wolt.Prelude.{
  ℕ, String, Bool, true, false, Option, none, some, [], ◌∷◌, is_empty, if◌then◌else◌,
}
use wolt.Errors.{Error, Result, ok, err, agent_error}
use wolt.Json.{Fields, get_text}
use wolt.HostAgent.{
  AgentConfig, Machine, Rule, Rollback, other, Step, ◌>>=◌, ◌>>◌, pure, raise, lift, read_store,
  write_store, run, on_disk, read_env, update_env,
}
use wolt.HostAgent.EnvFile.{Values, lookup_value}
use wolt.HostAgent.Health.{healthy}
use wolt.HostAgent.Runtime.{without_key, on_failure, deploy_runtime, restore_runtime}
use wolt.HostAgent.Image.{
  is_version, verified_image, current_image, canonical_version, extract_runtime,
}
use wolt.HostAgent.Database.{database_backup, database_restore}
use wolt.HostAgent.Deployment.{value_or, up, restore_firewall}

abbrev unless : Bool → Error → Step Unit
unless true e = pure tt
unless false e = raise e

-- `old.get("WOLT_IMAGE") or self._current_image()`
abbrev image_or_current : AgentConfig → Machine → Values → Step String
image_or_current config host old = elim (lookup_value "WOLT_IMAGE" old) [
  | none ↦ current_image config host
  | some image ↦ if is_empty image then current_image config host else pure image
]

abbrev image_env : String → String → Values
image_env image version = ("WOLT_IMAGE", image) ∷ ("WOLT_VERSION", version) ∷ []

-- `try: … except Exception: log`
abbrev pub quietly : Step Unit → Step Unit
quietly m a = (ok tt, (m a).1)

-- What an upgrade that failed after the runtime was deployed puts back.
unfoldable pub undo_upgrade : AgentConfig → Machine → Values → String → String → Step Unit
unfolding update_env restore_runtime database_restore run
undo_upgrade config host old_env dump copy = do
  update_env host old_env
  restore_runtime config host copy
  database_restore config host dump
  up host

-- The part of an upgrade in which the new image is started.
unfoldable pub start_image : Machine → String → String → Step Unit
unfolding update_env run healthy
start_image host image version = do
  update_env host (image_env image (canonical_version version))
  up host
  good ← healthy host
  unless good (agent_error "upgrade_health_check_failed" 502)

-- `Path(previous_backup).unlink(missing_ok=True)`
abbrev drop_dump : Machine → Option String → Step Unit
drop_dump host none = pure tt
drop_dump host (some path) =
    if is_empty path
    then pure tt
    else on_disk host (λ a. record a { dumps = without_key path a.dumps })

-- `shutil.rmtree(previous_runtime, ignore_errors=True)`
abbrev drop_copy : Machine → Option String → Step Unit
drop_copy host none = pure tt
drop_copy host (some id) =
    quietly (on_disk host (λ a. record a { backups = without_key id a.backups }))

abbrev dump_of : Option Rollback → Option String
dump_of none = none
dump_of (some r) = r.database_backup

abbrev copy_of : Option Rollback → Option String
copy_of none = none
copy_of (some r) = r.runtime_backup

abbrev clock_of : Step ℕ
clock_of a = (ok a.clock, a)

-- What an upgrade writes to the state file.
unfoldable pub record_upgrade : Machine → String → Values → String → String → Step Unit
unfolding without_key on_disk
record_upgrade host image old_env dump copy = do
  state ← read_store
  drop_dump host (dump_of state.rollback)
  drop_copy host (copy_of state.rollback)
  now ← clock_of
  write_store (record state {
    last_successful = some (image, host.seconds now);
    rollback = some (record {
      env = old_env;
      firewall = none;
      database_backup = some dump;
      runtime_backup = some copy;
    });
  })

-- The branch "upgrade", for the version that the payload names.
unfoldable pub upgrade : AgentConfig → Machine → Fields → Step Bool
unfolding get_text is_version read_env lookup_value current_image verified_image run extract_runtime
    database_backup deploy_runtime undo_upgrade start_image record_upgrade
upgrade config host payload = do
  let version = get_text host.str_of "version" payload
  unless (is_version host version) (agent_error "invalid_release_version" 400)
  old ← read_env
  old_image ← image_or_current config host old
  let old_env = image_env old_image (value_or "unknown" "WOLT_VERSION" old)
  image ← verified_image config host version
  run host (other (config.docker_binary ∷ "pull" ∷ image ∷ []))
  bundle ← extract_runtime config host image version
  dump ← database_backup config host
  copy ← deploy_runtime config host bundle
  on_failure (quietly (undo_upgrade config host old_env dump copy)) (start_image host image version)
  record_upgrade host image old_env dump copy
  pure true

abbrev restore_copy : AgentConfig → Machine → Option String → Step Bool
restore_copy config host none = pure false
restore_copy config host (some id) = restore_runtime config host id >> pure true

abbrev restore_dump : AgentConfig → Machine → Option String → Step Unit
restore_dump config host none = pure tt
restore_dump config host (some path) = database_restore config host path

abbrev restore_rule : Machine → Option (Option Rule) → Step Unit
restore_rule host none = pure tt
restore_rule host (some previous) = restore_firewall host previous

-- The branch "rollback", to what the last operation has noted.
unfoldable pub roll_back : AgentConfig → Machine → Rollback → Step Bool
unfolding update_env restore_runtime database_restore run healthy
roll_back config host noted = do
  update_env host noted.env
  restart ← restore_copy config host noted.runtime_backup
  restore_dump config host noted.database_backup
  restore_rule host noted.firewall
  up host
  good ← healthy host
  unless good (agent_error "rollback_health_check_failed" 502)
  pure restart

abbrev is_nil : Values → Bool
is_nil [] = true
is_nil (p ∷ rest) = false

abbrev noted_rollback : Option Rollback → Result Rollback
noted_rollback none = err (agent_error "rollback_not_available" 400)
noted_rollback (some noted) =
    if is_nil noted.env then err (agent_error "rollback_not_available" 400) else ok noted

unfoldable pub rollback : AgentConfig → Machine → Step Bool
unfolding roll_back
rollback config host = do
  state ← read_store
  noted ← lift (noted_rollback state.rollback)
  roll_back config host noted
