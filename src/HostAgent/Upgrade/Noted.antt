-- ===== src/HostAgent/Upgrade/Noted.antt =====
-- What an upgrade that succeeds has done.
use wolt.Prelude.{String, Bool, true, [], ◌∷◌}
use wolt.HostAgent.{AgentConfig, Bundle, Machine, Step, ◌>>=◌, ◌>>◌, pure, run, other}
use wolt.HostAgent.EnvFile.{Values}
use wolt.HostAgent.Deployment.{value_or}
use wolt.HostAgent.Runtime.{on_failure, deploy_runtime}
use wolt.HostAgent.Image.{verified_image, extract_runtime}
use wolt.HostAgent.Database.{database_backup}
use wolt.HostAgent.Upgrade.{
  image_env, image_or_current, quietly, undo_upgrade, start_image, record_upgrade,
}

-- The stages of an upgrade, each with what comes after it.
module _ (config : AgentConfig) (machine : Machine) (version : String) where
  abbrev from_copy : String → Values → String → String → Step Bool
  from_copy image env dump copy =
      on_failure (quietly (undo_upgrade config machine env dump copy))
        (start_image machine image version)
      >> (record_upgrade machine image env dump copy >> pure true)

  abbrev from_dump : String → Values → Bundle → String → Step Bool
  from_dump image env bundle dump =
      deploy_runtime config machine bundle >>= from_copy image env dump

  abbrev from_bundle : String → Values → Bundle → Step Bool
  from_bundle image env bundle = database_backup config machine >>= from_dump image env bundle

  abbrev from_image : Values → String → Step Bool
  from_image env image =
      run machine (other (config.docker_binary ∷ "pull" ∷ image ∷ []))
      >> (extract_runtime config machine image version >>= from_bundle image env)

  abbrev from_old : Values → String → Step Bool
  from_old old old_image =
      verified_image config machine version
      >>= from_image (image_env old_image (value_or "unknown" "WOLT_VERSION" old))

  abbrev from_env : Values → Step Bool
  from_env old = image_or_current config machine old >>= from_old old
