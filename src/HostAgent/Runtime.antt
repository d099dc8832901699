-- ===== src/HostAgent/Runtime.antt =====
-- The files of the runtime: `_copy_file`, `_replace_directory`, `_deploy_runtime` and
-- `_restore_runtime`. A directory is its files by relative path.
pub mod Restore
use wolt.Prelude.{
  ℕ, suc, String, str_eq, Bool, true, false, Option, none, some, List, [], ◌∷◌, ◌++◌, has_prefix,
  append, concat, if◌then◌else◌, ◌==◌,
}
use Prim.Native.Char.{code}
use wolt.Errors.{Result, ok, err, or_raise, agent_error, os_error}
use wolt.HostAgent.{
  AgentConfig, Agent, Machine, RuntimeBackup, Bundle, Step, ◌>>=◌, ◌>>◌, pure, raise, lift, on_disk,
  draw,
}
use wolt.HostAgent.EnvFile.{Values, lookup_value, set_value}

-- `runtime_dir` and `agent_install_dir`
pub data Directory : Type 0 where
  runtime_tree agent_tree : Directory

abbrev pub contents : Directory → Agent → Option Values
contents runtime_tree a = a.runtime_dir
contents agent_tree a = a.agent_dir

abbrev pub put : Directory → Option Values → Agent → Agent
put runtime_tree files a = record a { runtime_dir = files }
put agent_tree files a = record a { agent_dir = files }

-- `shutil.rmtree`: where it fails, a part of the directory is left.
unfoldable pub remove_tree : Machine → Directory → Step Unit
remove_tree host d a = elim (contents d a) [
  | none ↦ (ok tt, a)
  | some files ↦
      let tried = record a { writes = suc a.writes } in
      if host.disk a.writes
      then (ok tt, put d none tried)
      else (err os_error, put d (some (host.remains a.writes files)) tried)
]

-- `shutil.rmtree(…, ignore_errors=True)`
abbrev pub try_remove_tree : Machine → Directory → Step Unit
try_remove_tree host d a = (ok tt, (remove_tree host d a).1)

-- `_replace_directory`: the copy, the removal of the destination, and `os.replace`.
unfoldable pub replace_directory : Machine → Directory → Values → Step Unit
unfolding remove_tree on_disk
replace_directory host d source = do
  on_disk host (λ a. a)
  remove_tree host d
  on_disk host (put d (some source))

-- `_copy_file`
unfoldable pub copy_file : Machine → Option String → String → Step Unit
unfolding on_disk set_value
copy_file host none destination = raise os_error
copy_file host (some content) destination =
    on_disk host (λ a. record a { files = set_value destination content a.files })

unfoldable pub without_key {ℓ} : {A : Type ℓ} → String → List (String × A) → List (String × A)
without_key k [] = []
without_key k ((j, v) ∷ d) =
    let rest = without_key k d in if str_eq j k then rest else (j, v) ∷ rest

-- `destination.unlink(missing_ok=True)`
unfoldable pub unlink : Machine → String → Step Unit
unfolding on_disk without_key
unlink host destination = on_disk host (λ a. record a { files = without_key destination a.files })

abbrev pub in_project : AgentConfig → String → String
in_project config name = concat (config.project_dir ∷ "/" ∷ name ∷ [])

-- The copy of what is there. The file of each name is read in the project's directory.
abbrev pub snapshot : AgentConfig → Agent → RuntimeBackup
snapshot config a = record {
  compose_web = lookup_value (in_project config "compose.web.yml") a.files;
  compose_host = lookup_value (in_project config "compose.host-agent.yml") a.files;
  version = lookup_value (in_project config "VERSION") a.files;
  runtime = a.runtime_dir;
  agent = a.agent_dir;
}

-- One file of `_restore_runtime`.
abbrev pub restore_file : Machine → Option String → String → Step Unit
restore_file host none destination = unlink host destination
restore_file host (some content) destination = copy_file host (some content) destination

abbrev pub restore_directory : Machine → Directory → Option Values → Step Unit
restore_directory host d none = try_remove_tree host d
restore_directory host d (some files) = replace_directory host d files

-- The part of `_restore_runtime` after the copy's manifest is read.
unfoldable pub restore_from : AgentConfig → Machine → RuntimeBackup → Step Unit
unfolding copy_file unlink replace_directory remove_tree
restore_from config host backup = do
  restore_file host backup.compose_web config.compose_file
  restore_file host backup.compose_host config.host_agent_compose_file
  restore_file host backup.version (in_project config "VERSION")
  restore_directory host runtime_tree backup.runtime
  restore_directory host agent_tree backup.agent

-- `_restore_runtime`, from the copy with this id.
unfoldable pub restore_runtime : AgentConfig → Machine → String → Step Unit
unfolding restore_from lookup_value
restore_runtime config host id a = elim (lookup_value id a.backups) [
  | none ↦ (err (agent_error "runtime_backup_unavailable" 502), a)
  | some backup ↦ restore_from config host backup a
]

-- A path after the directory that it starts with.
unfoldable pub below : String → String → Option String
below String.[] path = some path
below (String.◌∷◌ a p) String.[] = none
below (String.◌∷◌ a p) (String.◌∷◌ c s) = if code a == code c then below p s else none

abbrev pub add_below : Option String → String → Values → Values
add_below none content files = files
add_below (some path) content files = (path, content) ∷ files

-- The files of a directory of the bundle, by their paths in the directory.
unfoldable pub inside : String → Values → Values
unfolding below
inside prefix [] = []
inside prefix ((path, content) ∷ files) =
    add_below (below prefix path) content (inside prefix files)

-- The same files, by their paths in the bundle.
unfoldable pub under : String → Values → Values
unfolding has_prefix
under prefix [] = []
under prefix ((path, content) ∷ files) =
    let rest = under prefix files in if has_prefix prefix path then (path, content) ∷ rest else rest

-- The part of `_deploy_runtime` that puts the bundle in place.
unfoldable pub install_bundle : AgentConfig → Machine → Bundle → Step Unit
unfolding copy_file replace_directory under inside lookup_value
install_bundle config host source = do
  copy_file host (lookup_value "compose.web.yml" source.files) config.compose_file
  copy_file host (lookup_value "compose.host-agent.yml" source.files) config.host_agent_compose_file
  copy_file host (lookup_value "VERSION" source.files) (in_project config "VERSION")
  on_disk host (λ a. a)
  replace_directory host runtime_tree
      (under "scripts/" source.files ++ under "host_agent/" source.files)
  on_disk host (λ a. a)
  replace_directory host agent_tree (inside "host_agent/" source.files)

-- `except Exception: cleanup; raise`
abbrev pub on_failure : {A : Type 0} → Step Unit → Step A → Step A
on_failure cleanup m a =
    let r = m a in elim (r.0) [ ok x ↦ (ok x, r.1) | err e ↦ (cleanup >> raise e) (r.1) ]

abbrev pub keep_backup : AgentConfig → String → Agent → Agent
keep_backup config id a = record a { backups = set_value id (snapshot config a) a.backups }

-- `_deploy_runtime`
unfoldable pub deploy_runtime : AgentConfig → Machine → Bundle → Step String
unfolding install_bundle restore_runtime on_disk
deploy_runtime config host source = do
  id ← draw host
  on_disk host (keep_backup config id)
  on_failure (restore_runtime config host id) (install_bundle config host source)
  pure id
