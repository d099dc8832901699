-- ===== src/HostAgent/Runtime/Restore.antt =====
-- What a restored runtime is.
use wolt.Prelude.{
  ℕ, suc, String, Bool, true, ◌≡◌, refl, ◌∙◌, ap, inl, inr, Option, none, some, [], ◌∷◌, arith,
  str_eq, str_eq_iff, if◌then◌else◌, ◌||◌, Option-cases,
}
use wolt.Errors.{ok}
use wolt.HostAgent.{then_ok, ◌>>◌, AgentConfig, Agent, Machine, RuntimeBackup, on_disk}
use wolt.HostAgent.EnvFile.{Values, lookup_value, set_value}
use wolt.HostAgent.EnvFile.Values.{lookup-set_value}
use wolt.HostAgent.Runtime.{
  without_key, restore_file, restore_directory, restore_runtime, restore_from, snapshot, Directory,
  runtime_tree, agent_tree, put, in_project, copy_file, unlink, remove_tree, replace_directory,
}

lookup-without_key :
    (k j : String) (d : Values)
    → lookup_value k (without_key j d) ≡ (if str_eq j k then none else lookup_value k d)
unfolding lookup_value without_key
lookup-without_key k j [] = ground arith
lookup-without_key k j ((i, v) ∷ d) =
    ground (arith, str_eq_iff i j, str_eq_iff i k, str_eq_iff j k, lookup-without_key k j d)

-- A file as it was: with its content, or absent.
abbrev as_it_was : String → Option String → Values → Values
as_it_was path none files = without_key path files
as_it_was path (some content) files = set_value path content files

lookup-as_it_was :
    (k path : String) (o : Option String) (files : Values)
    → lookup_value k (as_it_was path o files) ≡ (if str_eq path k then o else lookup_value k files)
lookup-as_it_was k path none files = lookup-without_key k path files
lookup-as_it_was k path (some content) files = lookup-set_value k path content files

module _ (host : Machine) (works : (n : ℕ) → host.disk n ≡ true) where
  restore_file-works :
      (o : Option String) (path : String) (a : Agent)
      → restore_file host o path a
        ≡ (ok tt, record a { files = as_it_was path o a.files; writes = suc a.writes })
  unfolding unlink copy_file on_disk
  restore_file-works none path a = rw (works a.writes) refl
  restore_file-works (some content) path a = rw (works a.writes) refl

  on_disk-works :
      (change : Agent → Agent) (a : Agent)
      → on_disk host change a ≡ (ok tt, change (record a { writes = suc a.writes }))
  unfolding on_disk
  on_disk-works change a = rw (works a.writes) refl

  remove_tree-works :
      (d : Directory) (a : Agent)
      → (n : ℕ) × (remove_tree host d a ≡ (ok tt, put d none (record a { writes = n })))
  unfolding remove_tree
  remove_tree-works runtime_tree a = elim (Option-cases a.runtime_dir) [
    | inl e ↦ (a.writes, ground (arith, e))
    | inr (files, e) ↦ (suc a.writes, ground (arith, e, works a.writes))
  ]
  remove_tree-works agent_tree a = elim (Option-cases a.agent_dir) [
    | inl e ↦ (a.writes, ground (arith, e))
    | inr (files, e) ↦ (suc a.writes, ground (arith, e, works a.writes))
  ]

  put_twice :
      (d : Directory) (o : Option Values) (n m : ℕ) (a : Agent)
      → put d o (record (put d none (record a { writes = n })) { writes = m })
        ≡ put d o (record a { writes = m })
  put_twice runtime_tree o n m a = refl
  put_twice agent_tree o n m a = refl

  restore_directory-works :
      (d : Directory) (o : Option Values) (a : Agent)
      → (n : ℕ) × (restore_directory host d o a ≡ (ok tt, put d o (record a { writes = n })))
  unfolding replace_directory
  restore_directory-works d none a = let (n, e) = remove_tree-works d a in (n, ground (arith, e))
  restore_directory-works d (some files) a =
      let b = record a { writes = suc a.writes } in
      let (n, e) = remove_tree-works d b in
      let c = put d none (record b { writes = n }) in
      (
        suc c.writes,
        then_ok (on_disk host (λ x. x)) (remove_tree host d >> on_disk host (put d (some files))) a
              b tt (on_disk-works (λ x. x) a)
            ∙ then_ok (remove_tree host d) (on_disk host (put d (some files))) b c tt e
            ∙ on_disk-works (put d (some files)) c
            ∙ ap (λ x. (ok tt, x)) (put_twice d (some files) n (suc c.writes) a),
      )

  restore_runtime-from :
      (config : AgentConfig) (id : String) (backup : RuntimeBackup) (a : Agent)
      → lookup_value id a.backups ≡ some backup
      → restore_runtime config host id a ≡ restore_from config host backup a
  unfolding restore_runtime
  restore_runtime-from config id backup a there = ground (arith, there)

  -- All of `_restore_runtime`.
  restore_runtime-works :
      (config : AgentConfig) (id : String) (backup : RuntimeBackup) (a : Agent)
      → lookup_value id a.backups ≡ some backup
      → (n : ℕ) × (restore_runtime config host id a ≡ (
        ok tt,
        record a {
          files = as_it_was (in_project config "VERSION") backup.version (
              as_it_was config.host_agent_compose_file backup.compose_host
                (as_it_was config.compose_file backup.compose_web a.files));
          runtime_dir = backup.runtime;
          agent_dir = backup.agent;
          writes = n;
        },
      ))
  unfolding restore_from
  restore_runtime-works config id backup a there =
      let to_version = in_project config "VERSION" in
      let b = record a {
        files = as_it_was config.compose_file backup.compose_web a.files;
        writes = suc a.writes;
      } in
      let c = record b {
        files = as_it_was config.host_agent_compose_file backup.compose_host b.files;
        writes = suc b.writes;
      } in
      let d = record c {
        files = as_it_was to_version backup.version c.files;
        writes = suc c.writes;
      } in
      let (n, e) = restore_directory-works runtime_tree backup.runtime d in
      let (m, f) =
        restore_directory-works agent_tree backup.agent
          (put runtime_tree backup.runtime (record d { writes = n })) in
      let to_agent = restore_directory host agent_tree backup.agent in
      let to_runtime = restore_directory host runtime_tree backup.runtime >> to_agent in
      let versioned = restore_file host backup.version to_version in
      let hosted = restore_file host backup.compose_host config.host_agent_compose_file in
      let web = restore_file host backup.compose_web config.compose_file in
      (
        m,
        restore_runtime-from config id backup a there
            ∙ then_ok web (hosted >> (versioned >> to_runtime)) a b tt
                (restore_file-works backup.compose_web config.compose_file a)
            ∙ then_ok hosted (versioned >> to_runtime) b c tt
                (restore_file-works backup.compose_host config.host_agent_compose_file b)
            ∙ then_ok versioned to_runtime c d tt (restore_file-works backup.version to_version c)
            ∙ then_ok (restore_directory host runtime_tree backup.runtime) to_agent d
                (put runtime_tree backup.runtime (record d { writes = n })) tt e
            ∙ f,
      )

-- The files of a runtime by path, where it is at the places that are copied.
abbrev pub runtime_file : AgentConfig → String → Bool
runtime_file config path =
    str_eq (in_project config "VERSION") path
    || (str_eq config.host_agent_compose_file path || str_eq config.compose_file path)

-- `_restore_runtime` on a disk that works, from a copy that was made of another state of the
-- agent, where the two compose files are the project's own: it succeeds, the two directories and
-- the three files are as they were when the copy was made, and the other files stay as they are.
pub restore_runtime-snapshot :
    (config : AgentConfig) (host : Machine) (id path : String) (old a : Agent)
    → ((n : ℕ) → host.disk n ≡ true)
    → config.compose_file ≡ in_project config "compose.web.yml"
    → config.host_agent_compose_file ≡ in_project config "compose.host-agent.yml"
    → lookup_value id a.backups ≡ some (snapshot config old)
    → (b : Agent) × (restore_runtime config host id a ≡ (ok tt, b))
      × (lookup_value path b.files
          ≡ lookup_value path (if runtime_file config path then old.files else a.files))
      × (b.runtime_dir ≡ old.runtime_dir)
      × (b.agent_dir ≡ old.agent_dir)
restore_runtime-snapshot config host id path old a works web hosted there =
    let s = snapshot config old in
    let (n, e) = restore_runtime-works host works config id s a there in
    let version = in_project config "VERSION" in
    let one = as_it_was config.compose_file s.compose_web a.files in
    let two = as_it_was config.host_agent_compose_file s.compose_host one in
    (
      _,
      e,
      ground (
        arith,
        web,
        hosted,
        lookup-as_it_was path version s.version two,
        lookup-as_it_was path config.host_agent_compose_file s.compose_host one,
        lookup-as_it_was path config.compose_file s.compose_web a.files,
        str_eq_iff version path,
        str_eq_iff config.host_agent_compose_file path,
        str_eq_iff config.compose_file path,
      ),
      refl,
      refl,
    )
