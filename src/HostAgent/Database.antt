-- ===== src/HostAgent/Database.antt =====
-- The dump of the database before an upgrade, and its restoration.
use Prim.Native.Char.{code}
use wolt.Prelude.{
  ℕ, String, Bool, false, not, ◌&&◌, ◌||◌, ◌==◌, leb, none, some, List, [], ◌∷◌, is_empty, concat,
  all_chars, is_alnum, is_upper, is_lower, text_length, if◌then◌else◌,
}
use wolt.Errors.{Error, Result, ok, err, or_raise, agent_error}
use wolt.HostAgent.{
  AgentConfig, Machine, Command, other, compose_arguments, Step, ◌>>=◌, ◌>>◌, pure, lift, run,
  on_agent_error, draw, read_env, run_compose,
}
use wolt.HostAgent.EnvFile.{Values, lookup_value, set_value}

abbrev is_quote : ℕ → Bool
is_quote c = c == 34 || c == 39

unfoldable pub lstrip_quotes : String → String
lstrip_quotes String.[] = String.[]
lstrip_quotes (String.◌∷◌ c s) =
    let rest = lstrip_quotes s in if is_quote (code c) then rest else String.◌∷◌ c s

unfoldable pub rstrip_quotes : String → String
rstrip_quotes String.[] = String.[]
rstrip_quotes (String.◌∷◌ c s) =
    let rest = rstrip_quotes s in
    if is_quote (code c) && is_empty rest then String.[] else String.◌∷◌ c rest

-- `DATABASE_IDENTIFIER_PATTERN.fullmatch`
unfoldable pub is_identifier : String → Bool
is_identifier String.[] = false
is_identifier (String.◌∷◌ c s) =
    (is_upper (code c) || (is_lower (code c) || code c == 95))
    && (leb (text_length s) 62 && all_chars (λ d. is_alnum d || d == 95) s)

-- `values.get(key, "wolt").strip("'\"")`
abbrev name_in : String → Values → String
name_in key values = elim (lookup_value key values) [
  | none ↦ "wolt"
  | some v ↦ rstrip_quotes (lstrip_quotes v)
]

-- `_database_identity`
unfoldable pub database_identity : Step (String × String)
unfolding is_identifier lstrip_quotes rstrip_quotes lookup_value read_env
database_identity = do
  values ← read_env
  lift (checked (name_in "WOLT_DB_USER" values) (name_in "WOLT_DB_NAME" values))
  where
    checked : String → String → Result (String × String)
    checked user database =
        if not (is_identifier user) || not (is_identifier database)
        then err (agent_error "invalid_database_identity" 400)
        else ok (user, database)

abbrev in_postgres : AgentConfig → List String → Command
in_postgres config rest = other (compose_arguments config ("exec" ∷ "-T" ∷ "postgres" ∷ rest))

abbrev dump_path : AgentConfig → String → String
dump_path config id = concat (config.state_dir ∷ "/backups/pre-upgrade-" ∷ id ∷ ".dump" ∷ [])

-- `_database_backup`: an empty dump is none.
unfoldable pub database_backup : AgentConfig → Machine → Step String
unfolding database_identity run set_value compose_arguments
database_backup config host = do
  names ← database_identity
  id ← draw host
  dump ← on_agent_error failed (
      run host (
        in_postgres config
          ("pg_dump" ∷ "--format=custom" ∷ "--no-owner" ∷ "-U" ∷ names.0 ∷ "-d" ∷ names.1 ∷ [])))
  keep (dump_path config id) dump
  where
    failed : Error
    failed = agent_error "database_backup_failed" 502

    keep : String → String → Step String
    keep path dump a =
        if is_empty dump
        then (err failed, a)
        else (ok path, record a { dumps = set_value path dump a.dumps })

-- `_database_restore`
unfoldable pub database_restore : AgentConfig → Machine → String → Step Unit
unfolding database_identity run lookup_value compose_arguments
database_restore config host path = do
  (λ a. (or_raise (lookup_value path a.dumps) (agent_error "database_backup_unavailable" 400), a))
  names ← database_identity
  run_compose host ("stop" ∷ "app" ∷ [])
  run host (in_postgres config ("dropdb" ∷ "--force" ∷ "-U" ∷ names.0 ∷ names.1 ∷ []))
  run host (in_postgres config ("createdb" ∷ "-U" ∷ names.0 ∷ names.1 ∷ []))
  on_agent_error (agent_error "database_restore_failed" 502) (
      run host (
        in_postgres config
          ("pg_restore" ∷ "--no-owner" ∷ "--no-privileges" ∷ "-U" ∷ names.0 ∷ "-d" ∷ names.1 ∷ [])))
  pure tt
