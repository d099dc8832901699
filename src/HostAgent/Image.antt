-- ===== src/HostAgent/Image.antt =====
-- Which image an upgrade runs: `_verified_image`, `_validate_runtime`, `_extract_runtime` and
-- `_current_image`.
pub mod Verified
use Prim.Native.Char.{code}
use wolt.Prelude.{
  ℕ, zero, suc, String, Bool, true, false, not, ◌&&◌, ◌||◌, ◌==◌, leb, Option, none, some, List, [],
  ◌∷◌, ◌++◌, str_eq, is_empty, is_some, strip, has_prefix, append, concat, all_chars, is_digit,
  is_alnum, text_length, if◌then◌else◌,
}
use wolt.Errors.{Error, Result, ok, err, or_raise, agent_error}
use wolt.Json.{
  Json, null, boolean, number, text, array, object, Items, nil, item, Fields, get_field, text_of,
}
use wolt.HostAgent.{
  AgentConfig, Agent, Machine, Bundle, Command, other, compose, Step, ◌>>=◌, ◌>>◌, pure, raise,
  lift, run, on_agent_error, on_disk, draw,
}
use wolt.HostAgent.EnvFile.{Values, lookup_value}
use wolt.HostAgent.Runtime.{below, on_failure}

-- `[A-Za-z0-9.-]`
abbrev is_suffix_char : ℕ → Bool
is_suffix_char c = is_alnum c || (c == 46 || c == 45)

-- The rest of a version, after the "v": how many dots are to come, and whether the number has a
-- digit yet.
unfoldable pub is_version_rest : Machine → ℕ → Bool → String → Bool
is_version_rest host zero seen String.[] = seen
is_version_rest host (suc dots) seen String.[] = false
is_version_rest host zero seen (String.◌∷◌ c s) =
    let more = is_version_rest host zero true s in
    if host.is_decimal (code c)
    then more
    else seen
      && ((code c == 46 || code c == 45) && (not (is_empty s) && all_chars is_suffix_char s))
is_version_rest host (suc dots) seen (String.◌∷◌ c s) =
    let more = is_version_rest host (suc dots) true s in
    let next = is_version_rest host dots false s in
    if host.is_decimal (code c) then more else seen && (code c == 46 && next)

-- `VERSION_PATTERN.fullmatch`
unfoldable pub is_version : Machine → String → Bool
unfolding is_version_rest
is_version host String.[] = false
is_version host (String.◌∷◌ c s) =
    if code c == 118
    then is_version_rest host 2 false s
    else is_version_rest host 2 false (String.◌∷◌ c s)

-- `[0-9a-f]`
abbrev is_hex_lower : ℕ → Bool
is_hex_lower c = is_digit c || (leb 97 c && leb c 102)

-- `sha256:[0-9a-f]{64}`
unfoldable pub is_digest : String → Bool
unfolding below
is_digest s = elim (below "sha256:" s) [
  | none ↦ false
  | some hex ↦ text_length hex == 64 && all_chars is_hex_lower hex
]

-- `[0-9a-f]{12,64}`
unfoldable pub is_container : String → Bool
is_container s = leb 12 (text_length s) && (leb (text_length s) 64 && all_chars is_hex_lower s)

-- `[A-Za-z0-9._/@:-]`
abbrev is_image_char : ℕ → Bool
is_image_char c = is_alnum c || (leb 45 c && leb c 47) || (c == 58 || (c == 64 || c == 95))

-- `IMAGE_REFERENCE_PATTERN.fullmatch`
unfoldable pub is_image : String → Bool
is_image String.[] = false
is_image (String.◌∷◌ c s) =
    is_alnum (code c) && (leb (text_length s) 299 && all_chars is_image_char s)

abbrev key_of : String → Option Json → Option Json
key_of k (some (object fields)) = get_field k fields
key_of k v = none

abbrev first_of : Option Json → Option Json
first_of (some (array (item v rest))) = some v
first_of v = none

abbrev digest_text : Option Json → Option String
digest_text (some (text s)) = if is_digest s then some s else none
digest_text v = none

-- `entries[0]["critical"]["image"]["docker-manifest-digest"]`
abbrev digest_in : Option Json → Option Json
digest_in printed =
    key_of "docker-manifest-digest" (key_of "image" (key_of "critical" (first_of printed)))

-- The digest in what cosign printed; `str` of a value that is no text is not of the pattern's form.
unfoldable pub digest_of : Option Json → Option String
unfolding is_digest get_field
digest_of printed = digest_text (digest_in printed)

abbrev pub failed_signature : Error
failed_signature = agent_error "signature_verification_failed" 502

-- The command line of cosign.
abbrev pub verify_command : AgentConfig → String → Command
verify_command config tagged = other (
    config.cosign_binary ∷ "verify" ∷ "--output" ∷ "json" ∷ "--certificate-identity-regexp"
    ∷ config.signing_identity ∷ "--certificate-oidc-issuer" ∷ config.signing_issuer ∷ tagged ∷ [])

abbrev pub tagged_image : AgentConfig → String → String
tagged_image config version = concat (config.image_repository ∷ ":" ∷ version ∷ [])

abbrev pub pinned_image : AgentConfig → String → String
pinned_image config digest = concat (config.image_repository ∷ "@" ∷ digest ∷ [])

-- `_verified_image`
unfoldable pub verified_image : AgentConfig → Machine → String → Step String
unfolding digest_of run
verified_image config host version a =
    if not (host.present config.cosign_binary)
    then (err (agent_error "signature_verification_unavailable" 503), a)
    else (do
      output ←
          on_agent_error failed_signature
            (run host (verify_command config (tagged_image config version)))
      digest ← lift (or_raise (digest_of (host.parse_json output)) failed_signature)
      pure (pinned_image config digest))
        a

-- `_current_image`
unfoldable pub current_image : AgentConfig → Machine → Step String
unfolding run is_container is_image strip
current_image config host = do
  listed ← run host (compose ("ps" ∷ "-q" ∷ "app" ∷ []))
  lift (or_raise (if is_container (strip listed) then some tt else none) unavailable)
  shown ←
      run host (
        other (config.docker_binary ∷ "inspect" ∷ "--format={{.Config.Image}}" ∷ strip listed ∷ []))
  lift (or_raise (if is_image (strip shown) then some (strip shown) else none) unavailable)
  where
    unavailable : Error
    unavailable = agent_error "current_image_unavailable" 502

-- `version if version.startswith("v") else f"v{version}"`
abbrev pub canonical_version : String → String
canonical_version version = if has_prefix "v" version then version else append "v" version

abbrev has_files : Values → List String → Bool
has_files files [] = true
has_files files (path ∷ paths) = is_some (lookup_value path files) && has_files files paths

abbrev expected_files : List String
expected_files =
    "VERSION" ∷ "compose.web.yml" ∷ "compose.host-agent.yml" ∷ "scripts/init-web-env.sh"
    ∷ "scripts/install-cosign.sh" ∷ "scripts/install-host-agent.sh" ∷ "host_agent/__init__.py"
    ∷ "host_agent/server.py" ∷ []

abbrev is_bundle_version : Option String → String → Bool
is_bundle_version none version = false
is_bundle_version (some content) version = str_eq (strip content) (canonical_version version)

-- `_validate_runtime`
unfoldable pub validate_runtime : Bundle → String → Result Unit
unfolding lookup_value strip has_prefix
validate_runtime root version =
    if root.has_link || not (has_files root.files expected_files)
    then err (agent_error "runtime_bundle_invalid" 502)
    else if not (is_bundle_version (lookup_value "VERSION" root.files) version)
    then err (agent_error "runtime_bundle_version_mismatch" 502)
    else ok tt

-- `_extract_runtime`, with the directory that it makes as its result. The container is removed in
-- any case; whether that succeeds is not looked at, and a removal that raises is not modelled.
unfoldable pub extract_runtime : AgentConfig → Machine → String → String → Step Bundle
unfolding validate_runtime run is_container strip on_disk
extract_runtime config host image version = do
  id ← draw host
  on_disk host (λ a. a)
  created ← run host (other (config.docker_binary ∷ "create" ∷ image ∷ "/bin/true" ∷ []))
  always (removed (strip created))
      (checked (strip created) (concat (config.state_dir ∷ "/runtime-staging-" ∷ id ∷ [])))
  where
    always : Step Unit → Step Bundle → Step Bundle
    always cleanup m a = let r = m a in (r.0, (cleanup (r.1)).1)

    removed : String → Step Unit
    removed container =
        if is_empty container
        then pure tt
        else (run host (other (config.docker_binary ∷ "rm" ∷ "-f" ∷ container ∷ [])) >> pure tt)

    copied : Step Bundle
    copied a = (ok (host.bundle a.done), a)

    checked : String → String → Step Bundle
    checked container staging =
        if not (is_container container)
        then raise (agent_error "runtime_bundle_unavailable" 502)
        else (do
          run host (
              other (
                config.docker_binary
                ∷ "cp"
                ∷ concat (container ∷ ":/opt/wolt-runtime/." ∷ [])
                ∷ staging
                ∷ []))
          bundle ← copied
          lift (validate_runtime bundle version)
          pure bundle)
