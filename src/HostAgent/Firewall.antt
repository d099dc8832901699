-- ===== src/HostAgent/Firewall.antt =====
-- The rule of the firewall that the agent manages.
pub mod Range
pub mod Managed
use wolt.Prelude.{
  ℕ, String, Bool, true, false, not, ◌&&◌, ◌+◌, ◌-◌, ◌==◌, leb, Option, none, some, str_eq, is_some,
  if◌then◌else◌, ℤ, pos, negsuc,
}
use wolt.Errors.{Result, ok, err, agent_error}
use wolt.HostAgent.{
  Rule, Command, ufw_rule, Agent, Machine, Step, ◌>>=◌, ◌>>◌, pure, raise, lift, read_store,
  write_store, run, on_agent_error,
}

-- `start <= end` and the bounds of `_network_values`.
abbrev pub checked_range : ℕ → ℕ → Result Unit
checked_range start last =
    if not (leb 1024 start && (leb start last && leb last 65535))
    then err (agent_error "invalid_published_udp_range" 400)
    else if not (leb (last - start + 1) 100)
    then err (agent_error "published_udp_range_too_wide" 400)
    else ok tt

-- The rule for an address, where the range is allowed; a negative number is out of the range.
unfoldable pub ranged_rule : String → ℤ → ℤ → Result Rule
ranged_rule source (pos start) (pos last) = elim (checked_range start last) [
  | ok _ ↦ ok (record { source_ip = source; udp_start = start; udp_end = last })
  | err e ↦ err e
]
ranged_rule source _ _ = err (agent_error "invalid_published_udp_range" 400)

-- `_network_values`
unfoldable pub network_values : Machine → String → ℤ → ℤ → Result Rule
unfolding ranged_rule
network_values host source_ip start last = elim (host.ip_text source_ip) [
  | none ↦ err (agent_error "invalid_firewall_source_ip" 400)
  | some source ↦ ranged_rule source start last
]

-- `==` of two such dictionaries
abbrev pub same_rule : Rule → Rule → Bool
same_rule r s =
    str_eq r.source_ip s.source_ip && (r.udp_start == s.udp_start && r.udp_end == s.udp_end)

abbrev pub differs : Option Rule → Rule → Bool
differs none current = false
differs (some previous) current = not (same_rule previous current)

pub record Preview : Type 0 where
  pub rule : Rule
  pub previous : Option Rule
  -- `actions` is `["remove_previous_wolt_rule"]`
  pub removes_previous : Bool

-- `_run_ufw`
unfoldable pub run_ufw : Machine → Command → Step String
unfolding run
run_ufw host c = on_agent_error (agent_error "firewall_command_failed" 502) (run host c)

unfoldable pub firewall_preview : Machine → String → ℤ → ℤ → Step Preview
unfolding network_values
firewall_preview host source_ip start last = do
  rule ← lift (network_values host source_ip start last)
  state ← read_store
  pure (record {
    rule = rule;
    previous = state.firewall;
    removes_previous = differs state.firewall rule;
  })

abbrev remove_previous : Machine → Option Rule → Rule → Step Unit
remove_previous host none current = pure tt
remove_previous host (some previous) current =
    if not (same_rule previous current)
    then (run_ufw host (ufw_rule true previous) >> pure tt)
    else pure tt

unfoldable pub apply_firewall : Machine → String → ℤ → ℤ → Step Rule
unfolding firewall_preview run_ufw
apply_firewall host source_ip start last = do
  preview ← firewall_preview host source_ip start last
  remove_previous host preview.previous preview.rule
  run_ufw host (ufw_rule false preview.rule)
  state ← read_store
  write_store (record state { firewall = some preview.rule })
  pure preview.rule

unfoldable pub remove_firewall : Machine → Step Unit
unfolding run_ufw
remove_firewall host = do
  state ← read_store
  elim (state.firewall) [
    | none ↦ pure tt
    | some current ↦
        run_ufw host (ufw_rule true current) >> write_store (record state { firewall = none })
  ]
