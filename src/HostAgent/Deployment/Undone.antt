-- ===== src/HostAgent/Deployment/Undone.antt =====
-- What a deployment that fails its health check leaves in the firewall.
use wolt.Prelude.{◌≡◌, Option, none, some, [], ◌∷◌, pos}
use wolt.Errors.{ok}
use wolt.HostAgent.{Agent, Machine, Rule, Command, compose}
use wolt.HostAgent.Firewall.{network_values}
use wolt.HostAgent.Firewall.Managed.{active}

-- The firewall and the state file hold this rule again, with its address and ports checked anew.
abbrev pub Restored : Machine → Option Rule → Agent → Type 0
Restored host none b = (b.store.firewall ≡ none) × (active b.done ≡ [])
Restored host (some p) b =
    (r : Rule) × (network_values host p.source_ip (pos p.udp_start) (pos p.udp_end) ≡ ok r)
    × (b.store.firewall ≡ some r)
    × (active b.done ≡ r ∷ [])

abbrev started : Command
started = compose ("up" ∷ "-d" ∷ "--no-build" ∷ "app" ∷ [])
