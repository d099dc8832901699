-- ===== src/HostAgent/Firewall/Managed.antt =====
-- The managed rule, against what the firewall holds after the commands that the agent has run.
use wolt.Prelude.{
  String, ◌≡◌, refl, inl, inr, ◌⊎◌, true, false, Option, none, some, List, [], ◌∷◌, arith, any, ap,
  if◌then◌else◌, str_eq_iff, Option-cases, ℤ,
}
use wolt.Errors.{Error, Result, agent_error, ok, err}
use wolt.HostAgent.{Rule, Command, ufw_rule, Agent, Machine}
use wolt.HostAgent.Firewall.{same_rule, network_values, run_ufw, remove_firewall}

abbrev pub without : Rule → List Rule → List Rule
without r [] = []
without r (s ∷ rules) = let rest = without r rules in if same_rule r s then rest else s ∷ rest

-- The rules after the commands, the last one first: `ufw` skips a rule that is there already, and
-- deletes nothing where the rule is not there.
unfoldable pub active : List Command → List Rule
active [] = []
active (ufw_rule false r ∷ done) =
    let before = active done in if any (same_rule r) before then before else r ∷ before
active (ufw_rule true r ∷ done) = without r (active done)
active (_ ∷ done) = active done

abbrev pub listed : Option Rule → List Rule
listed none = []
listed (some r) = r ∷ []

-- The firewall holds the rule of the state file, or none: a rule that was deleted is still in the
-- state file when the command for the next one fails.
abbrev pub Within : Agent → Type 0
Within a = (active a.done ≡ []) ⊎ (active a.done ≡ listed a.store.firewall)

-- The agent after a command that succeeded, and after it has written the rule.
abbrev did : Command → Agent → Agent
did c a = record a { done = c ∷ a.done }

abbrev holding : Option Rule → Agent → Agent
holding rule a = record a { store = record a.store { firewall = rule } }

abbrev refused : Error
refused = agent_error "firewall_command_failed" 502

run_ufw-cases :
    (host : Machine) (c : Command) (a : Agent)
    → ((out : String) × (run_ufw host c a ≡ (ok out, did c a)))
      ⊎ (run_ufw host c a ≡ (err refused, a))
unfolding run_ufw
run_ufw-cases host c a = elim (Option-cases (host.answer a.done c)) [
  | inl e ↦ inr (ground (arith, e))
  | inr (out, e) ↦ inl (out, ground (arith, e))
]

same_rule_refl : (r : Rule) → same_rule r r ≡ true
same_rule_refl r = ground (arith, str_eq_iff r.source_ip r.source_ip)

-- What is true after `apply_firewall`: it has set its rule, and this is the only one; or it has
-- failed, the state file is as before, and the firewall holds no other rule than that file's.
abbrev pub Applied : Machine → String → ℤ → ℤ → Agent → Result Rule × Agent → Type 0
Applied host ip start last a (ok r, b) =
    (network_values host ip start last ≡ ok r)
    × (b.store ≡ record a.store { firewall = some r })
    × (active b.done ≡ r ∷ [])
Applied host ip start last a (err e, b) = (b.store ≡ a.store) × Within b

active-delete :
    (p : Rule) (a : Agent)
    → Within a
    → a.store.firewall ≡ some p
    → active (ufw_rule true p ∷ a.done) ≡ []
unfolding active
active-delete p a w o = ground (arith, same_rule_refl p)

-- What is true after `remove_firewall`.
abbrev pub Unmanaged : Agent → Result Unit × Agent → Type 0
Unmanaged a (ok _, b) = (b.store ≡ record a.store { firewall = none }) × (active b.done ≡ [])
Unmanaged a (err e, b) = b ≡ a

remove_firewall-cases :
    (host : Machine) (a : Agent)
    → ((a.store.firewall ≡ none) × (remove_firewall host a ≡ (ok tt, a)))
      ⊎ (remove_firewall host a ≡ (err refused, a))
      ⊎ ((p : Rule) × (a.store.firewall ≡ some p)
          × (remove_firewall host a ≡ (ok tt, holding none (did (ufw_rule true p) a))))
unfolding remove_firewall
remove_firewall-cases host a = elim (Option-cases a.store.firewall) [
  | inl e ↦ inl (e, ground (arith, e))
  | inr (p, e) ↦ elim (run_ufw-cases host (ufw_rule true p) a) [
    | inl (out, f) ↦ inr (inr (p, e, ground (arith, e, f)))
    | inr f ↦ inr (inl (ground (arith, e, f)))
  ]
]

-- `remove_firewall`, where the firewall held no managed rule but the one of the state file: it
-- leaves no managed rule, in the firewall and in the state file, or it fails and changes nothing.
pub remove_firewall-Unmanaged :
    (host : Machine) (a : Agent) → Within a → Unmanaged a (remove_firewall host a)
remove_firewall-Unmanaged host a w = elim (remove_firewall-cases host a) [
  | inl (e, f) ↦ rw f (ap {A = Option Rule} (λ f. record a.store { firewall = f }) e, ground arith)
  | inr (inl f) ↦ rw f refl
  | inr (inr (p, e, f)) ↦ rw f (refl, active-delete p a w e)
]
