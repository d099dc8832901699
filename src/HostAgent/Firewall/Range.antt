-- ===== src/HostAgent/Firewall/Range.antt =====
-- Which ports and addresses a rule can have.
use wolt.Prelude.{ℕ, String, ◌≡◌, inl, inr, ◌+◌, ◌≤◌, some, arith, ℤ, pos, negsuc, Option-cases}
use wolt.Errors.{ok}
use wolt.HostAgent.{Rule, Machine}
use wolt.HostAgent.Firewall.{checked_range, ranged_rule, network_values}

-- The rule has the numbers that were asked for, and they are an allowed range.
abbrev pub InRange : ℤ → ℤ → Rule → Type 0
InRange start last r =
    (start ≡ pos r.udp_start)
    × (last ≡ pos r.udp_end)
    × (1024 ≤ r.udp_start)
    × (r.udp_start ≤ r.udp_end)
    × (r.udp_end ≤ 65535)
    × (r.udp_end ≤ r.udp_start + 99)

checked_range-ok :
    (a b : ℕ) → checked_range a b ≡ ok tt → (1024 ≤ a) × (a ≤ b) × (b ≤ 65535) × (b ≤ a + 99)
checked_range-ok a b h = ground arith

ranged_rule-InRange :
    (source : String) (start last : ℤ) (r : Rule)
    → ranged_rule source start last ≡ ok r
    → (source ≡ r.source_ip) × InRange start last r
unfolding ranged_rule
ranged_rule-InRange source (pos a) (pos b) r h = ground (arith, checked_range-ok a b)
ranged_rule-InRange source (pos a) (negsuc b) r h = absurd (ground arith)
ranged_rule-InRange source (negsuc a) last r h = absurd (ground arith)

-- A rule of `_network_values` has the address as Python spells it and the numbers that were asked
-- for, which are ports from 1024 to 65535, at most 100 of them and at least one.
pub network_values-InRange :
    (host : Machine) (source_ip : String) (start last : ℤ) (r : Rule)
    → network_values host source_ip start last ≡ ok r
    → (host.ip_text source_ip ≡ some r.source_ip) × InRange start last r
unfolding network_values
network_values-InRange host source_ip start last r h =
    elim (Option-cases (host.ip_text source_ip)) [
      | inl bad ↦ absurd (ground arith)
      | inr (source, e) ↦ ground (arith, ranged_rule-InRange source start last r)
    ]
