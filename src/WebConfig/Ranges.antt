-- ===== src/WebConfig/Ranges.antt =====
-- The bounds of the settings, and what the host agent makes of the published range.
use wolt.Prelude.{ℕ, String, ◌≡◌, ◌≤◌, Option, none, some, arith, ℤ, pos, negsuc, append}
use wolt.Errors.{bind-ok, ok}
use wolt.HostAgent.{Machine}
use wolt.HostAgent.Firewall.{checked_range, network_values}
use mathlib.Core.Path.{subst}
use wolt.WebConfig.{
  Library, Environ, WebSettings, within, get_or, boolean, web_port, udp_port, hours_of,
  checked_master_key, checked_token, checked_ports, database_url_of, from_env,
}

ok_injective : {A : Type 0} {x y : A} → ok x ≡ ok y → x ≡ y
ok_injective h = ground arith

within-ok :
    (low high : ℕ) (integer range : String) (o : Option ℤ) (n : ℕ)
    → within low high integer o range ≡ ok n
    → (low ≤ n) × (n ≤ high)
within-ok low high integer range none n h = absurd (ground arith)
within-ok low high integer range (some (pos m)) n h = ground arith
within-ok low high integer range (some (negsuc m)) n h = absurd (ground arith)

checked_ports-range :
    (a b : ℕ) → 1024 ≤ a → b ≤ 65535 → checked_ports a b ≡ ok tt → checked_range a b ≡ ok tt
unfolding checked_ports
checked_ports-range a b l h c = ground arith

-- What `from_env` has made sure of.
abbrev pub Bounded : WebSettings → Type 0
Bounded s =
    (1 ≤ s.port)
    × (s.port ≤ 65535)
    × (1 ≤ s.session_hours)
    × (s.session_hours ≤ 168)
    × (checked_range s.udp_published_start s.udp_published_end ≡ ok tt)

udp_port-ok :
    (lib : Library) (value name : String) (n : ℕ)
    → udp_port lib value name ≡ ok n
    → (1024 ≤ n) × (n ≤ 65535)
unfolding udp_port
udp_port-ok lib value name n h =
    within-ok 1024 65535 (append name " must be an integer")
      (append name " must be between 1024 and 65535") (lib.int_of value) n h

web_port-ok :
    (lib : Library) (value : String) (n : ℕ) → web_port lib value ≡ ok n → (1 ≤ n) × (n ≤ 65535)
unfolding web_port
web_port-ok lib value n h =
    within-ok 1 65535 "WOLT_WEB_PORT must be an integer" "WOLT_WEB_PORT must be between 1 and 65535"
      (lib.int_of value) n h

hours_of-ok :
    (lib : Library) (value : String) (n : ℕ) → hours_of lib value ≡ ok n → (1 ≤ n) × (n ≤ 168)
unfolding hours_of
hours_of-ok lib value n h =
    within-ok 1 168 "WOLT_SESSION_HOURS must be an integer"
      "WOLT_SESSION_HOURS must be between 1 and 168" (lib.int_of value) n h

from_env-Bounded :
    (lib : Library) (env : Environ) (s : WebSettings) → from_env lib env ≡ ok s → Bounded s
unfolding from_env
from_env-Bounded lib env s h =
    let from = get_or "40000" "WOLT_UDP_PUBLISHED_START" env in
    let to = get_or "40099" "WOLT_UDP_PUBLISHED_END" env in
    let (url, _, h1) = bind-ok (database_url_of lib env) _ s h in
    let (start, first, h2) = bind-ok (udp_port lib from "WOLT_UDP_PUBLISHED_START") _ s h1 in
    let (last, second, h3) = bind-ok (udp_port lib to "WOLT_UDP_PUBLISHED_END") _ s h2 in
    let (u, ports, h4) = bind-ok (checked_ports start last) _ s h3 in
    let (port, web, h5) = bind-ok (web_port lib (get_or "8080" "WOLT_WEB_PORT" env)) _ s h4 in
    let (migrate, _, h6) =
      bind-ok (boolean lib (get_or "false" "WOLT_AUTO_MIGRATE" env) "WOLT_AUTO_MIGRATE") _ s h5 in
    let (key, _, h7) = bind-ok (checked_master_key lib (get_or "" "WOLT_MASTER_KEY" env)) _ s h6 in
    let (secure, _, h8) =
      bind-ok (boolean lib (get_or "false" "WOLT_SESSION_SECURE" env) "WOLT_SESSION_SECURE") _ s
        h7 in
    let (hours, hour, h9) = bind-ok (hours_of lib (get_or "12" "WOLT_SESSION_HOURS" env)) _ s h8 in
    let (token, _, made) = bind-ok (checked_token (get_or "" "WOLT_HOST_AGENT_TOKEN" env)) _ s h9 in
    let (low, _) = udp_port-ok lib from "WOLT_UDP_PUBLISHED_START" start first in
    let (_, high) = udp_port-ok lib to "WOLT_UDP_PUBLISHED_END" last second in
    let (p1, p2) = web_port-ok lib (get_or "8080" "WOLT_WEB_PORT" env) port web in
    let (t1, t2) = hours_of-ok lib (get_or "12" "WOLT_SESSION_HOURS" env) hours hour in
    subst Bounded (ok_injective made)
      (p1, p2, t1, t2, checked_ports-range start last low high ports)

-- Settings that `WebSettings.from_env` returns have a port from 1 to 65535 and sessions of 1 to 168
-- hours, and the host agent accepts their published UDP range as it is, for every address that it
-- can read.
pub from_env-accepted :
    (lib : Library) (env : Environ) (s : WebSettings) (machine : Machine) (ip source : String)
    → from_env lib env ≡ ok s
    → machine.ip_text ip ≡ some source
    → (1 ≤ s.port)
      × (s.port ≤ 65535)
      × (1 ≤ s.session_hours)
      × (s.session_hours ≤ 168)
      × (network_values machine ip (pos s.udp_published_start) (pos s.udp_published_end)
          ≡ ok (record {
            source_ip = source;
            udp_start = s.udp_published_start;
            udp_end = s.udp_published_end;
          }))
unfolding network_values
from_env-accepted lib env s machine ip source h e =
    let (p1, p2, t1, t2, range) = from_env-Bounded lib env s h in
    (p1, p2, t1, t2, ground (arith, range, e))
