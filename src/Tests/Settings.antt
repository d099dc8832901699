-- ===== src/Tests/Settings.antt =====
-- The settings of an environment that sets the password of the database only.
use wolt.Prelude.{
  String, ◌≡◌, refl, ◌≤◌, false, Option, none, some, ℤ, pos, str_eq, strip, has_prefix,
  if◌then◌else◌,
}
use wolt.Errors.{ok}
use wolt.HostAgent.Firewall.{network_values}
use wolt.WebConfig.{Library, Environ, WebSettings, from_env}
use wolt.WebConfig.Ranges.{from_env-accepted}
use wolt.Tests.HostAgent.{host}

-- The defaults of the settings as numbers.
abbrev number_of : String → Option ℤ
number_of s =
    if str_eq s "40000"
    then some (pos 40000)
    else if str_eq s "40099"
    then some (pos 40099)
    else if str_eq s "8080"
    then some (pos 8080)
    else if str_eq s "5432"
    then some (pos 5432)
    else if str_eq s "12"
    then some (pos 12)
    else none

abbrev lib : Library
lib = record {
  int_of = number_of;
  lower = λ s. s;
  hex_length = λ s. none;
  url = λ user password server port database. "url";
}

abbrev environ : Environ
environ name = if str_eq name "WOLT_DB_PASSWORD" then some "pw" else none

abbrev settings : WebSettings
settings = record {
  database_url = "url";
  host = "0.0.0.0";
  port = 8080;
  environment = "production";
  auto_migrate = false;
  static_dir = "/app/app/web/static";
  bootstrap_token = "";
  master_key = "";
  session_secure = false;
  session_hours = 12;
  udp_published_start = 40000;
  udp_published_end = 40099;
  version = "v1.1.2-dev";
  commit_sha = "local";
  build_date = "unknown";
  host_agent_socket = "/run/wolt-agent/agent.sock";
  host_agent_token = "";
  smtp_ca_file = none;
}

from_env-accepted_example :
    (1 ≤ settings.port)
    × (settings.port ≤ 65535)
    × (1 ≤ settings.session_hours)
    × (settings.session_hours ≤ 168)
    × (network_values host "10.0.0.1" (pos 40000) (pos 40099)
        ≡ ok (record { source_ip = "10.0.0.1"; udp_start = 40000; udp_end = 40099 }))
unfolding from_env strip has_prefix
from_env-accepted_example =
    from_env-accepted lib environ settings host "10.0.0.1" "10.0.0.1" refl refl
