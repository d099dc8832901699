-- ===== src/Tests/Doors.antt =====
-- Tests of the routes of the host agent, the identities and the settings, and of the older listener.
use wolt.Prelude.{pos, String, ◌≡◌, refl, true, none, some, [], str_eq}
use wolt.Errors.{ok, err, mail_failed}
use wolt.Json.{end, field, text, object}
use wolt.Auth.Login.{current_user}
use wolt.Db.{
  constraints, users_ok, sessions_ok, recovery_codes_ok, invitations_ok, reset_tokens_ok,
  devices_ok, credentials_ok, listeners_ok, wake_events_ok, smtp_ok, settings_ok,
}
use wolt.Packet.{mac_text, hex_digit, ParsedMagicPacket, packet, parse_magic_packet}
use wolt.RateLimit.{RateLimiter, allow}
use wolt.RateLimit as RateLimit
use wolt.Fortigate.{build_wol_command}
use wolt.Fortigate.Ssh.{exited}
use wolt.Fortigate.Client.{Device}
use wolt.Listener.{UdpListener, source_not_allowed, handle}
use wolt.Listener.Commands.{handle-command}
use wolt.Identity.Reset.{ResetDraws}
use wolt.Web.Access.{sent, http_error}
use wolt.Web.Attempts.{LoginAttemptLimiter}
use wolt.Web.Attempts as Attempts
use wolt.Web.Host.{
  AgentSocket, response, HostSite, HostRequest, HostWorld, NetworkRequest, deployment, status,
  handle_host, merge,
}
use wolt.Web.Host.Called.{IsEntitled, handle_host-IsEntitled}
use wolt.Web.Observability.{UdpRangeRequest, udp_range_request}
use wolt.Web.Identity.{Post}
use wolt.Samples.{db, library}
use wolt.Tests.Packets.{payload}

abbrev firewall : Device
firewall = record {
  connect = none;
  exec = λ command. exited (pos 0) "done";
  ip_address = λ s. some s;
  lower = λ s. s;
}

abbrev listener : UdpListener
listener = record {
  port = 40000;
  mapping = record { interface = "lan"; gateway_ip = "10.0.0.1" };
  allowed_ip = "10.0.0.2";
}

abbrev wol_command : String
wol_command = "execute wake-on-lan lan 00:1B:21:A0:FF:09 2 9 10.0.0.1"

commanded :
    (handle firewall listener payload "10.0.0.2" 7 (RateLimit.new_limiter 5)).command
    ≡ some wol_command
unfolding handle RateLimit.new_limiter mac_text hex_digit
commanded = refl

stranger :
    handle firewall listener payload "10.0.0.3" 7 (RateLimit.new_limiter 5)
    ≡ record { outcome = source_not_allowed; limiter = RateLimit.new_limiter 5; command = none }
unfolding handle
stranger = refl

handle-command_example :
    (str_eq "10.0.0.2" listener.allowed_ip ≡ true)
    × ((p : ParsedMagicPacket) × (parse_magic_packet payload ≡ packet p)
        × ((allow listener.port p.mac_address 7 (RateLimit.new_limiter 5)).0 ≡ true)
        × (build_wol_command firewall.ip_address "lan" p.mac_address "10.0.0.1" ≡ ok wol_command))
handle-command_example =
    handle-command firewall listener 7 (RateLimit.new_limiter 5) payload "10.0.0.2" wol_command
      commanded

-- The agent takes a job.
abbrev socket : AgentSocket
socket = record {
  exchange = λ calls call. response 202 "{}";
  loads = λ raw. some (object (field "status" (text "queued") end));
  str_of = λ v. "";
}

abbrev host_site : HostSite
host_site = record {
  library = library;
  socket = socket;
  token = "agent-token";
  uuid_text = λ n. "id";
}

abbrev host_request : HostRequest
host_request = record {
  session_token = some "cookie";
  client_ip = "10.0.0.9";
  now = 100;
  audit_id = 91;
}

abbrev wide : NetworkRequest
wide = record { source_ip = "10.0.0.0/24"; udp_start = 40000; udp_end = 40019 }

abbrev host_world : HostWorld
host_world = record { db = db; calls = [] }

deployed :
    (handle_host host_site host_request (deployment wide) host_world).0
    ≡ sent (field "status" (text "queued") end)
unfolding handle_host merge current_user constraints users_ok sessions_ok recovery_codes_ok
    invitations_ok reset_tokens_ok devices_ok credentials_ok listeners_ok wake_events_ok smtp_ok
    settings_ok
deployed = refl

narrow_refused :
    handle_host host_site host_request (deployment (record wide { udp_end = 40005 })) host_world
    ≡ (http_error 422 "published_range_excludes_active_range", host_world)
unfolding handle_host current_user
narrow_refused = refl

no_cookie :
    handle_host host_site (record host_request { session_token = none }) status host_world
    ≡ (http_error 401 "authentication_required", host_world)
unfolding handle_host
no_cookie = refl

handle_host-IsEntitled_example :
    IsEntitled host_site host_request
      (deployment wide)
      host_world
      (handle_host host_site host_request (deployment wide) host_world).1
handle_host-IsEntitled_example =
    handle_host-IsEntitled host_site host_request (deployment wide) host_world

-- The service of the mails is down.
abbrev post : Post
post = record {
  mailer = λ c. err (mail_failed "smtp_delivery_failed");
  str_of = λ v. "";
  minute = 60;
  hour = 3600;
}

abbrev reset_draws : ResetDraws
reset_draws = record { now = 100; token_id = 31; audit_id = 92; token = "drawn" }

range_too_wide : udp_range_request (pos 40000) (pos 40100) ≡ none
unfolding udp_range_request
range_too_wide = refl

abbrev low_range : UdpRangeRequest
low_range = record { udp_port_start = 40000; udp_port_end = 40005 }
