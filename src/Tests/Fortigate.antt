-- ===== src/Tests/Fortigate.antt =====
-- A wake over a device that answers, with texts as they come for Python's conversions.
use wolt.Prelude.{ℕ, String, ◌≡◌, refl, false, Option, none, some, ℤ, pos, leb, strip}
use wolt.Errors.{ok}
use wolt.Json.{Json, text, number, Fields, field, end}
use wolt.Fortigate.{has_error}
use wolt.Fortigate.Ssh.{
  Ssh, Python, Floats, HostKey, key_entry, Login, exited, unreachable, other_failure,
}
use wolt.Fortigate.Ssh.Calls.{connect, wake}
use wolt.Fortigate.Ssh.Wakes.{Passed}
use wolt.Fortigate.Ssh.Outcome.{wake-ok}

abbrev int_of_json : Json → Option ℤ
int_of_json (number n) = some (pos n)
int_of_json _ = none

abbrev nat_of_json : Json → Option ℕ
nat_of_json (number n) = some n
nat_of_json _ = none

abbrev python : Python
python = record {
  str_of = λ v. "";
  int_of = int_of_json;
  decimal = λ n. "22";
  ip_address = λ s. some s;
  lower = λ s. s;
}

abbrev floats : Floats ℕ
floats = record { float_of = nat_of_json; at_most = leb; tenths = λ n. n; json = number }

abbrev key : HostKey
key = record { name = "ssh-ed25519"; base64 = "AAAA"; bits = 256; digest = "abcd" }

abbrev ssh : Ssh
ssh = record {
  host_key_of = λ line. key_entry key;
  connect = λ login. none;
  exec = λ login command. exited (pos 0) "done";
  probe = λ host port. unreachable other_failure;
  elapsed_ms = 3;
}

abbrev configuration : Fields
configuration = field "host" (text "fw") (field "host_key" (text "ssh-ed25519 AAAA") end)

abbrev credentials : Fields
credentials = field "username" (text "admin") (field "password" (text "pw") end)

abbrev parameters : Fields
parameters = field "interface" (text "lan") (field "gateway_ip" (text "10.0.0.1") end)

wake_test :
    wake python ssh floats configuration credentials parameters "00:11:22:33:44:55"
    ≡ (ok tt, some "execute wake-on-lan lan 00:11:22:33:44:55 2 9 10.0.0.1")
unfolding wake strip
wake_test = refl

wake-ok_example :
    (command : String) × (p : Passed python ssh floats configuration credentials parameters
      "00:11:22:33:44:55" command)
    × (login : Login) × (output : String) × (connect python ssh floats p.config p.secret ≡ ok login)
    × (ssh.exec login command ≡ exited (pos 0) output)
    × (has_error python.lower output ≡ false)
unfolding wake strip
wake-ok_example =
    wake-ok python ssh floats configuration credentials parameters "00:11:22:33:44:55" refl
