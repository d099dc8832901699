-- ===== src/Fortigate.antt =====
-- The Wake-on-LAN command of a FortiGate firewall (app/fortigate.py).
pub mod Client
pub mod Words
pub mod Ssh
pub mod Mac
use Prim.Native.Char.{code}
use wolt.Prelude.{
  ℕ, zero, suc, String, Bool, true, false, not, ◌&&◌, ◌||◌, Option, none, some, List, [], ◌∷◌, ◌==◌,
  leb, any, all_chars, is_alnum, is_digit, is_upper, is_empty, has_part, concat, if◌then◌else◌,
}
use wolt.Errors.{Result, ok, err, value_error}

-- `[A-Za-z0-9_.-]`
abbrev pub is_interface_char : ℕ → Bool
is_interface_char c = is_alnum c || (c == 95 || (c == 46 || c == 45))

-- `INTERFACE_PATTERN.fullmatch` of app/config.py: at least one of these characters.
abbrev pub is_interface : String → Bool
is_interface s = not (is_empty s) && all_chars is_interface_char s

-- `[0-9A-F]`
abbrev pub is_hex_upper : ℕ → Bool
is_hex_upper c = is_digit c || (leb 65 c && leb c 70)

-- `(?:[0-9A-F]{2}:){n}[0-9A-F]{2}`, the whole text.
unfoldable pub is_mac_of : ℕ → String → Bool
is_mac_of zero (String.◌∷◌ a (String.◌∷◌ b String.[])) =
    is_hex_upper (code a) && is_hex_upper (code b)
is_mac_of (suc n) (String.◌∷◌ a (String.◌∷◌ b (String.◌∷◌ c s))) =
    is_hex_upper (code a) && (is_hex_upper (code b) && (code c == 58 && is_mac_of n s))
is_mac_of _ _ = false

-- `MAC_PATTERN.fullmatch`
abbrev pub is_mac : String → Bool
is_mac s = is_mac_of 5 s

-- The f-string that ends `build_wol_command`.
abbrev pub wol_command : String → String → String → String
wol_command interface mac_address ip =
    concat ("execute wake-on-lan " ∷ interface ∷ " " ∷ mac_address ∷ " 2 9 " ∷ ip ∷ [])

-- `build_wol_command`, for a given `str(ipaddress.ip_address(…))`.
unfoldable pub build_wol_command :
    (String → Option String) → String → String → String → Result String
unfolding is_mac_of
build_wol_command ip_address interface mac_address gateway_ip =
    if not (is_interface interface)
    then err (value_error "invalid FortiGate interface")
    else if not (is_mac mac_address)
    then err (value_error "invalid MAC address")
    else elim (ip_address gateway_ip) [
      | none ↦ err (value_error "invalid gateway IP")
      | some ip ↦ ok (wol_command interface mac_address ip)
    ]

abbrev pub error_markers : List String
error_markers = "command fail" ∷ "parse error" ∷ "unknown action" ∷ "error" ∷ "failed" ∷ []

-- `_has_error`, for a given `str.lower`.
unfoldable pub has_error : (String → String) → String → Bool
unfolding has_part
has_error lower output = any (λ marker. has_part marker (lower output)) error_markers
