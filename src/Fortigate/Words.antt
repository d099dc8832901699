-- ===== src/Fortigate/Words.antt =====
-- What the device is told: the words of the command.
use wolt.Prelude.{
  ℕ, zero, suc, String, ◌≡◌, refl, Bool, true, not, some, [], ◌∷◌, arith, ◌==◌, Option, all_chars,
  all_chars_mono, split_spaces, split_spaces_word, split_spaces_last, append,
}
use wolt.Errors.{ok}
use wolt.Fortigate.{
  is_interface, is_interface_char, is_mac, is_mac_of, wol_command, build_wol_command,
}

abbrev pub no_space : String → Bool
no_space s = all_chars (λ c. not (c == 32)) s

interface-no_space : (s : String) → is_interface s ≡ true → no_space s ≡ true
interface-no_space s h =
    all_chars_mono is_interface_char (λ c. not (c == 32)) s (λ c k. ground arith) (ground arith)

mac-no_space : (n : ℕ) (s : String) → is_mac_of n s ≡ true → no_space s ≡ true
unfolding is_mac_of
mac-no_space zero String.[] h = refl
mac-no_space zero (String.◌∷◌ a String.[]) h = ground arith
mac-no_space zero (String.◌∷◌ a (String.◌∷◌ b String.[])) h = ground arith
mac-no_space zero (String.◌∷◌ a (String.◌∷◌ b (String.◌∷◌ c s))) h = ground arith
mac-no_space (suc n) String.[] h = refl
mac-no_space (suc n) (String.◌∷◌ a String.[]) h = ground arith
mac-no_space (suc n) (String.◌∷◌ a (String.◌∷◌ b String.[])) h = ground arith
mac-no_space (suc n) (String.◌∷◌ a (String.◌∷◌ b (String.◌∷◌ c s))) h =
    ground (arith, mac-no_space n s)

command_words :
    (interface mac_address ip : String)
    → no_space interface ≡ true
    → no_space mac_address ≡ true
    → no_space ip ≡ true
    → split_spaces (wol_command interface mac_address ip)
      ≡ "execute" ∷ "wake-on-lan" ∷ interface ∷ mac_address ∷ "2" ∷ "9" ∷ ip ∷ []
unfolding split_spaces
command_words interface mac_address ip i m p =
    rw (split_spaces_word interface (append mac_address (append " 2 9 " ip)) i)
      (rw (split_spaces_word mac_address (append "2 9 " ip) m) (rw (split_spaces_last ip p) refl))

-- A command that `build_wol_command` returns consists, for an address whose normal form holds no
-- space, of seven words: the fixed ones, the interface and the MAC address of the call, and the
-- address.
pub build_wol_command_words :
    (ip_address : String → Option String) (interface mac_address gateway_ip ip command : String)
    → ip_address gateway_ip ≡ some ip
    → no_space ip ≡ true
    → build_wol_command ip_address interface mac_address gateway_ip ≡ ok command
    → split_spaces command
      ≡ "execute" ∷ "wake-on-lan" ∷ interface ∷ mac_address ∷ "2" ∷ "9" ∷ ip ∷ []
unfolding build_wol_command
build_wol_command_words ip_address interface mac_address gateway_ip ip command normal clean h =
    let i : is_interface interface ≡ true = ground arith in
    let m : is_mac mac_address ≡ true = ground arith in
    let same : wol_command interface mac_address ip ≡ command = ground arith in
    rw (← same) (
      command_words interface mac_address ip (interface-no_space interface i)
        (mac-no_space 5 mac_address m) clean)
