-- ===== src/Fortigate/Ssh/Outcome.antt =====
-- What the caller of `execute_wake` learns from its outcome.
use wolt.Prelude.{
  ℕ, String, ◌≡◌, ◌≢◌, inl, inr, true, false, Option, some, List, [], ◌∷◌, arith, pos, All,
  All-take, All-drop, length-take, length-drop, take, drop, split_spaces,
}
use wolt.Errors.{ok, err, Result-cases, value_error}
use wolt.Json.{Fields}
use wolt.Packet.{ParsedMagicPacket, packet, parse_magic_packet}
use wolt.Packet.Roundtrip.{parse_parts}
use wolt.Packet.Format.{IsByte}
use wolt.Fortigate.{is_mac, is_interface, build_wol_command, wol_command, has_error}
use wolt.Fortigate.Words.{no_space, build_wol_command_words}
use wolt.Fortigate.Mac.{is_mac-mac_text}
use wolt.Fortigate.Ssh.{
  Ssh, Python, Floats, Login, exited, Secret, Parameters, checked_secret, checked_parameters,
  validate_target,
}
use wolt.Fortigate.Ssh.Calls.{
  Configuration, checked_configuration, connect, exec_result, wake, send,
}
use wolt.Fortigate.Ssh.Wakes.{Passed, wake-cases, exec_result-ok, checked_parameters-ok}

module _ {F : Type 0} (python : Python) (ssh : Ssh) (floats : Floats F) where
  send-sent :
      (c : Configuration F) (secret : Secret) (command sent : String)
      → (send python ssh floats c secret command).1 ≡ some sent
      → (sent ≡ command) × ((login : Login) × (connect python ssh floats c secret ≡ ok login))
  send-sent c secret command sent h = elim (Result-cases (connect python ssh floats c secret)) [
    | inl (login, e) ↦ (ground arith, (login, e))
    | inr (x, e) ↦ absurd (ground arith)
  ]

  send-ok :
      (c : Configuration F) (secret : Secret) (command : String)
      → (send python ssh floats c secret command).0 ≡ ok tt
      → (login : Login) × (output : String) × (connect python ssh floats c secret ≡ ok login)
        × (ssh.exec login command ≡ exited (pos 0) output)
        × (has_error python.lower output ≡ false)
        × ((send python ssh floats c secret command).1 ≡ some command)
  send-ok c secret command h = elim (Result-cases (connect python ssh floats c secret)) [
    | inl (login, e) ↦
        let (output, x, clean) =
          exec_result-ok python ssh (ssh.exec login command) (ground arith) in
        (login, output, e, x, clean, ground arith)
    | inr (x, e) ↦ absurd (ground arith)
  ]

  send-no_value_error :
      (c : Configuration F) (secret : Secret) (command s : String)
      → (send python ssh floats c secret command).0 ≡ err (value_error s)
      → ⊥
  unfolding connect exec_result
  send-no_value_error c secret command s h = ground arith

  module _ (configuration credentials parameters : Fields) where
    -- `execute_wake` reports success only if all it was given is valid, the device was connected to
    -- with the pinned key, and it ran the command to status 0 with no error marker in its output.
    pub wake-ok :
        (mac_address : String)
        → (wake python ssh floats configuration credentials parameters mac_address).0 ≡ ok tt
        → (command : String) × (p : Passed python ssh floats configuration credentials parameters
            mac_address command)
          × (login : Login) × (output : String) × (connect python ssh floats p.config p.secret
              ≡ ok login)
          × (ssh.exec login command ≡ exited (pos 0) output)
          × (has_error python.lower output ≡ false)
    wake-ok mac_address h =
        elim (wake-cases python ssh floats configuration credentials parameters mac_address) [
          | inl (e, _, stopped) ↦ absurd (ground arith)
          | inr (command, p, same) ↦
              let (login, output, c, x, clean, _) =
                send-ok p.config p.secret command (rw same at h) in
              (command, p, login, output, c, x, clean)
        ]

    -- A command that `execute_wake` sends has seven words, of which the interface and the MAC address
    -- are the given ones and the last is the gateway's normal form, if that holds no space.
    pub wake-sent :
        (mac_address command ip : String) (listener : Parameters)
        → checked_parameters python parameters ≡ ok listener
        → python.ip_address listener.gateway_ip ≡ some ip
        → no_space ip ≡ true
        → (wake python ssh floats configuration credentials parameters mac_address).1 ≡ some command
        → split_spaces command
          ≡ "execute" ∷ "wake-on-lan" ∷ listener.interface ∷ mac_address ∷ "2" ∷ "9" ∷ ip ∷ []
    wake-sent mac_address command ip listener checked normal clean h =
        elim (wake-cases python ssh floats configuration credentials parameters mac_address) [
          | inl (e, _, stopped) ↦ absurd (ground arith)
          | inr (built, p, same) ↦
              let (own, _) = send-sent p.config p.secret built command (rw same at h) in
              let here : p.listener ≡ listener = ground (arith, p.listened) in
              rw own (
                build_wol_command_words python.ip_address listener.interface mac_address
                  listener.gateway_ip ip built normal clean (rw here at (p.built)))
        ]

-- The address of a packet parsed from bytes has the form that the command takes.
is_mac-parse :
    (payload : List ℕ) (p : ParsedMagicPacket)
    → All IsByte payload
    → parse_magic_packet payload ≡ packet p
    → is_mac p.mac_address ≡ true
is_mac-parse payload p bytes h =
    let mac = take 6 (drop 6 payload) in
    let (len, _, _, reads) = parse_parts payload p h in
    rw reads (
      is_mac-mac_text 5 mac (omega (arith, length-take 6 (drop 6 payload), length-drop 6 payload))
        (All-take IsByte 6 (drop 6 payload) (All-drop IsByte 6 payload bytes)))

build-ok :
    (ip_address : String → Option String) (interface mac_address s gateway_ip : String)
    → is_interface interface ≡ true
    → is_mac mac_address ≡ true
    → ip_address gateway_ip ≡ some gateway_ip
    → (command : String) × (build_wol_command ip_address interface mac_address gateway_ip
        ≡ ok command)
unfolding build_wol_command
build-ok ip_address interface mac_address s gateway_ip i m normal =
    (wol_command interface mac_address gateway_ip, ground arith)

module _ {F : Type 0} (python : Python) (ssh : Ssh) (floats : Floats F) where
  configuration-no_value_error :
      (values : Fields) (s : String)
      → checked_configuration python ssh floats values ≡ err (value_error s)
      → ⊥
  unfolding checked_configuration validate_target
  configuration-no_value_error values s h = ground arith

  secret-no_value_error :
      (values : Fields) (s : String) → checked_secret python values ≡ err (value_error s) → ⊥
  unfolding checked_secret
  secret-no_value_error values s h = ground arith

  parameters-no_value_error :
      (values : Fields) (s : String) → checked_parameters python values ≡ err (value_error s) → ⊥
  unfolding checked_parameters
  parameters-no_value_error values s h = ground arith

  -- For a packet that was parsed from bytes, and an `ip_address` that leaves normal forms as they are,
  -- `execute_wake` never raises the `ValueError` of `build_wol_command`, which no caller catches.
  pub wake-parsed :
      (configuration credentials parameters : Fields) (payload : List ℕ) (p : ParsedMagicPacket)
      (message : String)
      → ((s ip : String) → python.ip_address s ≡ some ip → python.ip_address ip ≡ some ip)
      → All IsByte payload
      → parse_magic_packet payload ≡ packet p
      → (wake python ssh floats configuration credentials parameters p.mac_address).0
        ≢ err (value_error message)
  wake-parsed configuration credentials parameters payload p message stable bytes parsed h =
      elim (wake-cases python ssh floats configuration credentials parameters p.mac_address) [
        | inr (command, q, same) ↦
            send-no_value_error python ssh floats q.config q.secret command message (rw same at h)
        | inl (e, at_check, stopped) ↦
            let is : e ≡ value_error message = ground arith in
            elim at_check [
              | inl c ↦ configuration-no_value_error configuration message (rw is at c)
              | inr (inl c) ↦ secret-no_value_error credentials message (rw is at c)
              | inr (inr (inl c)) ↦ parameters-no_value_error parameters message (rw is at c)
              | inr (inr (inr (listener, l, b))) ↦
                  let (named, (s, normal)) = checked_parameters-ok python parameters listener l in
                  let (command, builds) =
                    build-ok python.ip_address listener.interface p.mac_address s
                      listener.gateway_ip named (is_mac-parse payload p bytes parsed)
                      (stable s listener.gateway_ip normal) in
                  cc
            ]
      ]
