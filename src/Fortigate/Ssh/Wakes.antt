-- ===== src/Fortigate/Ssh/Wakes.antt =====
-- What a wake has done.
use wolt.Prelude.{
  String, ◌≡◌, refl, inl, inr, true, false, none, some, arith, Option-cases, strip, pos, negsuc,
  ◌⊎◌,
}
use wolt.Errors.{Error, ok, err, Result-cases}
use wolt.Json.{Fields, get_text}
use wolt.Fortigate.{is_interface, build_wol_command, has_error}
use wolt.Fortigate.Ssh.{
  Ssh, Python, Floats, Exec, exited, exec_failed, Secret, Parameters, checked_secret,
  checked_parameters,
}
use wolt.Fortigate.Ssh.Calls.{Configuration, checked_configuration, exec_result, wake, send}

module _ (python : Python) where
  pub checked_parameters-ok :
      (values : Fields) (p : Parameters)
      → checked_parameters python values ≡ ok p
      → (is_interface p.interface ≡ true)
        × ((s : String) × (python.ip_address s ≡ some p.gateway_ip))
  unfolding checked_parameters
  checked_parameters-ok values p h =
      elim (Option-cases (python.ip_address (strip (get_text python.str_of "gateway_ip" values)))) [
        | inl bad ↦ absurd (ground arith)
        | inr (ip, good) ↦
            (ground arith, (strip (get_text python.str_of "gateway_ip" values), ground arith))
      ]

module _ (python : Python) (ssh : Ssh) where
  pub exec_result-ok :
      (x : Exec)
      → exec_result python ssh x ≡ ok tt
      → (output : String) × (x ≡ exited (pos 0) output) × (has_error python.lower output ≡ false)
  unfolding exec_result
  exec_result-ok (exited (pos n) output) h = (output, ground arith, ground arith)
  exec_result-ok (exited (negsuc n) output) h = absurd (ground arith)
  exec_result-ok (exec_failed f) h = absurd (ground arith)

module _ {F : Type 0} (python : Python) (ssh : Ssh) (floats : Floats F)
    (configuration credentials parameters : Fields) (mac_address : String) where
  -- The stages that `execute_wake` has passed when a command is sent.
  pub record Passed (command : String) : Type 0 where
    pub config : Configuration F
    pub secret : Secret
    pub listener : Parameters
    pub configured : checked_configuration python ssh floats configuration ≡ ok config
    pub trusted : checked_secret python credentials ≡ ok secret
    pub listened : checked_parameters python parameters ≡ ok listener
    pub built :
        build_wol_command python.ip_address listener.interface mac_address listener.gateway_ip
        ≡ ok command

  -- The check that `execute_wake` stops at, with its exception.
  abbrev pub Stopped : Error → Type 0
  Stopped e =
      (checked_configuration python ssh floats configuration ≡ err e)
      ⊎ ((checked_secret python credentials ≡ err e)
          ⊎ ((checked_parameters python parameters ≡ err e)
              ⊎ ((listener : Parameters) × (checked_parameters python parameters ≡ ok listener)
                  × (build_wol_command python.ip_address listener.interface mac_address
                        listener.gateway_ip
                      ≡ err e))))

  -- `execute_wake` either stops at a check, with nothing sent, or is what `send` does.
  pub wake-cases :
      ((e : Error) × Stopped e
        × (wake python ssh floats configuration credentials parameters mac_address ≡ (err e, none)))
      ⊎ ((command : String) × (p : Passed command) × (wake python ssh floats configuration
              credentials parameters mac_address
            ≡ send python ssh floats p.config p.secret command))
  unfolding wake
  wake-cases = elim (Result-cases (checked_configuration python ssh floats configuration)) [
    | inr (e, c) ↦ inl (e, inl c, ground arith)
    | inl (config, c) ↦ elim (Result-cases (checked_secret python credentials)) [
      | inr (e, s) ↦ inl (e, inr (inl s), rw (c, wake) (rw s refl))
      | inl (secret, s) ↦ elim (Result-cases (checked_parameters python parameters)) [
        | inr (e, l) ↦ inl (e, inr (inr (inl l)), rw (c, wake) (rw s (rw l refl)))
        | inl (listener, l) ↦
            elim (Result-cases (
              build_wol_command python.ip_address listener.interface mac_address
                listener.gateway_ip)) [
                  | inr (e, b) ↦
                      inl (
                        e,
                        inr (inr (inr (listener, l, b))),
                        rw (c, wake) (rw s (rw l (rw b refl))),
                      )
                  | inl (command, b) ↦ inr (
                    command,
                    record {
                      config = config;
                      secret = secret;
                      listener = listener;
                      configured = c;
                      trusted = s;
                      listened = l;
                      built = b;
                    },
                    rw (c, wake) (rw s (rw l (rw b refl))),
                  )
                ]
      ]
    ]
  ]
