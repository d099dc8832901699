-- ===== src/ListenerConfig/Mappings.antt =====
-- What is true of the mappings that the file gives.
use wolt.Prelude.{
  ℕ, String, ◌≡◌, inl, inr, ◌≤◌, true, Option, none, some, List, [], ◌∷◌, arith, All, pos, negsuc,
  if◌then◌else◌, Option-cases, Bool-cases,
}
use wolt.Errors.{ok, err, bind-ok}
use wolt.Json.{Json, null, boolean, number, text, array, object, get_field}
use wolt.Fortigate.{is_interface}
use wolt.ListenerConfig.{
  Library, InterfaceMapping, integer, has_names, with_address, mapping_of, checked_mapping,
  is_mapped, add_mappings, load_mappings, for_port,
}

module _ {F : Type 0} (lib : Library F) where
  integer-ok :
      (value name : String) (low high n : ℕ)
      → integer lib value name low high ≡ ok n
      → (low ≤ n) × (n ≤ high)
  unfolding integer
  integer-ok value name low high n h = elim (Option-cases (lib.int_of value)) [
    | inl e ↦ absurd (ground (arith, e))
    | inr (pos m, e) ↦ ground (arith, e)
    | inr (negsuc m, e) ↦ absurd (ground (arith, e))
  ]

  -- An interface of the right form, and an address as Python spells it.
  abbrev pub WellFormed : InterfaceMapping → Type 0
  WellFormed m =
      (is_interface m.interface ≡ true) × ((s : String) × (lib.ip_address s ≡ some m.gateway_ip))

  -- A port from 1024 on with an interface and an address of the forms that the command takes.
  abbrev pub Mapped : ℕ × InterfaceMapping → Type 0
  Mapped (port, m) = (1024 ≤ port) × (port ≤ 65535) × WellFormed m

  with_address-ok :
      (port : ℕ) (i : String) (g : Option Json) (m : InterfaceMapping)
      → is_interface i ≡ true
      → with_address lib port i g ≡ ok m
      → WellFormed m
  with_address-ok port i none m n h = absurd (ground arith)
  with_address-ok port i (some null) m n h = absurd (ground arith)
  with_address-ok port i (some (boolean b)) m n h = absurd (ground arith)
  with_address-ok port i (some (number k)) m n h = absurd (ground arith)
  with_address-ok port i (some (array items)) m n h = absurd (ground arith)
  with_address-ok port i (some (object fields)) m n h = absurd (ground arith)
  with_address-ok port i (some (text s)) m n h = elim (Option-cases (lib.ip_address s)) [
    | inl e ↦ absurd (ground (arith, e))
    | inr (ip, e) ↦ (ground (arith, e, n), (s, ground (arith, e)))
  ]

  mapping_of-ok :
      (port : ℕ) (i g : Option Json) (m : InterfaceMapping)
      → mapping_of lib port i g ≡ ok m
      → WellFormed m
  mapping_of-ok port none g m h = absurd (ground arith)
  mapping_of-ok port (some null) g m h = absurd (ground arith)
  mapping_of-ok port (some (boolean b)) g m h = absurd (ground arith)
  mapping_of-ok port (some (number k)) g m h = absurd (ground arith)
  mapping_of-ok port (some (array items)) g m h = absurd (ground arith)
  mapping_of-ok port (some (object fields)) g m h = absurd (ground arith)
  mapping_of-ok port (some (text s)) g m h = elim (Bool-cases (is_interface s)) [
    | inl good ↦ with_address-ok port s g m good (ground (arith, good))
    | inr bad ↦ absurd (ground (arith, bad))
  ]

  checked_mapping-ok :
      (port : ℕ) (v : Json) (m : InterfaceMapping)
      → checked_mapping lib port v ≡ ok m
      → WellFormed m
  unfolding checked_mapping
  checked_mapping-ok port (object fields) m h = elim (Bool-cases (has_names lib fields)) [
    | inl named ↦
        mapping_of-ok port (get_field "interface" fields) (get_field "gateway_ip" fields) m
          (ground (arith, named))
    | inr other ↦ absurd (ground (arith, other))
  ]
  checked_mapping-ok port null m h = absurd (ground arith)
  checked_mapping-ok port (boolean b) m h = absurd (ground arith)
  checked_mapping-ok port (number n) m h = absurd (ground arith)
  checked_mapping-ok port (text s) m h = absurd (ground arith)
  checked_mapping-ok port (array items) m h = absurd (ground arith)

  add_mappings-Mapped :
      (rest : List (String × Json)) (mappings made : List (ℕ × InterfaceMapping))
      → All Mapped mappings
      → add_mappings lib mappings rest ≡ ok made
      → All Mapped made
  unfolding add_mappings
  add_mappings-Mapped [] mappings made h e = ground (arith, h)
  add_mappings-Mapped ((raw_port, raw_mapping) ∷ rest) mappings made h e =
      let (port, p, h1) = bind-ok (integer lib raw_port "listener port" 1024 65535) _ made e in
      let (u, _, h2) =
        bind-ok
          (if is_mapped lib port mappings
            then err (for_port lib "duplicate listener port: " port "")
            else ok tt)
          _ made h1 in
      let (m, c, h3) = bind-ok (checked_mapping lib port raw_mapping) _ made h2 in
      let (low, high) = integer-ok raw_port "listener port" 1024 65535 port p in
      add_mappings-Mapped rest ((port, m) ∷ mappings) made
        ((low, high, checked_mapping-ok port raw_mapping m c), h) h3

  -- Every mapping that `load_mappings` returns has a port from 1024 to 65535, an interface of the
  -- right form, and an address as Python spells it.
  pub load_mappings-Mapped :
      (listeners : Option (List (String × Json))) (made : List (ℕ × InterfaceMapping))
      → load_mappings lib listeners ≡ ok made
      → All Mapped made
  unfolding load_mappings
  load_mappings-Mapped none made e = absurd (ground arith)
  load_mappings-Mapped (some []) made e = absurd (ground arith)
  load_mappings-Mapped (some (entry ∷ rest)) made e =
      add_mappings-Mapped (entry ∷ rest) [] made tt e
