-- ===== src/Json.antt =====
-- Values of JSON columns and of `dict[str, Any]` arguments. `Fields` is a dictionary in insertion
-- order.
use wolt.Prelude.{ℕ, String, Option, none, some, Bool, str_eq, if◌then◌else◌}

mutual
  pub data Json : Type 0 where
    null : Json
    boolean : Bool → Json
    number : ℕ → Json
    text : String → Json
    array : Items → Json
    object : Fields → Json

  pub data Items : Type 0 where
    nil : Items
    item : Json → Items → Items

  pub data Fields : Type 0 where
    end : Fields
    field : String → Json → Fields → Fields

-- `str | None` as a JSON value.
abbrev pub optional_text : Option String → Json
optional_text none = null
optional_text (some s) = text s

-- `values.get(key)`
unfoldable pub get_field : String → Fields → Option Json
get_field key end = none
get_field key (field k v rest) =
    let later = get_field key rest in if str_eq k key then some v else later

-- `str` of a value, given what it makes of one that is no text.
abbrev pub text_of : (Json → String) → Json → String
text_of str_of (text s) = s
text_of str_of v = str_of v

-- `str(values.get(key, ""))`
unfoldable pub get_text : (Json → String) → String → Fields → String
unfolding get_field
get_text str_of key values = elim (get_field key values) [ none ↦ "" | some v ↦ text_of str_of v ]
