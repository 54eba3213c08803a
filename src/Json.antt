-- ===== src/Json.antt =====
-- nlohmann::json, which the code calls and does not implement: its operations are parameters. A
-- read that the library refuses (a missing key, a value of another type) throws.
pub mod Plain
use iceflow.Prelude.{
  ℕ, ◌^◌, ◌<◌, ◌≡◌, Bool, true, List, [], ◌∷◌, Option, none, some, map, String, ◌≢◌, has_value,
}
use iceflow.Prelude.Errors.{Result, ok, throw, json_exception}
use iceflow.Prelude.Dict.{Dict, lookup, NodupKeys, keys}

pub record Json : Type 1 where
  -- `json`, and `json::object_t`
  pub Value : Type 0
  pub Object : Type 0
  -- `j.at(key)`, `j.contains(key)`
  pub at : Value → String → Result Value
  pub contains : Value → String → Bool
  -- `j.get<std::string>()`, `j.get<uint32_t>()`, `j.get<uint64_t>()`, and the conversion to `object_t`
  pub get_string : Value → Result String
  pub get_uint32 : Value → Result ℕ
  pub get_uint64 : Value → Result ℕ
  pub get_object : Value → Result Object
  -- `for (x : j)` and `for ([key, value] : j.items())`
  pub elements : Value → List Value
  pub items : Value → List (String × Value)
  -- `j.value(key, default)` at the types of default that the code uses
  pub value_string : Value → String → String → Result String
  pub value_json : Value → String → Value → Result Value
  -- `json::object()`
  pub object : Value
  -- `o.contains(key)` and `o.at(key)` of an `object_t`
  pub object_contains : Object → String → Bool
  pub object_at : Object → String → Result Value
  -- `json::parse(bytes)`, `j.is_number_integer()`, `json(n).dump()` as bytes
  pub parse : List ℕ → Result Value
  pub is_number_integer : Value → Bool
  pub dump_number : ℕ → List ℕ

-- What the back channel relies on: a 64-bit number that is written is read back as that number.
pub record DumpsNumbers (J : Json) : Type 0 where
  pub numeral : ℕ → J.Value
  pub parse-dump_number : (n : ℕ) → J.parse (J.dump_number n) ≡ ok (numeral n)
  pub numeral_is_integer : (n : ℕ) → J.is_number_integer (numeral n) ≡ true
  pub get_uint64-numeral : (n : ℕ) → n < 2 ^ 64 → J.get_uint64 (numeral n) ≡ ok n

abbrev pub or_throw {ℓ} : {A : Type ℓ} → Option A → Result A
or_throw none = throw json_exception
or_throw (some v) = ok v

abbrev pub value_or {ℓ} : {A : Type ℓ} → Option A → A → A
value_or none default = default
value_or (some v) default = v

abbrev pub string_or : (J : Json) → Option J.Value → String → Result String
string_or J none default = ok default
string_or J (some v) default = J.get_string v

-- How a document is built, and what reading it gives. Keys are listed in the order that the library
-- keeps them in.
pub record Documents (J : Json) : Type 1 where
  pub text : String → J.Value
  pub number : ℕ → J.Value
  pub array : List J.Value → J.Value
  pub fields : Dict J.Value → J.Value
  pub from_object : J.Object → J.Value
  pub IsOrdered : List String → Type 0
  pub get_string-text : (s : String) → J.get_string (text s) ≡ ok s
  pub get_uint32-number : (n : ℕ) → n < 2 ^ 32 → J.get_uint32 (number n) ≡ ok n
  pub get_object-from_object : (o : J.Object) → J.get_object (from_object o) ≡ ok o
  pub elements-array : (js : List J.Value) → J.elements (array js) ≡ js
  pub items-fields : (d : Dict J.Value) → NodupKeys d → IsOrdered (keys d) → J.items (fields d) ≡ d
  pub at-fields : (d : Dict J.Value) (k : String) → J.at (fields d) k ≡ or_throw (lookup k d)
  pub contains-fields :
      (d : Dict J.Value) (k : String) → J.contains (fields d) k ≡ has_value (lookup k d)
  pub value_string-fields :
      (d : Dict J.Value) (k default : String)
      → J.value_string (fields d) k default ≡ string_or J (lookup k d) default
  pub value_json-fields :
      (d : Dict J.Value) (k : String) (default : J.Value)
      → J.value_json (fields d) k default ≡ ok (value_or (lookup k d) default)
