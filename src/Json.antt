-- ===== src/Json.antt =====
-- common/include/blueboat/common/json.hpp: `Value` is nlohmann::json, which the program only calls.
-- The library is a parameter: an interface with the calls that the program makes, and what the
-- program relies on as documented laws.
pub mod Sample
use blueboat_cpp.Base.{
  ℕ, ◌≡◌, Bool, true, Option, some, List, [], Bytes, Assoc, find, has, Result, ok,
}

pub record Json : Type 1 where
  pub Value : Type 0
  -- Value(), Value::object(), and values made from a string, a number, an initializer list of
  -- pairs, and an array that is filled by push_back
  pub null : Value
  pub of_string : Bytes → Value
  pub of_number : ℕ → Value
  pub of_object : Assoc Value → Value
  pub of_array : List Value → Value
  pub is_null : Value → Bool
  pub is_object : Value → Bool
  pub is_string : Value → Bool
  -- the elements, when the value is an array
  pub elements : Value → Option (List Value)
  pub contains : Value → Bytes → Bool
  -- j.at(key); j.value(key, d) at the types that the program asks for; j.get<std::string>()
  pub at : Value → Bytes → Result Value
  pub value : Value → Bytes → Value → Result Value
  pub value_string : Value → Bytes → Bytes → Result Bytes
  -- a negative number is none
  pub value_number : Value → Bytes → Option ℕ → Result (Option ℕ)
  pub get_string : Value → Result Bytes
  -- values[key] = v
  pub assign : Value → Bytes → Value → Result Value
  pub parse : Bytes → Result Value
  pub dump : Value → Result Bytes

-- Value::object()
abbrev pub object : (json : Json) → json.Value
object json = json.of_object []

-- What the documentation says of an object made from an initializer list of pairs.
pub record ObjectLaws (json : Json) : Type 0 where
  pub at_object :
      (fs : Assoc json.Value) (k : Bytes) (v : json.Value)
      → find k fs ≡ some v
      → json.at (json.of_object fs) k ≡ ok v
  pub value_object :
      (fs : Assoc json.Value) (k : Bytes) (v d : json.Value)
      → find k fs ≡ some v
      → json.value (json.of_object fs) k d ≡ ok v
  pub value_string_object :
      (fs : Assoc json.Value) (k s d : Bytes)
      → find k fs ≡ some (json.of_string s)
      → json.value_string (json.of_object fs) k d ≡ ok s
  pub value_number_object :
      (fs : Assoc json.Value) (k : Bytes) (n : ℕ) (d : Option ℕ)
      → find k fs ≡ some (json.of_number n)
      → json.value_number (json.of_object fs) k d ≡ ok (some n)
  pub contains_object :
      (fs : Assoc json.Value) (k : Bytes) → json.contains (json.of_object fs) k ≡ has k fs
  pub get_string_of_string : (s : Bytes) → json.get_string (json.of_string s) ≡ ok s
  pub is_object_of_object : (fs : Assoc json.Value) → json.is_object (json.of_object fs) ≡ true
