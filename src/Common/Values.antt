-- ===== src/Common/Values.antt =====
-- What Python does with the values of JSON: their truth, the look-up in a dictionary, `in`.
-- the truth of a value in Python
use django_boilderplate.Common.Logging.{
  nil, null, dict, list, opaque, text, number, end, boolean as boolean_value, field, Fields, Value,
}
use django_boilderplate.Prelude.{
  ◌==◌, true, str_eq, some, not, none, if◌then◌else◌, false, String, Option, Bool,
}

unfoldable pub is_true : Value → Bool
is_true null = false
is_true (boolean_value b) = b
is_true (number n) = not (n == 0)
is_true (text s) = not (str_eq s "")
is_true (opaque s) = true
is_true (list nil) = false
is_true (dict end) = false
is_true _ = true

-- `data.get(name)` of a dictionary
abbrev pub get_field : String → Fields → Option Value
get_field name end = none
get_field name (field n v rest) = if str_eq n name then some v else get_field name rest

-- a field that a request gives, with the value that the row has for it
abbrev pub given_field : {A : Type 0} → String → (A → Value) → Option A → A → Fields → Fields
given_field name value none a rest = rest
given_field name value (some _) a rest = field name (value a) rest

-- a field that a request gives, with its own value
abbrev pub given_value : {A : Type 0} → String → (A → Value) → Option A → Fields → Fields
given_value name value none rest = rest
given_value name value (some a) rest = field name (value a) rest
