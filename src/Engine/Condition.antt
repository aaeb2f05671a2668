-- ===== src/Engine/Condition.antt =====
-- automation-engine/condition.go: the condition of an automation and its evaluation.
pub mod Meaning
use mechanicaldinosaurs.Base.{
  ◌>>=◌, pos, Bytes, Bool, true, false, not, ◌&&◌, Option, none, some, [], Outcome, ok, err, panic,
  has_prefix, has_suffix, contains, if◌then◌else◌,
}
use mechanicaldinosaurs.Engine.Context.{
  Platform, Value, int_value, float32_value, float64_value, string_value, bool_value, Entries,
  NotFound, not_found, get,
}

-- The nine operators; `operator` is any other text that a request may carry.
pub data Operator : Type 0 where
  equals greater_than less_than greater_than_or_equal less_than_or_equal : Operator
  contains_ starts_with ends_with regex_match : Operator
  operator : Bytes → Operator

pub record Condition (F : Type 0) : Type 0 where
  pub variable : Bytes
  pub op : Operator
  pub value : Value F
  pub negated : Bool

-- The errors of `evaluateWithoutNegation`, with the values that their messages show.
pub data EvalError (F : Type 0) : Type 0 where
  variable_not_found : Bytes → EvalError F
  requires_numeric : Operator → Value F → Value F → EvalError F
  requires_string : Operator → Value F → Value F → EvalError F
  not_comparable : Value F → Value F → EvalError F
  invalid_regex : EvalError F
  unsupported : Operator → EvalError F

abbrev is_some {ℓ} : {A : Type ℓ} → Option A → Bool
is_some none = false
is_some (some a) = true

abbrev value_or {ℓ} : {A : Type ℓ} → A → Option A → A
value_or d none = d
value_or d (some a) = a

-- The first switch of the function: these operators want two numbers.
abbrev pub is_ordering : Operator → Bool
is_ordering greater_than = true
is_ordering less_than = true
is_ordering greater_than_or_equal = true
is_ordering less_than_or_equal = true
is_ordering _ = false

-- The second switch: these operators want two strings.
abbrev pub is_textual : Operator → Bool
is_textual contains_ = true
is_textual starts_with = true
is_textual ends_with = true
is_textual regex_match = true
is_textual _ = false

module _ {F : Type 0} where
  -- The type assertions `v.(string)` and `v.(bool)`.
  as_string : Value F → Option Bytes
  as_string (string_value s) = some s
  as_string _ = none

  as_bool : Value F → Option Bool
  as_bool (bool_value b) = some b
  as_bool _ = none

module _ {F : Type 0} (p : Platform F) where
  open p use {of_int, float_eq, float_lt, float_le, match_string}

  -- `num`, with `none` for its error.
  unfoldable pub num : Value F → Option F
  num (int_value kind z) = some (of_int z)
  num (float32_value x) = some x
  num (float64_value x) = some x
  num _ = none

  -- The case of `OperatorEquals`.
  evaluate_equals : Value F → Value F → Outcome (EvalError F) Bool
  unfolding num as_bool
  evaluate_equals v c =
      if is_some (num v) && is_some (num c)
      then ok (float_eq (value_or (of_int (pos 0)) (num v)) (value_or (of_int (pos 0)) (num c)))
      else if is_some (as_bool v) && is_some (as_bool c)
      then ok (same (value_or false (as_bool v)) (value_or false (as_bool c)))
      else err (not_comparable v c)
    where
      same : Bool → Bool → Bool
      same a b = if a then b else not b

  -- The case of `OperatorRegexMatch`.
  evaluate_regex : Option Bool → Outcome (EvalError F) Bool
  evaluate_regex none = err invalid_regex
  evaluate_regex (some matched) = ok matched

  -- The last switch, on the operator.
  evaluate_operator : Operator → Value F → Value F → Outcome (EvalError F) Bool
  unfolding num as_string evaluate_equals evaluate_regex
  evaluate_operator o v c =
      let value_num = value_or (of_int (pos 0)) (num v) in
      let c_value_num = value_or (of_int (pos 0)) (num c) in
      let value_str = value_or [] (as_string v) in
      let c_value_str = value_or [] (as_string c) in
      elim o [
        | equals ↦ evaluate_equals v c
        | greater_than ↦ ok (float_lt c_value_num value_num)
        | less_than ↦ ok (float_lt value_num c_value_num)
        | greater_than_or_equal ↦ ok (float_le c_value_num value_num)
        | less_than_or_equal ↦ ok (float_le value_num c_value_num)
        | contains_ ↦ ok (contains value_str c_value_str)
        | starts_with ↦ ok (has_prefix value_str c_value_str)
        | ends_with ↦ ok (has_suffix value_str c_value_str)
        | regex_match ↦ evaluate_regex (match_string c_value_str value_str)
        | operator name ↦ err (unsupported (operator name))
      ]

  abbrev lookup_error : Bytes → Outcome NotFound (Value F) → Outcome (EvalError F) (Value F)
  lookup_error key (ok v) = ok v
  lookup_error key (err not_found) = err (variable_not_found key)
  lookup_error key panic = panic

  -- What `evaluateWithoutNegation` does with the value of the variable.
  evaluate_value : Operator → Value F → Value F → Outcome (EvalError F) Bool
  unfolding num as_string evaluate_operator
  evaluate_value o v c =
      if is_ordering o && not (is_some (num v) && is_some (num c))
      then err (requires_numeric o v c)
      else if is_textual o && not (is_some (as_string v) && is_some (as_string c))
      then err (requires_string o v c)
      else evaluate_operator o v c

  -- `evaluateWithoutNegation`.
  evaluate_without_negation : Condition F → Entries F → Outcome (EvalError F) Bool
  unfolding evaluate_value
  evaluate_without_negation c variables = do
    v ← lookup_error c.variable (get variables c.variable)
    evaluate_value c.op v c.value

  -- `Condition.Evaluate`.
  unfoldable pub evaluate : Condition F → Entries F → Outcome (EvalError F) Bool
  unfolding evaluate_without_negation
  evaluate c variables = do
    result ← evaluate_without_negation c variables
    ok (if c.negated then not result else result)
