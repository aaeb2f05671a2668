-- ===== src/Engine/Condition/Meaning.antt =====
-- What a condition means, independently of the order of the checks in the code: its operands by
-- what they are, and a table over the operator and the two operands.
use mechanicaldinosaurs.Base.{
  Bytes, Bool, not, Option, none, some, ok, err, panic, ◌≡◌, ◌≢◌, ◌↔◌, inl, inr, ◌∙◌, arith,
  has_prefix, has_suffix, contains, bind-eq-ok, Outcome-cases, ap, ◌>>=◌, if◌then◌else◌,
}
use mechanicaldinosaurs.Engine.Context.{
  Value, int_value, float32_value, float64_value, string_value, bool_value, Entries, not_found, get,
  Platform,
}
use mechanicaldinosaurs.Engine.Condition.{
  Operator, equals, greater_than, less_than, greater_than_or_equal, less_than_or_equal, contains_,
  starts_with, ends_with, regex_match, Condition, EvalError, evaluate_value,
  evaluate_without_negation, evaluate, lookup_error, variable_not_found,
}

pub data Operand (F : Type 0) : Type 0 where
  number : F → Operand F
  text : Bytes → Operand F
  truth : Bool → Operand F
  opaque : Operand F

module _ {F : Type 0} (p : Platform F) where
  abbrev pub operand : Value F → Operand F
  operand (int_value kind z) = number (p.of_int z)
  operand (float32_value x) = number x
  operand (float64_value x) = number x
  operand (string_value s) = text s
  operand (bool_value b) = truth b
  operand _ = opaque

  -- The value of a comparison, or none where the operator does not compare such operands.
  abbrev pub meaning : Operator → Operand F → Operand F → Option Bool
  meaning equals (number a) (number b) = some (p.float_eq a b)
  meaning equals (truth a) (truth b) = some (if a then b else not b)
  meaning greater_than (number a) (number b) = some (p.float_lt b a)
  meaning less_than (number a) (number b) = some (p.float_lt a b)
  meaning greater_than_or_equal (number a) (number b) = some (p.float_le b a)
  meaning less_than_or_equal (number a) (number b) = some (p.float_le a b)
  meaning contains_ (text a) (text b) = some (contains a b)
  meaning starts_with (text a) (text b) = some (has_prefix a b)
  meaning ends_with (text a) (text b) = some (has_suffix a b)
  meaning regex_match (text a) (text b) = p.match_string b a
  meaning _ _ _ = none

  evaluate_value-meaning :
      (o : Operator) (v c : Value F) (r : Bool)
      → (evaluate_value p o v c ≡ ok r) ↔ (meaning o (operand v) (operand c) ≡ some r)
  unfolding evaluate_value
  evaluate_value-meaning equals v c r = ground arith
  evaluate_value-meaning _ v c r = ground arith

  -- No evaluation of operands panics.
  evaluate_value-ne-panic : (o : Operator) (v c : Value F) → evaluate_value p o v c ≢ panic
  unfolding evaluate_value
  evaluate_value-ne-panic equals v c = ground arith
  evaluate_value-ne-panic _ v c = ground arith

  -- A condition evaluates to b exactly when its variable is found and the table gives a value of
  -- the comparison that is b, or the negation of b if the condition is negated.
  pub evaluate_iff :
      (c : Condition F) (variables : Entries F) (b : Bool)
      → (evaluate p c variables ≡ ok b) ↔ (
          (v : Value F) × (r : Bool) × (get variables c.variable ≡ ok v)
          × (meaning c.op (operand v) (operand c.value) ≡ some r)
          × (b ≡ (if c.negated then not r else r)))
  unfolding evaluate
  evaluate_iff c variables b = (forth, back)
    where
      forth :
          evaluate p c variables ≡ ok b
          → (v : Value F) × (r : Bool) × (get variables c.variable ≡ ok v)
            × (meaning c.op (operand v) (operand c.value) ≡ some r)
            × (b ≡ (if c.negated then not r else r))
      forth h =
          let (r, m, e) = bind-eq-ok (evaluate_without_negation p c variables) _ h in
          let (v, g, q) = bind-eq-ok (lookup_error p c.variable (get variables c.variable)) _ m in
          (v, r, ground arith, (evaluate_value-meaning c.op v c.value r).0 q, ground arith)

      back :
          ((v : Value F) × (r : Bool) × (get variables c.variable ≡ ok v)
            × (meaning c.op (operand v) (operand c.value) ≡ some r)
            × (b ≡ (if c.negated then not r else r)))
          → evaluate p c variables ≡ ok b
      back (v, r, g, m, e) =
          rw g (rw ((evaluate_value-meaning c.op v c.value r).1 m) (ground arith))

  -- The error paths: an unknown variable is named; operands that the operator does not compare
  -- give an error, negated or not; and the evaluation panics only if the lookup does.
  evaluate_errors :
      (c : Condition F) (variables : Entries F)
      → (get variables c.variable ≡ err not_found
          → evaluate p c variables ≡ err (variable_not_found c.variable))
        × ((v : Value F)
            → get variables c.variable ≡ ok v
            → meaning c.op (operand v) (operand c.value) ≡ none
            → (e : EvalError F) × (evaluate p c variables ≡ err e))
        × (evaluate p c variables ≡ panic → get variables c.variable ≡ panic)
  unfolding evaluate
  evaluate_errors c variables = ((λ h. rw h), (λ v g m. rw g (refused v m)), panics)
    where
      refused :
          (v : Value F)
          → meaning c.op (operand v) (operand c.value) ≡ none
          → (e : EvalError F) × ((evaluate_value p c.op v c.value >>= λ result.
                ok (if c.negated then not result else result))
              ≡ err e)
      refused v m = elim (Outcome-cases (evaluate_value p c.op v c.value)) [
        | inl (r, e) ↦ absurd (ground (arith, (evaluate_value-meaning c.op v c.value r).0 e))
        | inr (inl (e, h)) ↦ (e, rw h)
        | inr (inr h) ↦ absurd (evaluate_value-ne-panic c.op v c.value h)
      ]

      panics : evaluate p c variables ≡ panic → get variables c.variable ≡ panic
      panics h = elim (Outcome-cases (get variables c.variable)) [
        | inl (v, g) ↦ absurd (
            evaluate_value-ne-panic c.op v c.value
              (ground (arith, Outcome-cases (evaluate_value p c.op v c.value))))
        | inr (inl (not_found, g)) ↦ absurd (ground arith)
        | inr (inr g) ↦ g
      ]

  -- A condition that compares a variable that is found to hold a string with a string by `equals` is
  -- refused with an error, whatever the two strings are.
  equals_refuses_text :
      (c : Condition F) (variables : Entries F) (a b : Bytes)
      → c.op ≡ equals
      → c.value ≡ string_value b
      → get variables c.variable ≡ ok (string_value a)
      → (e : EvalError F) × (evaluate p c variables ≡ err e)
  equals_refuses_text c variables a b o e g = (evaluate_errors c variables).1 (string_value a) g (
      ap (λ q. meaning q (operand (string_value a)) (operand c.value)) o
      ∙ ap (λ q. meaning equals (operand (string_value a)) (operand q)) e)
