-- ===== src/Daemon/Services/Names.antt =====
-- daemon/services.go: the names of services, and the lines of their list.
use mechanicaldinosaurs.Base.{
  ◌≤◌, Bytes, has_prefix, has_suffix, length-reverse, split-cons, Bool-cases, Option-cases, length,
  drop, panic, ◌≡◌, refl, sym, ap, ◌∙◌, ◌≢◌, ◌⊎◌, inl, inr, true, Option, none, some, List, [], ◌∷◌,
  ◌++◌, arith,
}
use mathlib.Core.List.{reverse, reverse-append, reverse-reverse}
use mechanicaldinosaurs.Daemon.Services.{
  is_alphanumeric, all_bytes, service_suffix, cut_suffix, validate_service_name, Host, invalid_name,
  Operation, effects, perform, run_operation, out_of_range, service_at, parse_line, list_lines,
  list_services, fields,
}

-- A name that is accepted is a run of letters and digits before ".service".
abbrev pub IsServiceName : Bytes → Type 0
IsServiceName name =
    (base : Bytes) × (name ≡ base ++ service_suffix) × (all_bytes is_alphanumeric base ≡ true)

has_prefix-drop : (s p : Bytes) → has_prefix s p ≡ true → s ≡ p ++ drop (length p) s
unfolding has_prefix
has_prefix-drop s [] h = refl
has_prefix-drop [] (y ∷ p) h = cc
has_prefix-drop (x ∷ s) (y ∷ p) h = ground (arith, has_prefix-drop s p)

cut_suffix-append :
    (name suffix after : Bytes) → cut_suffix name suffix ≡ some after → name ≡ after ++ suffix
unfolding cut_suffix has_suffix
cut_suffix-append name suffix after h =
    elim (Bool-cases (has_prefix (reverse name) (reverse suffix))) [
      | inr e ↦ absurd (ground arith)
      | inl e ↦
          let n = length suffix in
          let cut : reverse (drop n (reverse name)) ≡ after = ground arith in
          sym (reverse-reverse name)
          ∙ ap reverse (has_prefix-drop (reverse name) (reverse suffix) e)
          ∙ reverse-append (reverse suffix) _
          ∙ ap (◌++◌ (reverse (drop (length (reverse suffix)) (reverse name))))
              (reverse-reverse suffix)
          ∙ ap (λ k. reverse (drop k (reverse name)) ++ suffix) (length-reverse suffix)
          ∙ ap (λ a. a ++ suffix) cut
    ]

validate_service_name-IsServiceName :
    (name : Bytes) → validate_service_name name ≡ true → IsServiceName name
unfolding validate_service_name
validate_service_name-IsServiceName name h = elim (Option-cases (cut_suffix name service_suffix)) [
  | inl e ↦ absurd (ground arith)
  | inr (after, e) ↦ (after, cut_suffix-append name service_suffix after e, ground arith)
]

-- Whatever a call does, it was given the name of a service: letters and digits before ".service", so
-- no path and no option of a command. For any other name it does nothing and returns an error.
pub run_operation-IsServiceName :
    (host : Host) (op : Operation) (name : Bytes)
    → ((IsServiceName name) × (run_operation host op name ≡ perform host (effects op name) []))
      ⊎ (run_operation host op name ≡ ([], inl invalid_name))
unfolding run_operation
run_operation-IsServiceName host op name = elim (Bool-cases (validate_service_name name)) [
  | inl e ↦ inl (validate_service_name-IsServiceName name e, rw e)
  | inr e ↦ inr (rw e)
]

service_at-total : (fs : List Bytes) → 4 ≤ length fs → service_at fs ≢ out_of_range
unfolding service_at
service_at-total (a ∷ b ∷ c ∷ d ∷ fs) h = ground arith
service_at-total _ h = absurd (omega arith)

parse_line-total : (fs : List Bytes) → parse_line fs ≢ out_of_range
unfolding parse_line
parse_line-total [] = cc
parse_line-total (f ∷ fs) = ground (arith, service_at-total (f ∷ fs), service_at-total fs)

list_lines-total : (lines : List Bytes) → list_lines lines ≢ none
unfolding list_lines
list_lines-total [] = cc
list_lines-total (line ∷ lines) =
    ground (arith, parse_line-total (fields line), list_lines-total lines)

-- The list of services is read from any output of the command without an index out of range.
list_services-ne-panic : (output : Option Bytes) → list_services output ≢ panic
unfolding list_services
list_services-ne-panic none = cc
list_services-ne-panic (some output) =
    let (p, ps, e) = split-cons output b'\n' in rw e (ground (arith, list_lines-total ps))
