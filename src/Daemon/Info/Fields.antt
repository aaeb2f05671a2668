-- ===== src/Daemon/Info/Fields.antt =====
-- daemon/info.go: the line of a file that a field is read from.
use mechanicaldinosaurs.Base.{
  Bytes, codes, has_prefix, trim_space, index_byte-append, index_byte-Lacks, split-join, join,
  Lacks, All, drop-suc-length, ◌≡◌, refl, ap, ◌⊎◌, inl, inr, true, false, none, some, List, [], ◌∷◌,
  ◌++◌, arith,
}
use mechanicaldinosaurs.Daemon.Info.{search_field, after_colon, field_value_from_proc_file}

-- A line that does not have the field: another beginning, or no colon.
abbrev IsOther : Bytes → Bytes → Type 0
IsOther field line = (has_prefix line field ≡ false) ⊎ Lacks b':' line

after_colon-append :
    (key value : Bytes) → Lacks b':' key → after_colon (key ++ b':' ∷ value) ≡ some value
unfolding after_colon
after_colon-append key value l =
    rw (index_byte-append key value b':' l, after_colon) (ap some (drop-suc-length key b':' value))

after_colon-Lacks : (line : Bytes) → Lacks b':' line → after_colon line ≡ none
unfolding after_colon
after_colon-Lacks line l = rw (index_byte-Lacks line b':' l, after_colon) refl

search_field-append :
    (field : Bytes) (before : List Bytes) (key value : Bytes) (after : List Bytes)
    → All (IsOther field) before
    → has_prefix (key ++ b':' ∷ value) field ≡ true
    → Lacks b':' key
    → search_field (before ++ (key ++ b':' ∷ value) ∷ after) field ≡ some (trim_space value)
unfolding search_field
search_field-append field [] key value after b p l = rw (p, after_colon-append key value l) refl
search_field-append field (line ∷ before) key value after (inl e, b) p l =
    rw e (search_field-append field before key value after b p l)
search_field-append field (line ∷ before) key value after (inr lacks, b) p l =
    ground
      (arith, search_field-append field before key value after b p l, after_colon-Lacks line lacks)

-- In a file whose lines are those before, the line with the field, and those after, where no line
-- before has both the field at its beginning and a colon, the value of the field is what stands
-- behind the first colon of its line, trimmed, whatever stands in the lines after.
field_value-append :
    (field first : Bytes) (before : List Bytes) (key value : Bytes) (after : List Bytes)
    → All (Lacks b'\n') ((first ∷ before) ++ (key ++ b':' ∷ value) ∷ after)
    → All (IsOther field) (first ∷ before)
    → has_prefix (key ++ b':' ∷ value) field ≡ true
    → Lacks b':' key
    → field_value_from_proc_file
        (some (join ((first ∷ before) ++ (key ++ b':' ∷ value) ∷ after) (codes "\n")))
        field
      ≡ (trim_space value, true)
unfolding field_value_from_proc_file
field_value-append field first before key value after n b p l =
    rw
      (
        split-join first (before ++ (key ++ b':' ∷ value) ∷ after) b'\n' n,
        search_field-append field (first ∷ before) key value after b p l,
        field_value_from_proc_file,
      )
      refl
