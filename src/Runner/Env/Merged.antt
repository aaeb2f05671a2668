-- ===== src/Runner/Env/Merged.antt =====
-- runner.go, `mergeEnv` and `lookupEnv`: a variable of the merged environment.
use mechanicaldinosaurs.Base.{
  suc, Bytes, codes, equal, equal_iff, has_prefix, index_byte, index_byte-cut, Lacks, trim_space,
  trim_space-All, ◌==◌, if◌then◌else◌, Bool-cases, Option-cases, length, take, drop, ◌≡◌, refl, ap,
  ◌∙◌, subst, ◌≢◌, inl, inr, false, ◌||◌, Option, none, some, List, [], ◌∷◌, ◌++◌, arith,
}
use mathlib.Core.List.{reverse, reverse-cons, reverse-append}
use mechanicaldinosaurs.Runner.Env.{
  Entries, put, load_lines, split_env_line, with_key, env_value, is_present, merge_file, merge_env,
  search_prefix, text_or_empty, lookup_env,
}

abbrev IsNoMatch : Bytes → Bytes → Type 0
IsNoMatch prefix kv = has_prefix kv prefix ≡ false

abbrev assign : Bytes → Bytes
assign key = key ++ b'=' ∷ []

-- The entry of a key in the map of the file.
abbrev pub value_of : Bytes → Entries → Option Bytes
value_of key [] = none
value_of key ((k, v) ∷ file) = if equal k key then some v else value_of key file

-- A map: no key stands twice, and none holds "=".
abbrev pub IsMap : Entries → Type 0
IsMap [] = Unit
IsMap ((k, v) ∷ file) = (value_of k file ≡ none) × Lacks b'=' k × IsMap file

has_prefix-assign :
    (k v key : Bytes)
    → Lacks b'=' k
    → Lacks b'=' key
    → has_prefix (k ++ (b'=' ∷ v)) (assign key) ≡ equal k key
unfolding has_prefix equal
has_prefix-assign [] v [] h g = ground arith
has_prefix-assign [] v (d ∷ key) h (g, gs) = ground arith
has_prefix-assign (c ∷ k) v [] (h, hs) g = ground arith
has_prefix-assign (c ∷ k) v (d ∷ key) (h, hs) (g, gs) =
    ground (arith, has_prefix-assign k v key hs gs)

drop-assign : (key v : Bytes) → drop (length (assign key)) (key ++ (b'=' ∷ v)) ≡ v
drop-assign [] v = refl
drop-assign (c ∷ key) v = drop-assign key v

-- `present` is read off the first "=", `lookupEnv` off a prefix; they agree on a key without "=".
has_prefix-present :
    (kv key : Bytes)
    → Lacks b'=' key
    → has_prefix kv (assign key)
      ≡ (elim (index_byte kv b'=') [ none ↦ false | some i ↦ equal (take i kv) key ])
unfolding has_prefix equal index_byte
has_prefix-present [] [] g = refl
has_prefix-present [] (d ∷ key) g = refl
has_prefix-present (c ∷ kv) [] g = elim (Bool-cases (c == b'=')) [
  | inl e ↦ ground arith
  | inr e ↦ ground (arith, Option-cases (index_byte kv b'='))
]
has_prefix-present (c ∷ kv) (d ∷ key) (g, gs) =
    ground (arith, has_prefix-present kv key gs, Option-cases (index_byte kv b'='))

search_prefix-append :
    (xs ys : List Bytes) (prefix : Bytes)
    → search_prefix (xs ++ ys) prefix
      ≡ (elim (search_prefix xs prefix) [ none ↦ search_prefix ys prefix | some v ↦ some v ])
unfolding search_prefix
search_prefix-append [] ys prefix = refl
search_prefix-append (x ∷ xs) ys prefix = ground (arith, search_prefix-append xs ys prefix)

search_prefix-reverse :
    (x : Bytes) (xs : List Bytes) (prefix : Bytes)
    → search_prefix (reverse (x ∷ xs)) prefix ≡ (elim (search_prefix (reverse xs) prefix) [
      | none ↦ if has_prefix x prefix then some (drop (length prefix) x) else none
      | some v ↦ some v
    ])
unfolding search_prefix
search_prefix-reverse x xs prefix =
    rw (reverse-cons x xs) (search_prefix-append (reverse xs) (x ∷ []) prefix)

-- A key that is not present is not found.
search_prefix-absent :
    (base : List Bytes) (key : Bytes)
    → Lacks b'=' key
    → is_present base key ≡ false
    → search_prefix (reverse base) (assign key) ≡ none
unfolding search_prefix is_present
search_prefix-absent [] key g h = refl
search_prefix-absent (kv ∷ base) key g h =
    search_prefix-reverse kv base (assign key)
    ∙ ground (arith, search_prefix-absent base key g, has_prefix-present kv key g)

-- What the entries that were added from the file hold for a key.
search_prefix-merge_file :
    (base : List Bytes) (file : Entries) (key : Bytes)
    → Lacks b'=' key
    → IsMap file
    → search_prefix (reverse (merge_file base file)) (assign key)
      ≡ (if is_present base key then none else value_of key file)
unfolding merge_file search_prefix
search_prefix-merge_file base [] key g m = ground arith
search_prefix-merge_file base ((k, v) ∷ file) key g (n, l, m) = ground (
  arith,
  search_prefix-merge_file base file key g m,
  search_prefix-reverse (k ++ (b'=' ∷ v)) (merge_file base file) (assign key),
  has_prefix-assign k v key l g,
  equal_iff k key,
  drop-assign k v,
)

-- A variable of the merged environment, for a key without "=": its last value in the process
-- environment if the key stands there at all, and otherwise its value in the file, or nothing.
lookup_env-merge_env :
    (base : List Bytes) (file : Entries) (key : Bytes)
    → Lacks b'=' key
    → IsMap file
    → lookup_env (merge_env base file) key
      ≡ (if is_present base key then lookup_env base key else text_or_empty (value_of key file))
unfolding lookup_env merge_env
lookup_env-merge_env base file key g m =
    ap text_or_empty (
      ap (λ xs. search_prefix xs (assign key)) (reverse-append base (merge_file base file))
      ∙ search_prefix-append (reverse (merge_file base file)) (reverse base) (assign key))
    ∙ ground (arith, search_prefix-merge_file base file key g m, search_prefix-absent base key g)

value_of-put :
    (k v j : Bytes) (m : Entries)
    → value_of j (put k v m) ≡ (if equal k j then some v else value_of j m)
unfolding put
value_of-put k v j [] = refl
value_of-put k v j ((i, w) ∷ m) =
    ground (arith, equal_iff k j, equal_iff i k, equal_iff i j, value_of-put k v j m)

put-IsMap : (k v : Bytes) (m : Entries) → Lacks b'=' k → IsMap m → IsMap (put k v m)
unfolding put
put-IsMap k v [] l m = (refl, l, tt)
put-IsMap k v ((i, w) ∷ m) l (n, li, ms) = elim (Bool-cases (equal i k)) [
  | inl e ↦ rw e (subst (λ x. value_of x m ≡ none) ((equal_iff i k).0 e) n, l, ms)
  | inr e ↦
      rw e (
        ground (arith, value_of-put k v i m, equal_iff k i, equal_iff i k),
        li,
        put-IsMap k v m l ms,
      )
]

with_key-key : (key value : Bytes) {k v : Bytes} → with_key key value ≡ some (k, v) → key ≡ k
unfolding with_key
with_key-key [] value e = cc
with_key-key (c ∷ key) value e = ground arith

split_env_line-key : (line : Bytes) {k v : Bytes} → split_env_line line ≡ some (k, v) → Lacks b'=' k
unfolding split_env_line
split_env_line-key line {k} {v} e = elim (index_byte-cut line b'=') [
  | inl (n, l) ↦ absurd (ground arith)
  | inr (i, n, l, s, _) ↦
      subst (Lacks b'=')
        (with_key-key (trim_space (take i line)) (env_value (trim_space (drop (suc i) line)))
          (rw (n, split_env_line) at e))
        (trim_space-All (λ c. c ≢ b'=') (take i line) l)
]

load_lines-IsMap : (lines : List Bytes) (m : Entries) → IsMap m → IsMap (load_lines lines m)
unfolding load_lines
load_lines-IsMap [] m h = h
load_lines-IsMap (text ∷ lines) m h = load_lines-IsMap lines _ (one (trim_space text))
  where
    one :
        (line : Bytes)
        → IsMap (
            if equal line [] || has_prefix line (codes "#")
            then m
            else elim (split_env_line line) [ none ↦ m | some (key, value) ↦ put key value m ])
    one line = elim (Bool-cases (equal line [] || has_prefix line (codes "#"))) [
      | inl e ↦ rw e h
      | inr e ↦ rw e (elim (Option-cases (split_env_line line)) [
        | inl n ↦ rw n h
        | inr ((k, v), n) ↦ rw n (put-IsMap k v m (split_env_line-key line n) h)
      ])
    ]

-- A variable of the runner's environment, for a key without "=" and any lines of the file: its last
-- value in the process environment if the key stands there at all, and otherwise what the file
-- gives it, or nothing.
pub lookup_env-merge_env-load_lines :
    (base lines : List Bytes) (key : Bytes)
    → Lacks b'=' key
    → lookup_env (merge_env base (load_lines lines [])) key ≡ (
        if is_present base key
        then lookup_env base key
        else text_or_empty (value_of key (load_lines lines [])))
lookup_env-merge_env-load_lines base lines key g =
    lookup_env-merge_env base (load_lines lines []) key g (load_lines-IsMap lines [] tt)
