-- ===== src/Runner/Env.antt =====
-- runner.go, the environment file: its lines, and the environment that they are merged into. A line
-- is what `bufio.Scanner` hands over, the file is the list of its lines.
pub mod Quoted
pub mod Merged
use mechanicaldinosaurs.Base.{
  ℕ, suc, Bytes, codes, equal, has_prefix, index_byte, index, trim_space, ◌==◌, if◌then◌else◌,
  length, take, drop, ◌⊎◌, inl, inr, Bool, false, ◌||◌, Option, none, some, List, [], ◌∷◌, ◌++◌,
}
use mathlib.Core.List.{reverse}

-- A map of strings as the list of its entries, in the order in which a `range` meets them.
abbrev pub Entries : Type 0
Entries = List (Bytes × Bytes)

abbrev pub is_quote : ℕ → Bool
is_quote c = c == b'"' || c == b'\''

-- The value between quotes, if the text begins with a quote that is closed.
quoted_value : Bytes → Option Bytes
unfolding index_byte
quoted_value [] = none
quoted_value (c ∷ r) =
    if is_quote c
    then elim (index_byte r c) [ none ↦ none | some end ↦ some (take end r) ]
    else none

-- A value without quotes ends before " #".
plain_value : Bytes → Bytes
unfolding index trim_space
plain_value rest = elim (index rest (codes " #")) [
  | none ↦ rest
  | some idx ↦ trim_space (take idx rest)
]

-- The value behind "=", trimmed.
env_value : Bytes → Bytes
unfolding quoted_value plain_value
env_value rest = elim (quoted_value rest) [ some value ↦ value | none ↦ plain_value rest ]

-- A line is refused if its key is empty.
with_key : Bytes → Bytes → Option (Bytes × Bytes)
with_key [] value = none
with_key (c ∷ cs) value = some (c ∷ cs, value)

-- `splitEnvLine`, with none for `ok == false`.
unfoldable pub split_env_line : Bytes → Option (Bytes × Bytes)
unfolding index_byte trim_space env_value with_key
split_env_line line = elim (index_byte line b'=') [
  | none ↦ none
  | some eq ↦ with_key (trim_space (take eq line)) (env_value (trim_space (drop (suc eq) line)))
]

-- `m[key] = value`.
unfoldable pub put : Bytes → Bytes → Entries → Entries
unfolding equal
put k v [] = (k, v) ∷ []
put k v ((j, w) ∷ m) = if equal j k then (k, v) ∷ m else (j, w) ∷ put k v m

-- The loop of `loadEnvFile` over the lines.
unfoldable pub load_lines : List Bytes → Entries → Entries
unfolding trim_space has_prefix split_env_line put
load_lines [] result = result
load_lines (text ∷ lines) result =
    let line = trim_space text in
    load_lines lines (
      if equal line [] || has_prefix line (codes "#")
      then result
      else elim (split_env_line line) [ none ↦ result | some (key, value) ↦ put key value result ])

-- `loadEnvFile`: the error of `os.Open` or of the scanner, or the map.
unfoldable pub load_env_file {ℓ} : {E : Type ℓ} → E ⊎ (List Bytes × Option E) → E ⊎ Entries
unfolding load_lines
load_env_file (inl e) = inl e
load_env_file (inr (lines, some e)) = inl e
load_env_file (inr (lines, none)) = inr (load_lines lines [])

-- The loop over `base`: whether `present[key]` is set.
unfoldable pub is_present : List Bytes → Bytes → Bool
unfolding index_byte equal
is_present [] key = false
is_present (kv ∷ base) key =
    elim (index_byte kv b'=') [ none ↦ false | some i ↦ equal (take i kv) key ]
    || is_present base key

merge_file : List Bytes → Entries → List Bytes
unfolding is_present
merge_file base [] = []
merge_file base ((k, v) ∷ file) =
    let rest = merge_file base file in if is_present base k then rest else (k ++ (b'=' ∷ v)) ∷ rest

-- `mergeEnv`.
unfoldable pub merge_env : List Bytes → Entries → List Bytes
unfolding merge_file
merge_env base file = base ++ merge_file base file

-- The first entry with the prefix, without it.
search_prefix : List Bytes → Bytes → Option Bytes
unfolding has_prefix
search_prefix [] prefix = none
search_prefix (kv ∷ env) prefix =
    if has_prefix kv prefix then some (drop (length prefix) kv) else search_prefix env prefix

abbrev pub text_or_empty : Option Bytes → Bytes
text_or_empty none = []
text_or_empty (some v) = v

-- `lookupEnv`, whose loop goes from the last entry to the first.
unfoldable pub lookup_env : List Bytes → Bytes → Bytes
unfolding search_prefix
lookup_env env key = text_or_empty (search_prefix (reverse env) (key ++ b'=' ∷ []))

-- `lookupEnvOr`.
unfoldable pub lookup_env_or : List Bytes → Bytes → Bytes → Bytes
unfolding lookup_env
lookup_env_or env key def = elim (lookup_env env key) [ [] ↦ def | c ∷ cs ↦ c ∷ cs ]
