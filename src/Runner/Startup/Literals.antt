-- ===== src/Runner/Startup/Literals.antt =====
-- runner.go, the Python program of the console: what Python reads of the settings in it.
use mechanicaldinosaurs.Base.{
  ℕ, zero, suc, ◌+◌, ◌-◌, ◌*◌, ◌≤◌, ◌<◌, Bytes, leb, ◌==◌, length, if◌then◌else◌, ◌≡◌, refl, ap,
  ◌∙◌, true, Option, none, some, [], ◌∷◌, ◌++◌, append_assoc, length-append, arith,
}
use mechanicaldinosaurs.Runner.Startup.{
  escape, quote_rest, is_ascii, quote, Library, import_segment, static_segment, bind_segment,
  workers_segment, end_segment, console_script,
}

abbrev hex_value : ℕ → ℕ
hex_value c = if leb b'a' c then c - b'a' + 10 else c - b'0'

-- The escapes of a Python string with one letter.
simple_escape : ℕ → ℕ
simple_escape e =
    if e == b'a'
    then 7
    else if e == b'b'
    then 8
    else if e == b'f'
    then 12
    else if e == b'n'
    then 10
    else if e == b'r'
    then 13
    else if e == b't'
    then 9
    else if e == b'v'
    then 11
    else e

-- The character behind a backslash, and the text behind it.
read_escape : Bytes → Option (ℕ × Bytes)
unfolding simple_escape
read_escape [] = none
read_escape (e ∷ s) =
    if e == b'x'
    then elim s [
      | [] ↦ none
      | h ∷ t ↦ elim t [ [] ↦ none | l ∷ u ↦ some (16 * hex_value h + hex_value l, u) ]
    ]
    else some (simple_escape e, s)

-- A string literal of Python behind its first quote, and the text behind the literal; a line may not
-- end in it. The fuel is at least the number of characters and one.
read_literal : ℕ → Bytes → Option (Bytes × Bytes)
unfolding read_escape
read_literal zero s = none
read_literal (suc fuel) [] = none
read_literal (suc fuel) (c ∷ s) =
    let plain = read_literal fuel s in
    if c == b'"'
    then some ([], s)
    else if c == 10
    then none
    else if c == b'\\'
    then elim (read_escape s) [
      | none ↦ none
      | some (d, t) ↦ elim (read_literal fuel t) [
        | none ↦ none
        | some (text, rest) ↦ some (d ∷ text, rest)
      ]
    ]
    else elim plain [ none ↦ none | some (text, rest) ↦ some (c ∷ text, rest) ]

read_literal-escape :
    (fuel c : ℕ) (s text rest : Bytes)
    → c < 128
    → read_literal fuel s ≡ some (text, rest)
    → read_literal (suc fuel) (escape c ++ s) ≡ some (c ∷ text, rest)
unfolding read_literal escape read_escape simple_escape
read_literal-escape fuel c s text rest b h = ground arith

-- A string literal at the beginning of a text.
pub read_string : Bytes → Option (Bytes × Bytes)
unfolding read_literal
read_string [] = none
read_string (c ∷ s) = if c == b'"' then read_literal (suc (length s)) s else none

read_literal-quote_rest :
    (fuel : ℕ) (s rest : Bytes)
    → is_ascii s ≡ true
    → length s < fuel
    → read_literal fuel (quote_rest s ++ rest) ≡ some (s, rest)
unfolding quote_rest is_ascii read_literal
read_literal-quote_rest zero s rest a h = absurd (omega arith)
read_literal-quote_rest (suc fuel) [] rest a h = refl
read_literal-quote_rest (suc fuel) (c ∷ s) rest a h =
    ap (read_literal (suc fuel)) (append_assoc (escape c) (quote_rest s) rest)
    ∙ read_literal-escape fuel c (quote_rest s ++ rest) s rest (ground arith)
        (read_literal-quote_rest fuel s rest (ground arith) (omega arith))

length-escape : (c : ℕ) → 1 ≤ length (escape c)
unfolding escape
length-escape c = ground arith

length-quote_rest : (s : Bytes) → length s ≤ length (quote_rest s)
unfolding quote_rest
length-quote_rest [] = omega arith
length-quote_rest (c ∷ s) =
    omega (arith, length-append (escape c) (quote_rest s), length-escape c, length-quote_rest s)

-- Python reads a setting that is written with "%q" back.
read_string-quote :
    (wide : Bytes → Bytes) (s rest : Bytes)
    → is_ascii s ≡ true
    → read_string (quote wide s ++ rest) ≡ some (s, rest)
unfolding read_string quote
read_string-quote wide s rest a =
    rw (quote, a)
      (read_literal-quote_rest (suc (length (quote_rest s ++ rest))) s rest a
        (omega (arith, length-append (quote_rest s) rest, length-quote_rest s)))

module _ (library : Library) where
  -- The program of the console is its five pieces of text with four string literals between them, and
  -- Python reads these as the server, the directory of the static files, the address and the number
  -- of workers, whatever quotes, backslashes and line ends the settings have; if they are ASCII.
  pub console_script-settings :
      (server static_dir bind workers : Bytes)
      → is_ascii server ≡ true
      → is_ascii static_dir ≡ true
      → is_ascii bind ≡ true
      → is_ascii workers ≡ true
      → (a : Bytes) × (b : Bytes) × (c : Bytes) × (d : Bytes) × (console_script library server
            static_dir bind workers
          ≡ import_segment ++ a)
        × (read_string a ≡ some (server, static_segment ++ b))
        × (read_string b ≡ some (static_dir, bind_segment ++ c))
        × (read_string c ≡ some (bind, workers_segment ++ d))
        × (read_string d ≡ some (workers, end_segment))
  unfolding console_script
  console_script-settings server static_dir bind workers p q r t = (
    _,
    _,
    _,
    _,
    refl,
    read_string-quote library.wide server _ p,
    read_string-quote library.wide static_dir _ q,
    read_string-quote library.wide bind _ r,
    read_string-quote library.wide workers _ t,
  )
