-- ===== src/Base/Text.antt =====
-- Go strings as lists of bytes, and what the program uses of the package strings on them.
use Prim.Native.Nat.{ℕ, suc, ◌+◌}
use Prim.Native.Char.{code}
use Prim.Native.String.{String}
use mathlib.Core.Path.{◌≡◌, refl, sym, ap, ◌∙◌, subst}
use mathlib.Core.Logic.{◌↔◌, ◌≢◌, ◌⊎◌, inl, inr}
use mathlib.Core.Bool.{Bool, true, false, ◌&&◌, ◌||◌}
use mathlib.Core.List.{List, [], ◌∷◌, ◌++◌, reverse, reverse-cons, reverse-append, reverse-reverse}
use mathlib.Core.Option.{Option, none, some}
use native.Mathlib.Omega.{arith}
use mechanicaldinosaurs.Base.Tests.{◌==◌, leb, if◌then◌else◌, Bool-cases}
use mechanicaldinosaurs.Base.Lists.{All, All-append, length, length-append, take, drop}

abbrev pub Bytes : Type 0
Bytes = List ℕ

-- The bytes of a literal; every literal of the program is ASCII.
abbrev pub codes : String → Bytes
codes String.[] = []
codes (String.◌∷◌ c s) = code c ∷ codes s

-- `a == b` on strings.
unfoldable pub equal : Bytes → Bytes → Bool
equal [] [] = true
equal (x ∷ xs) (y ∷ ys) = x == y && equal xs ys
equal _ _ = false

pub equal_self : (s : Bytes) → equal s s ≡ true
unfolding equal
equal_self [] = refl
equal_self (c ∷ s) = ground (arith, equal_self s)

equal_sound : (s t : Bytes) → equal s t ≡ true → s ≡ t
unfolding equal
equal_sound [] [] h = refl
equal_sound [] (d ∷ t) h = cc
equal_sound (c ∷ s) [] h = cc
equal_sound (c ∷ s) (d ∷ t) h = ground (arith, equal_sound s t)

pub equal_iff : (a b : Bytes) → (equal a b ≡ true) ↔ (a ≡ b)
equal_iff a b = (equal_sound a b, (λ h. subst (λ t. equal a t ≡ true) h (equal_self a)))

-- `strings.HasPrefix(s, p)`.
unfoldable pub has_prefix : Bytes → Bytes → Bool
has_prefix s [] = true
has_prefix [] (y ∷ p) = false
has_prefix (x ∷ s) (y ∷ p) = x == y && has_prefix s p

pub has_prefix-append : (p s : Bytes) → has_prefix (p ++ s) p ≡ true
unfolding has_prefix
has_prefix-append [] [] = refl
has_prefix-append [] (x ∷ s) = refl
has_prefix-append (x ∷ p) s = ground (arith, has_prefix-append p s)

-- `strings.HasSuffix(s, p)`.
unfoldable pub has_suffix : Bytes → Bytes → Bool
unfolding has_prefix
has_suffix s p = has_prefix (reverse s) (reverse p)

-- `strings.Contains(s, p)`.
unfoldable pub contains : Bytes → Bytes → Bool
unfolding has_prefix
contains [] p = has_prefix [] p
contains (x ∷ s) p = has_prefix (x ∷ s) p || contains s p

-- `strings.IndexByte(s, b)`, with `none` for -1.
abbrev up_one : Option ℕ → Option ℕ
up_one none = none
up_one (some i) = some (suc i)

unfoldable pub index_byte : Bytes → ℕ → Option ℕ
index_byte [] b = none
index_byte (c ∷ s) b = if c == b then some 0 else up_one (index_byte s b)

-- `strings.Index(s, p)`, with `none` for -1.
unfoldable pub index : Bytes → Bytes → Option ℕ
unfolding has_prefix
index [] p = if has_prefix [] p then some 0 else none
index (c ∷ s) p = if has_prefix (c ∷ s) p then some 0 else up_one (index s p)

abbrev pub Lacks : ℕ → Bytes → Type 0
Lacks b = All (λ c. c ≢ b)

pub index_byte-append :
    (p s : Bytes) (b : ℕ) → Lacks b p → index_byte (p ++ b ∷ s) b ≡ some (length p)
unfolding index_byte
index_byte-append [] s b h = ground arith
index_byte-append (c ∷ p) s b (h, hs) = ground (arith, index_byte-append p s b hs)

pub index_byte-Lacks : (p : Bytes) (b : ℕ) → Lacks b p → index_byte p b ≡ none
unfolding index_byte
index_byte-Lacks [] b h = refl
index_byte-Lacks (c ∷ p) b (h, hs) = ground (arith, index_byte-Lacks p b hs)

-- `strings.TrimSpace` on the ASCII white space.
abbrev pub is_space : ℕ → Bool
is_space c = c == 32 || (leb 9 c && leb c 13)

unfoldable pub trim_left : Bytes → Bytes
trim_left [] = []
trim_left (c ∷ s) = if is_space c then trim_left s else c ∷ s

unfoldable pub trim_space : Bytes → Bytes
unfolding trim_left
trim_space s = reverse (trim_left (reverse (trim_left s)))

-- `strings.Split(s, sep)` for a separator of one byte.
abbrev cons_head : ℕ → List Bytes → List Bytes
cons_head c [] = (c ∷ []) ∷ []
cons_head c (p ∷ ps) = (c ∷ p) ∷ ps

unfoldable pub split : Bytes → ℕ → List Bytes
split [] sep = [] ∷ []
split (c ∷ s) sep = let rest = split s sep in if c == sep then [] ∷ rest else cons_head c rest

-- `strings.Join(parts, sep)`.
unfoldable pub join : List Bytes → Bytes → Bytes
join [] sep = []
join (p ∷ []) sep = p
join (p ∷ q ∷ ps) sep = p ++ (sep ++ join (q ∷ ps) sep)

pub split-part : (p : Bytes) (sep : ℕ) → Lacks sep p → split p sep ≡ p ∷ []
unfolding split
split-part [] sep h = refl
split-part (c ∷ p) sep (h, hs) = ground (arith, split-part p sep hs)

split-append : (p s : Bytes) (sep : ℕ) → Lacks sep p → split (p ++ sep ∷ s) sep ≡ p ∷ split s sep
unfolding split
split-append [] s sep h = ground arith
split-append (c ∷ p) s sep (h, hs) = ground (arith, split-append p s sep hs)

-- Splitting a join gives back the parts, if there is one and none holds the separator.
pub split-join :
    (p : Bytes) (ps : List Bytes) (sep : ℕ)
    → All (Lacks sep) (p ∷ ps)
    → split (join (p ∷ ps) (sep ∷ [])) sep ≡ p ∷ ps
unfolding join
split-join p [] sep (h, hs) = split-part p sep h
split-join p (q ∷ ps) sep (h, hs) =
    split-append p (join (q ∷ ps) (sep ∷ [])) sep h ∙ ap (◌∷◌ p) (split-join q ps sep hs)

-- `IndexByte` cuts a text at the first such byte, or there is none.
pub index_byte-cut :
    (p : Bytes) (b : ℕ)
    → ((index_byte p b ≡ none) × Lacks b p)
      ⊎ ((i : ℕ) × (index_byte p b ≡ some i)
          × Lacks b (take i p)
          × (p ≡ take i p ++ b ∷ drop (suc i) p)
          × (length p ≡ suc i + length (drop (suc i) p)))
unfolding index_byte
index_byte-cut [] b = inl (refl, tt)
index_byte-cut (c ∷ p) b = elim (Bool-cases (c == b)) [
  | inl e ↦ inr (0, ground arith, tt, ground arith, ground arith)
  | inr e ↦ elim (index_byte-cut p b) [
    | inl (n, l) ↦ inl (ground arith, (ground arith, l))
    | inr (i, n, l, s, k) ↦ inr (suc i, ground arith, (ground arith, l), ground arith, ground arith)
  ]
]

-- A split has a part.
pub split-cons : (s : Bytes) (sep : ℕ) → (p : Bytes) × (ps : List Bytes) × (split s sep ≡ p ∷ ps)
unfolding split
split-cons [] sep = ([], [], refl)
split-cons (c ∷ s) sep = elim (Bool-cases (c == sep)) [
  | inl e ↦ ([], split s sep, rw e)
  | inr e ↦ let (p, ps, h) = split-cons s sep in (c ∷ p, ps, rw (e, h))
]

-- A split byte by byte: a separator begins a new part, any other byte goes to the first part.
pub split-separator :
    (c : ℕ) (s : Bytes) (sep : ℕ) → (c == sep) ≡ true → split (c ∷ s) sep ≡ [] ∷ split s sep
unfolding split
split-separator c s sep e = rw e

pub split-byte :
    (c : ℕ) (s : Bytes) (sep : ℕ) {p : Bytes} {ps : List Bytes}
    → (c == sep) ≡ false
    → split s sep ≡ p ∷ ps
    → split (c ∷ s) sep ≡ (c ∷ p) ∷ ps
unfolding split
split-byte c s sep e h = rw (e, h)

-- What holds of all bytes of a text holds of all bytes of the trimmed text.
module _ (P : ℕ → Type 0) where
  pub reverse-All : (s : Bytes) → All P s → All P (reverse s)
  reverse-All [] h = tt
  reverse-All (c ∷ s) (h, hs) =
      rw (reverse-cons c s) (All-append P (reverse s) (c ∷ []) (reverse-All s hs) (h, tt))

  trim_left-All : (s : Bytes) → All P s → All P (trim_left s)
  unfolding trim_left
  trim_left-All [] h = tt
  trim_left-All (c ∷ s) (h, hs) = elim (Bool-cases (is_space c)) [
    | inl e ↦ rw e (trim_left-All s hs)
    | inr e ↦ rw e (h, hs)
  ]

  pub trim_space-All : (s : Bytes) → All P s → All P (trim_space s)
  unfolding trim_space
  trim_space-All s h =
      reverse-All (trim_left (reverse (trim_left s)))
        (trim_left-All (reverse (trim_left s)) (reverse-All (trim_left s) (trim_left-All s h)))

trim_left-tight : (c : ℕ) (t : Bytes) → is_space c ≡ false → trim_left (c ∷ t) ≡ c ∷ t
unfolding trim_left
trim_left-tight c t h = rw h

-- A text that begins and ends with no white space is not trimmed.
pub trim_space-tight :
    (c : ℕ) (s : Bytes) (d : ℕ)
    → is_space c ≡ false
    → is_space d ≡ false
    → trim_space (c ∷ (s ++ d ∷ [])) ≡ c ∷ (s ++ d ∷ [])
unfolding trim_space
trim_space-tight c s d h g =
    ap (λ t. reverse (trim_left (reverse t))) (trim_left-tight c (s ++ d ∷ []) h)
    ∙ ap (λ t. reverse (trim_left t)) (reverse-append (c ∷ s) (d ∷ []))
    ∙ ap reverse (trim_left-tight d (reverse (c ∷ s)) g)
    ∙ ap reverse (sym (reverse-append (c ∷ s) (d ∷ [])))
    ∙ reverse-reverse (c ∷ (s ++ d ∷ []))

pub length-reverse : (s : Bytes) → length (reverse s) ≡ length s
length-reverse [] = refl
length-reverse (c ∷ s) =
    omega
      (arith, ap length (reverse-cons c s), length-append (reverse s) (c ∷ []), length-reverse s)

-- The strings one after the other.
unfoldable pub concat : List Bytes → Bytes
concat [] = []
concat (s ∷ ss) = s ++ concat ss
