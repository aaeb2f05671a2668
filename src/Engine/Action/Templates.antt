-- ===== src/Engine/Action/Templates.antt =====
-- automation-engine/action.go, `renderTemplate`: a template as its parts, and the matches in it.
use mechanicaldinosaurs.Base.{
  ℕ, ◌-◌, Bytes, has_prefix, has_prefix-append, Lacks, All, length, ◌≡◌, refl, sym, ap, ◌∙◌, true,
  false, List, some, [], ◌∷◌, ◌++◌, equal, equal_iff, arith, Bool-cases, if◌then◌else◌, inl, inr,
  ◌≢◌,
}
use mechanicaldinosaurs.Engine.Action.{Match, match_here, find_all, replace_from}
use mechanicaldinosaurs.Engine.Action.Rendering.{
  find_all-Lacks, find_all-skip, find_all-nil, find_all-match, replace_from-Lacks,
  replace_from-skip, replace_from-match, replace_from-nil,
}
use mechanicaldinosaurs.Engine.Action.Matching.{
  Variable, IsVariable, inner, behind, behind-Lacks, matched, match_here-variable,
}

-- A part of a template: a text without a brace that opens, or a variable.
pub data Part : Type 0 where
  literal : Bytes → Part
  variable : Variable → Part

abbrev pub IsPart : Part → Type 0
IsPart (literal s) = Lacks b'{' s
IsPart (variable x) = IsVariable x

-- The template that the parts make up.
abbrev pub text : Part → Bytes
text (literal s) = s
text (variable x) = b'{' ∷ inner x

abbrev pub written : List Part → Bytes
written [] = []
written (q ∷ qs) = text q ++ written qs

abbrev pub variables : List Part → List Variable
variables [] = []
variables (literal s ∷ qs) = variables qs
variables (variable x ∷ qs) = x ∷ variables qs

abbrev pub all_matched : List Variable → List Match
all_matched [] = []
all_matched (x ∷ xs) = matched x ∷ all_matched xs

-- The matches in a template are its variables, in their order.
pub find_all-written :
    (ps : List Part) → All IsPart ps → find_all 0 (written ps) ≡ all_matched (variables ps)
find_all-written [] h = find_all-nil
find_all-written (literal s ∷ ps) (h, hs) = find_all-Lacks s (written ps) h ∙ find_all-written ps hs
find_all-written (variable x ∷ ps) (h, hs) =
    let less : length (b'{' ∷ inner x) - 1 ≡ length (inner x) = omega arith in
    find_all-match b'{' (inner x ++ written ps) (matched x) (match_here-variable x (written ps) h)
    ∙ ap (λ i. matched x ∷ find_all i (inner x ++ written ps)) less
    ∙ ap (λ ms. matched x ∷ ms) (find_all-skip (inner x) (written ps) ∙ find_all-written ps hs)

-- A replacement of one match puts a text in the place of every variable that is written like it.
abbrev pub replaced : Bytes → Bytes → Part → Part
replaced old new (literal s) = literal s
replaced old new (variable x) = if equal (b'{' ∷ inner x) old then literal new else variable x

abbrev pub replaced_all : Bytes → Bytes → List Part → List Part
replaced_all old new [] = []
replaced_all old new (p ∷ ps) = replaced old new p ∷ replaced_all old new ps

has_prefix_sound : (s p : Bytes) → has_prefix s p ≡ true → (rest : Bytes) × (s ≡ p ++ rest)
unfolding has_prefix
has_prefix_sound s [] h = (s, refl)
has_prefix_sound [] (d ∷ p) h = cc
has_prefix_sound (c ∷ s) (d ∷ p) h =
    let (rest, e) = has_prefix_sound s p (ground arith) in (rest, ground arith)

some_full : {a b : Match} → some a ≡ some b → a.full ≡ b.full
some_full h = cc

-- No variable is a prefix of another one.
prefix_free :
    (x y : Variable) (t : Bytes)
    → IsVariable x
    → IsVariable y
    → has_prefix (b'{' ∷ (inner x ++ t)) (b'{' ∷ inner y) ≡ true
    → equal (b'{' ∷ inner x) (b'{' ∷ inner y) ≡ true
prefix_free x y t h k e =
    let (rest, q) = has_prefix_sound (b'{' ∷ (inner x ++ t)) (b'{' ∷ inner y) e in
    (equal_iff (b'{' ∷ inner x) (b'{' ∷ inner y)).1
      (some_full (sym (match_here-variable x t h) ∙ ap match_here q ∙ match_here-variable y rest k))

-- Two variables that are written alike have the same name.
pub same_name :
    (x y : Variable)
    → IsVariable x
    → IsVariable y
    → equal (b'{' ∷ inner x) (b'{' ∷ inner y) ≡ true
    → x.name ≡ y.name
same_name x y h k e = some_name (
    sym (match_here-variable x [] h)
    ∙ ap (λ s. match_here (s ++ [])) ((equal_iff (b'{' ∷ inner x) (b'{' ∷ inner y)).0 e)
    ∙ match_here-variable y [] k)
  where
    some_name : {a b : Match} → some a ≡ some b → a.name ≡ b.name
    some_name q = cc

replace_from-miss :
    (c : ℕ) (s old new : Bytes)
    → has_prefix (c ∷ s) old ≡ false
    → replace_from 0 (c ∷ s) old new ≡ c ∷ replace_from 0 s old new
unfolding replace_from
replace_from-miss c s old new e = rw (replace_from, e) refl

has_prefix-Lacks : (s t p : Bytes) → Lacks b'{' s → s ≢ [] → has_prefix (s ++ t) (b'{' ∷ p) ≡ false
unfolding has_prefix
has_prefix-Lacks [] t p h n = absurd (n refl)
has_prefix-Lacks (d ∷ s) t p (h, hs) n = ground arith

append-nonempty : (s : Bytes) (c : ℕ) (t : Bytes) → (s ++ c ∷ t) ≢ []
append-nonempty [] c t h = cc
append-nonempty (d ∷ s) c t h = cc

-- A replacement passes over a variable that is written in another way.
replace_from-other :
    (x y : Variable) (t new : Bytes)
    → IsVariable x
    → IsVariable y
    → equal (b'{' ∷ inner y) (b'{' ∷ inner x) ≡ false
    → replace_from 0 (b'{' ∷ (inner y ++ t)) (b'{' ∷ inner x) new
      ≡ b'{' ∷ (inner y ++ replace_from 0 t (b'{' ∷ inner x) new)
unfolding has_prefix
replace_from-other x y t new h k e =
    replace_from-miss b'{' (inner y ++ t) (b'{' ∷ inner x) new first
    ∙ ap (◌∷◌ b'{') (
        replace_from-miss b'{' (behind y ++ t) (b'{' ∷ inner x) new second
        ∙ ap (◌∷◌ b'{') (replace_from-Lacks (behind y) t (inner x) new (behind-Lacks y k)))
  where
    first : has_prefix (b'{' ∷ (inner y ++ t)) (b'{' ∷ inner x) ≡ false
    first = elim (Bool-cases (has_prefix (b'{' ∷ (inner y ++ t)) (b'{' ∷ inner x))) [
      | inl q ↦ let same = prefix_free y x t k h q in absurd cc
      | inr q ↦ q
    ]

    second : has_prefix (b'{' ∷ (behind y ++ t)) (b'{' ∷ inner x) ≡ false
    second =
        has_prefix-Lacks (behind y) t (behind x) (behind-Lacks y k)
          (append-nonempty (y.blanks ++ y.name ++ y.more_blanks) b'}' (b'}' ∷ []))

-- A replacement takes the place of a variable that is written like it.
replace_from-same :
    (x : Variable) (t new : Bytes)
    → replace_from 0 ((b'{' ∷ inner x) ++ t) (b'{' ∷ inner x) new
      ≡ new ++ replace_from 0 t (b'{' ∷ inner x) new
replace_from-same x t new =
    let less : length (b'{' ∷ inner x) - 1 ≡ length (inner x) = omega arith in
    replace_from-match b'{' (inner x ++ t) (b'{' ∷ inner x) new
      (has_prefix-append (b'{' ∷ inner x) t)
    ∙ ap (λ i. new ++ replace_from i (inner x ++ t) (b'{' ∷ inner x) new) less
    ∙ ap (λ s. new ++ s) (replace_from-skip (inner x) t (b'{' ∷ inner x) new)

-- A replacement of a variable in a template.
pub replace_from-written :
    (x : Variable) (new : Bytes) (ps : List Part)
    → IsVariable x
    → All IsPart ps
    → replace_from 0 (written ps) (b'{' ∷ inner x) new
      ≡ written (replaced_all (b'{' ∷ inner x) new ps)
replace_from-written x new [] h k = replace_from-nil (b'{' ∷ inner x) new
replace_from-written x new (literal s ∷ ps) h (k, ks) =
    replace_from-Lacks s (written ps) (inner x) new k
    ∙ ap (λ t. s ++ t) (replace_from-written x new ps h ks)
replace_from-written x new (variable y ∷ ps) h (k, ks) =
    let step = replace_from-written x new ps h ks in
    elim (Bool-cases (equal (b'{' ∷ inner y) (b'{' ∷ inner x))) [
      | inl e ↦ rw e (
          ap (λ s. replace_from 0 (s ++ written ps) (b'{' ∷ inner x) new)
            ((equal_iff (b'{' ∷ inner y) (b'{' ∷ inner x)).0 e)
          ∙ replace_from-same x (written ps) new
          ∙ ap (λ t. new ++ t) step)
      | inr e ↦
          rw e
            (replace_from-other x y (written ps) new h k e ∙ ap (λ t. b'{' ∷ (inner y ++ t)) step)
    ]
