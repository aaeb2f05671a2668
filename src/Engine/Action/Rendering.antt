-- ===== src/Engine/Action/Rendering.antt =====
-- automation-engine/action.go, `renderTemplate`: a text with one variable.
use mechanicaldinosaurs.Base.{
  ℕ, ◌-◌, Bytes, codes, has_prefix, has_prefix-append, Lacks, All, length, ok, ◌≡◌, refl, sym, ap,
  ◌∙◌, ◌≢◌, Bool, true, false, Option, some, [], ◌∷◌, ◌++◌, append_assoc, append-nil, arith,
}
use mechanicaldinosaurs.Engine.Context.{Platform, Entries, Value, get}
use mechanicaldinosaurs.Engine.Action.{
  is_blank, is_name_byte, span, Match, match_here, find_all, replace_from, replace_all,
  replace_matches, render_template,
}

pub span-All :
    (test : ℕ → Bool) (s : Bytes) (d : ℕ) (rest : Bytes)
    → All (λ c. test c ≡ true) s
    → test d ≡ false
    → span test (s ++ d ∷ rest) ≡ (s, d ∷ rest)
unfolding span
span-All test [] d rest h e = rw (span, e) refl
span-All test (c ∷ s) d rest (h, hs) e = rw (span, h, span-All test s d rest hs e) refl

pub find_all-Lacks : (s t : Bytes) → Lacks b'{' s → find_all 0 (s ++ t) ≡ find_all 0 t
unfolding find_all match_here
find_all-Lacks [] t l = refl
find_all-Lacks (c ∷ s) t (l, ls) = ground (arith, find_all-Lacks s t ls)

pub find_all-skip : (s t : Bytes) → find_all (length s) (s ++ t) ≡ find_all 0 t
unfolding find_all
find_all-skip [] t = refl
find_all-skip (c ∷ s) t = find_all-skip s t

pub replace_from-Lacks :
    (s t old new : Bytes)
    → Lacks b'{' s
    → replace_from 0 (s ++ t) (b'{' ∷ old) new ≡ s ++ replace_from 0 t (b'{' ∷ old) new
unfolding replace_from has_prefix
replace_from-Lacks [] t old new l = refl
replace_from-Lacks (c ∷ s) t old new (l, ls) = ground (arith, replace_from-Lacks s t old new ls)

pub replace_from-skip :
    (s t old new : Bytes) → replace_from (length s) (s ++ t) old new ≡ replace_from 0 t old new
unfolding replace_from
replace_from-skip [] t old new = refl
replace_from-skip (c ∷ s) t old new = replace_from-skip s t old new

-- The place of a variable in a text.
abbrev pub placeholder : Bytes → Bytes
placeholder name = b'{' ∷ b'{' ∷ (name ++ codes "}}")

abbrev pub IsName : Bytes → Type 0
IsName name = (name ≢ []) × All (λ c. is_name_byte c ≡ true) name

span-none : (test : ℕ → Bool) (c : ℕ) (s : Bytes) → test c ≡ false → span test (c ∷ s) ≡ ([], c ∷ s)
unfolding span
span-none test c s h = rw (span, h) refl

match_here-name :
    (c : ℕ) (cs after : Bytes)
    → All (λ b. is_name_byte b ≡ true) (c ∷ cs)
    → match_here (b'{' ∷ b'{' ∷ (c ∷ (cs ++ b'}' ∷ b'}' ∷ after)))
      ≡ some (record { full = placeholder (c ∷ cs); name = c ∷ cs })
unfolding match_here
match_here-name c cs after (h, hs) =
    let blanks = span-none is_blank c (cs ++ b'}' ∷ b'}' ∷ after) (ground arith) in
    let name = span-All is_name_byte (c ∷ cs) b'}' (b'}' ∷ after) (h, hs) refl in
    let closing = span-none is_blank b'}' (b'}' ∷ after) refl in
    rw (match_here, blanks, name)
      (rw (blanks, name)
        (rw (blanks, name) (ap (λ x. matched (cs ++ x.0)) closing ∙ ap matched (append-nil cs))))
  where
    matched : Bytes → Option Match
    matched t = some (record { full = b'{' ∷ b'{' ∷ (c ∷ (t ++ codes "}}")); name = c ∷ cs })

pub find_all-nil : find_all 0 [] ≡ []
unfolding find_all
find_all-nil = refl

pub replace_from-nil : (old new : Bytes) → replace_from 0 [] old new ≡ []
unfolding replace_from
replace_from-nil old new = refl

pub find_all-match :
    (c : ℕ) (s : Bytes) (m : Match)
    → match_here (c ∷ s) ≡ some m
    → find_all 0 (c ∷ s) ≡ m ∷ find_all (length m.full - 1) s
unfolding find_all
find_all-match c s m e = rw (find_all, e) refl

pub replace_from-match :
    (c : ℕ) (s old new : Bytes)
    → has_prefix (c ∷ s) old ≡ true
    → replace_from 0 (c ∷ s) old new ≡ new ++ replace_from (length old - 1) s old new
unfolding replace_from
replace_from-match c s old new e = rw (replace_from, e) refl

-- The matches in a text with one variable.
find_all-one :
    (before name after : Bytes)
    → Lacks b'{' before
    → Lacks b'{' after
    → IsName name
    → find_all 0 (before ++ (placeholder name ++ after))
      ≡ record { full = placeholder name; name = name } ∷ []
find_all-one before [] after l k (n, h) = absurd (n refl)
find_all-one before (c ∷ cs) after l k (n, h) =
    let name = c ∷ cs in
    let inner = b'{' ∷ (name ++ codes "}}") in
    let less : length (placeholder name) - 1 ≡ length inner = omega arith in
    let m : Match = record { full = placeholder name; name = name } in
    let here : match_here (placeholder name ++ after) ≡ some m =
      ap match_here (ap (λ s. b'{' ∷ b'{' ∷ s) (append_assoc name (codes "}}") after))
      ∙ match_here-name c cs after h in
    let rest : find_all (length inner) (inner ++ after) ≡ [] =
      find_all-skip inner after
      ∙ ap (find_all 0) (sym (append-nil after))
      ∙ find_all-Lacks after [] k
      ∙ find_all-nil in
    find_all-Lacks before (placeholder name ++ after) l
    ∙ find_all-match b'{' (inner ++ after) m here
    ∙ ap (λ i. m ∷ find_all i (inner ++ after)) less
    ∙ ap (λ ms. m ∷ ms) rest

replace_from-one :
    (before name after new : Bytes)
    → Lacks b'{' before
    → Lacks b'{' after
    → replace_from 0 (before ++ (placeholder name ++ after)) (placeholder name) new
      ≡ before ++ (new ++ after)
replace_from-one before name after new l k =
    let inner = b'{' ∷ (name ++ codes "}}") in
    let less : length (placeholder name) - 1 ≡ length inner = omega arith in
    let rest : replace_from (length inner) (inner ++ after) (placeholder name) new ≡ after =
      replace_from-skip inner after (placeholder name) new
      ∙ ap (λ s. replace_from 0 s (placeholder name) new) (sym (append-nil after))
      ∙ replace_from-Lacks after [] inner new k
      ∙ ap (λ s. after ++ s) (replace_from-nil (placeholder name) new)
      ∙ append-nil after in
    replace_from-Lacks before (placeholder name ++ after) inner new l
    ∙ ap (λ s. before ++ s)
        (replace_from-match b'{' (inner ++ after) (placeholder name) new
            (has_prefix-append (placeholder name) after)
          ∙ ap (λ i. new ++ replace_from i (inner ++ after) (placeholder name) new) less
          ∙ ap (λ s. new ++ s) rest)

-- A text with one variable, and no other brace that opens, is rendered with the text of the
-- variable's value in its place.
pub render_template-one :
    {F : Type 0} (p : Platform F) (ctx : Entries F) (before name after : Bytes) (v : Value F)
    → Lacks b'{' before
    → Lacks b'{' after
    → IsName name
    → get ctx name ≡ ok v
    → render_template p (before ++ (placeholder name ++ after)) ctx
      ≡ ok (before ++ (p.sprint v ++ after))
unfolding render_template replace_matches replace_all
render_template-one p ctx before name after v l k n g =
    ap (replace_matches p (before ++ (placeholder name ++ after)) ctx)
      (find_all-one before name after l k n)
    ∙ rw (replace_matches, g) (ap ok (replace_from-one before name after (p.sprint v) l k))
