-- ===== src/Engine/Action/Matching.antt =====
-- automation-engine/action.go, `varRegex`: the match at a variable.
use mechanicaldinosaurs.Base.{
  ℕ, Bytes, Lacks, All, All-append, ◌≡◌, refl, ap, ◌∙◌, some, ◌≢◌, [], ◌∷◌, ◌++◌, append_assoc,
  true, arith,
}
use mechanicaldinosaurs.Engine.Action.{is_blank, is_name_byte, span, Match, match_here}
use mechanicaldinosaurs.Engine.Action.Rendering.{span-All, IsName}

-- A variable, with the white space on both sides of its name.
pub record Variable : Type 0 where
  pub blanks : Bytes
  pub name : Bytes
  pub more_blanks : Bytes

abbrev pub IsVariable : Variable → Type 0
IsVariable x =
    All (λ c. is_blank c ≡ true) x.blanks
    × IsName x.name
    × All (λ c. is_blank c ≡ true) x.more_blanks

-- The text of a variable behind its first brace.
abbrev pub inner : Variable → Bytes
inner x = b'{' ∷ (x.blanks ++ x.name ++ x.more_blanks ++ b'}' ∷ b'}' ∷ [])

abbrev pub matched : Variable → Match
matched x = record { full = b'{' ∷ inner x; name = x.name }

after_name :
    (name more_blanks after : Bytes)
    → All (λ c. is_name_byte c ≡ true) name
    → All (λ c. is_blank c ≡ true) more_blanks
    → span is_name_byte (name ++ (more_blanks ++ b'}' ∷ after))
      ≡ (name, more_blanks ++ b'}' ∷ after)
after_name name [] after h hs = span-All is_name_byte name b'}' after h refl
after_name name (c ∷ cs) after h (k, ks) =
    span-All is_name_byte name c (cs ++ b'}' ∷ after) h (ground arith)

match_here-spans :
    (blanks : Bytes) (c : ℕ) (cs more_blanks after : Bytes)
    → All (λ b. is_blank b ≡ true) blanks
    → All (λ b. is_name_byte b ≡ true) (c ∷ cs)
    → All (λ b. is_blank b ≡ true) more_blanks
    → match_here (b'{' ∷ b'{' ∷ (blanks ++ (c ∷ (cs ++ (more_blanks ++ b'}' ∷ b'}' ∷ after)))))
      ≡ some (matched (record { blanks = blanks; name = c ∷ cs; more_blanks = more_blanks }))
unfolding match_here
match_here-spans blanks c cs more_blanks after h (n, ns) k =
    let tail = b'}' ∷ b'}' ∷ after in
    let first : span is_blank (blanks ++ (c ∷ (cs ++ (more_blanks ++ tail))))
        ≡ (blanks, c ∷ (cs ++ (more_blanks ++ tail))) =
      span-All is_blank blanks c (cs ++ (more_blanks ++ tail)) h (ground arith) in
    let second = after_name (c ∷ cs) more_blanks (b'}' ∷ after) (n, ns) k in
    let third = span-All is_blank more_blanks b'}' (b'}' ∷ after) k refl in
    rw (match_here, first, second) (rw (first, second, third) (rw (first, second, third) refl))

inner-append :
    (x : Variable) (after : Bytes)
    → inner x ++ after ≡ b'{' ∷ (x.blanks ++ (x.name ++ (x.more_blanks ++ b'}' ∷ b'}' ∷ after)))
inner-append x after =
    let tail = b'}' ∷ b'}' ∷ [] in
    ap (◌∷◌ b'{') (
      append_assoc (x.blanks ++ x.name ++ x.more_blanks) tail after
      ∙ append_assoc (x.blanks ++ x.name) x.more_blanks (tail ++ after)
      ∙ append_assoc x.blanks x.name (x.more_blanks ++ (tail ++ after)))

match_here-parts :
    (blanks name more_blanks after : Bytes)
    → IsVariable (record { blanks = blanks; name = name; more_blanks = more_blanks })
    → match_here (b'{' ∷ b'{' ∷ (blanks ++ (name ++ (more_blanks ++ b'}' ∷ b'}' ∷ after))))
      ≡ some (matched (record { blanks = blanks; name = name; more_blanks = more_blanks }))
match_here-parts blanks [] more_blanks after (h, (n, ns), k) = absurd (n refl)
match_here-parts blanks (c ∷ cs) more_blanks after (h, (n, ns), k) =
    match_here-spans blanks c cs more_blanks after h ns k

-- Where a variable begins, the match is that variable, whatever follows it.
pub match_here-variable :
    (x : Variable) (after : Bytes)
    → IsVariable x
    → match_here (b'{' ∷ (inner x ++ after)) ≡ some (matched x)
match_here-variable x after h =
    ap (λ s. match_here (b'{' ∷ s)) (inner-append x after)
    ∙ match_here-parts x.blanks x.name x.more_blanks after h

blanks-Lacks : (s : Bytes) → All (λ c. is_blank c ≡ true) s → Lacks b'{' s
blanks-Lacks [] h = tt
blanks-Lacks (c ∷ s) (h, hs) = (ground arith, blanks-Lacks s hs)

name-Lacks : (s : Bytes) → All (λ c. is_name_byte c ≡ true) s → Lacks b'{' s
name-Lacks [] h = tt
name-Lacks (c ∷ s) (h, hs) = (ground arith, name-Lacks s hs)

-- A variable has no brace that opens but the first two.
abbrev pub behind : Variable → Bytes
behind x = x.blanks ++ x.name ++ x.more_blanks ++ b'}' ∷ b'}' ∷ []

pub behind-Lacks : (x : Variable) → IsVariable x → Lacks b'{' (behind x)
behind-Lacks x (h, (n, ns), k) =
    let free : ℕ → Type 0 = λ c. c ≢ b'{' in
    All-append free (x.blanks ++ x.name ++ x.more_blanks) (b'}' ∷ b'}' ∷ [])
      (All-append free (x.blanks ++ x.name) x.more_blanks
        (All-append free x.blanks x.name (blanks-Lacks x.blanks h) (name-Lacks x.name ns))
        (blanks-Lacks x.more_blanks k))
      (ground arith)
