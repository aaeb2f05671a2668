-- ===== src/Engine/Action/Rendered.antt =====
-- automation-engine/action.go, `renderTemplate`: a template of any parts.
use mechanicaldinosaurs.Base.{
  Bytes, Lacks, All, ok, err, panic, Outcome, Outcome-cases, ◌≡◌, ◌≢◌, refl, sym, ap, ◌∙◌, inl, inr,
  Bool-cases, true, false, List, [], ◌∷◌, ◌++◌, equal, arith,
}
use mechanicaldinosaurs.Engine.Context.{Platform, Entries, Value, NotFound, not_found, get}
use mechanicaldinosaurs.Engine.Action.{replace_all, replace_matches, render_template}
use mechanicaldinosaurs.Engine.Action.Matching.{Variable, IsVariable, inner}
use mechanicaldinosaurs.Engine.Action.Templates.{
  Part, literal, variable, IsPart, text, written, variables, all_matched, find_all-written,
  replaced, replaced_all, replace_from-written, same_name,
}
use mechanicaldinosaurs.Engine.Action.Mentioned.{mentions, Mentioned, variables-Mentioned}

module _ {F : Type 0} (p : Platform F) (ctx : Entries F) where
  -- What a part becomes when the match of a variable is replaced, and those of a list.
  abbrev place : Outcome NotFound (Value F) → Variable → Part → Part
  place (ok v) x q = replaced (b'{' ∷ inner x) (p.sprint v) q
  place (err e) x q = q
  place panic x q = q

  abbrev settle : List Variable → Part → Part
  settle [] q = q
  settle (x ∷ xs) q = settle xs (place (get ctx x.name) x q)

  abbrev settle_all : List Variable → List Part → List Part
  settle_all xs [] = []
  settle_all xs (q ∷ qs) = settle xs q ∷ settle_all xs qs

  -- The value of a variable, which has to be found or be missing, has no brace that opens.
  abbrev pub IsPlain : Part → Type 0
  IsPlain (literal s) = Unit
  IsPlain (variable x) =
      (get ctx x.name ≢ panic) × ((v : Value F) → get ctx x.name ≡ ok v → Lacks b'{' (p.sprint v))

  -- A variable that is found becomes the text of its value, and any other stays as it is written.
  abbrev pub value_text : Outcome NotFound (Value F) → Bytes → Bytes
  value_text (ok v) s = p.sprint v
  value_text (err e) s = s
  value_text panic s = s

  abbrev pub rendered : List Part → Bytes
  rendered [] = []
  rendered (literal s ∷ qs) = s ++ rendered qs
  rendered (variable x ∷ qs) = value_text (get ctx x.name) (b'{' ∷ inner x) ++ rendered qs

  settle-literal : (xs : List Variable) (s : Bytes) → settle xs (literal s) ≡ literal s
  settle-literal [] s = refl
  settle-literal (x ∷ xs) s = elim (Outcome-cases (get ctx x.name)) [
    | inl (v, g) ↦ rw g (settle-literal xs s)
    | inr (inl (e, g)) ↦ rw g (settle-literal xs s)
    | inr (inr g) ↦ rw g (settle-literal xs s)
  ]

  place-other :
      (m : Outcome NotFound (Value F)) (x y : Variable)
      → equal (b'{' ∷ inner y) (b'{' ∷ inner x) ≡ false
      → place m x (variable y) ≡ variable y
  place-other (ok v) x y e = rw e refl
  place-other (err n) x y e = refl
  place-other panic x y e = refl

  settle-found :
      (xs : List Variable) (y : Variable) (v : Value F)
      → All IsVariable xs
      → IsVariable y
      → get ctx y.name ≡ ok v
      → mentions xs y ≡ true
      → settle xs (variable y) ≡ literal (p.sprint v)
  settle-found [] y v h k g m = cc
  settle-found (x ∷ xs) y v (h, hs) k g m =
      elim (Bool-cases (equal (b'{' ∷ inner y) (b'{' ∷ inner x))) [
        | inl e ↦
            ap (λ o. settle xs (place o x (variable y)))
              (ap (get ctx) (sym (same_name y x k h e)) ∙ g)
            ∙ rw e (settle-literal xs (p.sprint v))
        | inr e ↦
            ap (settle xs) (place-other (get ctx x.name) x y e)
            ∙ settle-found xs y v hs k g (ground arith)
      ]

  settle-missing :
      (xs : List Variable) (y : Variable)
      → All IsVariable xs
      → IsVariable y
      → get ctx y.name ≡ err not_found
      → settle xs (variable y) ≡ variable y
  settle-missing [] y h k g = refl
  settle-missing (x ∷ xs) y (h, hs) k g =
      ap (settle xs) (elim (Bool-cases (equal (b'{' ∷ inner y) (b'{' ∷ inner x))) [
        | inl e ↦ ap (λ o. place o x (variable y)) (ap (get ctx) (sym (same_name y x k h e)) ∙ g)
        | inr e ↦ place-other (get ctx x.name) x y e
      ])
      ∙ settle-missing xs y hs k g

  -- The state of the text after the replacements of a list, by its parts.
  settle_all-rendered :
      (xs : List Variable) (qs : List Part)
      → All IsVariable xs
      → All IsPart qs
      → All IsPlain qs
      → All (Mentioned xs) qs
      → written (settle_all xs qs) ≡ rendered qs
  settle_all-rendered xs [] h k g m = refl
  settle_all-rendered xs (literal s ∷ qs) h (k, ks) (g, gs) (m, ms) =
      rw (settle-literal xs s) (ap (λ t. s ++ t) (settle_all-rendered xs qs h ks gs ms))
  settle_all-rendered xs (variable y ∷ qs) h (k, ks) (g, gs) (m, ms) =
      let rest = settle_all-rendered xs qs h ks gs ms in
      elim (Outcome-cases (get ctx y.name)) [
        | inl (v, e) ↦
            ap (λ q. text q ++ written (settle_all xs qs)) (settle-found xs y v h k e m)
            ∙ ap (λ t. p.sprint v ++ t) rest
            ∙ ap (λ o. value_text o (b'{' ∷ inner y) ++ rendered qs) (sym e)
        | inr (inl (not_found, e)) ↦
            ap (λ q. text q ++ written (settle_all xs qs)) (settle-missing xs y h k e)
            ∙ ap (λ t. (b'{' ∷ inner y) ++ t) rest
            ∙ ap (λ o. value_text o (b'{' ∷ inner y) ++ rendered qs) (sym e)
        | inr (inr e) ↦ absurd (g.0 e)
      ]

  place_all : Outcome NotFound (Value F) → Variable → List Part → List Part
  place_all o x [] = []
  place_all o x (q ∷ qs) = place o x q ∷ place_all o x qs

  settle_all-cons :
      (x : Variable) (xs : List Variable) (qs : List Part)
      → settle_all (x ∷ xs) qs ≡ settle_all xs (place_all (get ctx x.name) x qs)
  unfolding place_all
  settle_all-cons x xs [] = refl
  settle_all-cons x xs (q ∷ qs) =
      ap (λ t. settle xs (place (get ctx x.name) x q) ∷ t) (settle_all-cons x xs qs)

  settle_all-nil : (qs : List Part) → settle_all [] qs ≡ qs
  settle_all-nil [] = refl
  settle_all-nil (q ∷ qs) = ap (λ t. q ∷ t) (settle_all-nil qs)

  -- A variable in the list has a value like those of the template.
  abbrev IsPlainVariable : Variable → Type 0
  IsPlainVariable x = IsVariable x × IsPlain (variable x)

  replaced-IsPart :
      (old new : Bytes) (qs : List Part)
      → Lacks b'{' new
      → All IsPart qs
      → All IsPart (replaced_all old new qs)
  replaced-IsPart old new [] l h = tt
  replaced-IsPart old new (literal s ∷ qs) l (h, hs) = (h, replaced-IsPart old new qs l hs)
  replaced-IsPart old new (variable y ∷ qs) l (h, hs) =
      elim (Bool-cases (equal (b'{' ∷ inner y) old)) [
        | inl e ↦ rw e (l, replaced-IsPart old new qs l hs)
        | inr e ↦ rw e (h, replaced-IsPart old new qs l hs)
      ]

  place_all-found :
      (x : Variable) (v : Value F) (qs : List Part)
      → place_all (ok v) x qs ≡ replaced_all (b'{' ∷ inner x) (p.sprint v) qs
  unfolding place_all
  place_all-found x v [] = refl
  place_all-found x v (q ∷ qs) =
      ap (λ t. replaced (b'{' ∷ inner x) (p.sprint v) q ∷ t) (place_all-found x v qs)

  place_all-missing : (x : Variable) (qs : List Part) → place_all (err not_found) x qs ≡ qs
  unfolding place_all
  place_all-missing x [] = refl
  place_all-missing x (q ∷ qs) = ap (λ t. q ∷ t) (place_all-missing x qs)

  -- The loop over the matches settles the parts of the text.
  replace_matches-settle_all :
      (xs : List Variable) (qs : List Part)
      → All IsPlainVariable xs
      → All IsPart qs
      → replace_matches p (written qs) ctx (all_matched xs) ≡ ok (written (settle_all xs qs))
  unfolding replace_matches replace_all
  replace_matches-settle_all [] qs h k = ap (λ t. ok (written t)) (sym (settle_all-nil qs))
  replace_matches-settle_all (x ∷ xs) qs ((h, g), hs) k = elim (Outcome-cases (get ctx x.name)) [
    | inl (v, e) ↦
        let after = replaced_all (b'{' ∷ inner x) (p.sprint v) qs in
        rw (replace_matches, e)
          (ap (λ s. replace_matches p s ctx (all_matched xs))
              (replace_from-written x (p.sprint v) qs h k)
            ∙ replace_matches-settle_all xs after hs
                (replaced-IsPart (b'{' ∷ inner x) (p.sprint v) qs (g.1 v e) k)
            ∙ ap (λ t. ok (written (settle_all xs t))) (sym (place_all-found x v qs))
            ∙ ap (λ o. ok (written (settle_all xs (place_all o x qs)))) (sym e)
            ∙ ap (λ t. ok (written t)) (sym (settle_all-cons x xs qs)))
    | inr (inl (not_found, e)) ↦
        rw (replace_matches, e)
          (replace_matches-settle_all xs qs hs k
            ∙ ap (λ t. ok (written (settle_all xs t))) (sym (place_all-missing x qs))
            ∙ ap (λ o. ok (written (settle_all xs (place_all o x qs)))) (sym e)
            ∙ ap (λ t. ok (written t)) (sym (settle_all-cons x xs qs)))
    | inr (inr e) ↦ absurd (g.0 e)
  ]

  variables-IsPlain :
      (qs : List Part)
      → All IsPart qs
      → All IsPlain qs
      → All IsPlainVariable (variables qs) × All IsVariable (variables qs)
  variables-IsPlain [] h g = (tt, tt)
  variables-IsPlain (literal s ∷ qs) (h, hs) (g, gs) = variables-IsPlain qs hs gs
  variables-IsPlain (variable x ∷ qs) (h, hs) (g, gs) =
      let (a, b) = variables-IsPlain qs hs gs in (((h, g), a), (h, b))

  -- A template of texts without a brace that opens and of variables, each with white space around
  -- its name or none, where no lookup panics and no value has a brace that opens in its text: it is
  -- rendered with the text of its value in the place of every variable that is found, and every
  -- other part stays as it is written.
  pub render_template-rendered :
      (qs : List Part)
      → All IsPart qs
      → All IsPlain qs
      → render_template p (written qs) ctx ≡ ok (rendered qs)
  unfolding render_template
  render_template-rendered qs h g =
      let (a, b) = variables-IsPlain qs h g in
      ap (replace_matches p (written qs) ctx) (find_all-written qs h)
      ∙ replace_matches-settle_all (variables qs) qs a h
      ∙ ap ok (settle_all-rendered (variables qs) qs b h g (variables-Mentioned qs))
