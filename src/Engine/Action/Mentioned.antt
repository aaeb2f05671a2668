-- ===== src/Engine/Action/Mentioned.antt =====
-- automation-engine/action.go, `renderTemplate`: the variables that a list of matches is about.
use mechanicaldinosaurs.Base.{
  All, ◌≡◌, Bool, true, false, List, [], ◌∷◌, ◌||◌, equal, equal_self, arith,
}
use mechanicaldinosaurs.Engine.Action.Matching.{Variable, inner}
use mechanicaldinosaurs.Engine.Action.Templates.{Part, literal, variable, variables}

-- Some variable of the list is written like this one.
abbrev pub mentions : List Variable → Variable → Bool
mentions [] y = false
mentions (x ∷ xs) y = equal (b'{' ∷ inner y) (b'{' ∷ inner x) || mentions xs y

abbrev pub Mentioned : List Variable → Part → Type 0
Mentioned xs (literal s) = Unit
Mentioned xs (variable y) = mentions xs y ≡ true

Mentioned-cons :
    (x : Variable) (xs : List Variable) (q : Part) → Mentioned xs q → Mentioned (x ∷ xs) q
Mentioned-cons x xs (literal s) h = tt
Mentioned-cons x xs (variable y) h = ground arith

weakened :
    (x : Variable) (xs : List Variable) (qs : List Part)
    → All (Mentioned xs) qs
    → All (Mentioned (x ∷ xs)) qs
weakened x xs [] h = tt
weakened x xs (q ∷ qs) (h, hs) = (Mentioned-cons x xs q h, weakened x xs qs hs)

pub variables-Mentioned : (qs : List Part) → All (Mentioned (variables qs)) qs
variables-Mentioned [] = tt
variables-Mentioned (literal s ∷ qs) = (tt, variables-Mentioned qs)
variables-Mentioned (variable x ∷ qs) = (
  ground (arith, equal_self (b'{' ∷ inner x)),
  weakened x (variables qs) qs (variables-Mentioned qs),
)
