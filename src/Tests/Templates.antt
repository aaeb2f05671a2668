-- ===== src/Tests/Templates.antt =====
-- The templates of the automation engine at concrete inputs.
use mechanicaldinosaurs.Base.{ℤ, codes, Lacks, Outcome, ok, ◌≡◌, refl, subst, List, [], ◌∷◌, arith}
use mechanicaldinosaurs.Engine.Context.{Value, NotFound, string_value, end, entry, get}
use mechanicaldinosaurs.Engine.Action.{render_template}
use mechanicaldinosaurs.Engine.Action.Rendered.{render_template-rendered}
use mechanicaldinosaurs.Engine.Action.Templates.{Part, literal, variable}
use mechanicaldinosaurs.Tests.Engine.{nanos, named, text_of}

abbrev greeting : List Part
greeting =
    literal (codes "on ")
    ∷ variable (record { blanks = codes " "; name = codes "hostname"; more_blanks = [] })
    ∷ literal (codes " or ")
    ∷ variable (record { blanks = []; name = codes "port"; more_blanks = codes " " })
    ∷ []

render_template-rendered_example :
    render_template nanos (codes "on {{ hostname}} or {{port }}") named
    ≡ ok (codes "on pineapple or {{port }}")
unfolding get
render_template-rendered_example =
    render_template-rendered nanos named greeting
      (
        ground arith,
        (
          (ground arith, (λ e. cc, ground arith), tt),
          (ground arith, ((tt, (λ e. cc, ground arith), ground arith), tt)),
        ),
      )
      (
        tt,
        (
          (λ e. cc, λ v e. subst (λ w. Lacks b'{' (text_of w)) (ok_value e) (ground arith)),
          (tt, ((λ e. cc, λ v e. absurd cc), tt)),
        ),
      )
  where
    ok_value : {a v : Value ℤ} → ◌≡◌ {A = Outcome NotFound (Value ℤ)} (ok a) (ok v) → a ≡ v
    ok_value e = cc

-- A value that looks like a variable is rendered again, if that variable comes later.
render_twice :
    render_template nanos (codes "{{a}}{{b}}") (
      entry
        (codes "a")
        (string_value (codes "{{b}}"))
        (entry (codes "b") (string_value (codes "x")) end))
    ≡ ok (codes "xx")
unfolding render_template get
render_twice = refl
