-- ===== src/Engine/Automation/Reenable.antt =====
-- An automation that is disabled and enabled again.
use mechanicaldinosaurs.Base.{
  ◌+◌, ok, Outcome-cases, ◌≡◌, ap, ◌∙◌, inl, inr, true, false, List, [], ◌∷◌, arith,
}
use mechanicaldinosaurs.Engine.Trigger.{Time, Trigger, register, deregister}
use mechanicaldinosaurs.Engine.Trigger.Loops.{Wake, time_loop, interval_loop, refresh_loop}
use mechanicaldinosaurs.Engine.Trigger.Loops.Laws.{silent, silent_refresh}
use mechanicaldinosaurs.Engine.Automation.{Automation, enable, disable}

register-closed :
    (now : Time) (t : Trigger) {u : Trigger}
    → register now t ≡ ok u
    → (u.closed ≡ t.closed) × (u.started ≡ t.started + 1)
unfolding register
register-closed now t {u} e = ground arith

deregister-closed : (t : Trigger) → (deregister t).0.closed ≡ true
unfolding deregister
deregister-closed t = ground arith

module _ {F : Type 0} where
  enable-disable :
      (now : Time) (a b : Automation F)
      → a.enabled ≡ true
      → enable now (disable a).0 ≡ ok b
      → (u : Trigger) × (register now (deregister a.trigger).0 ≡ ok u)
        × (b.trigger ≡ u)
        × (b.enabled ≡ true)
  unfolding enable disable
  enable-disable now a b e h = elim (Outcome-cases (register now (deregister a.trigger).0)) [
    | inl (u, g) ↦ (u, g, ground arith, ground arith)
    | inr (inl (x, g)) ↦ absurd (ground arith)
    | inr (inr g) ↦ absurd (ground arith)
  ]

  -- An enabled automation that is disabled and then enabled again says that it is enabled, and has
  -- started one more goroutine, but its channel is still closed: a goroutine of any of the three
  -- triggers, that of a refresh trigger once it has subscribed, which finds the channel so, and nothing
  -- due, at its first wake, never calls back, whatever comes due later.
  pub reenabled_is_silent :
      (now : Time) (a b : Automation F)
      → a.enabled ≡ true
      → enable now (disable a).0 ≡ ok b
      → (b.enabled ≡ true)
        × (b.trigger.closed ≡ true)
        × (b.trigger.started ≡ (deregister a.trigger).0.started + 1)
        × ((w : Wake) (ws : List Wake)
            → w.closed ≡ b.trigger.closed
            → w.due ≡ false
            → ((t : Time) → time_loop t (w ∷ ws) ≡ [])
              × (interval_loop 0 (w ∷ ws) ≡ [])
              × ((I : Type 0) (info : I) (rest : List (Wake × I))
                  → refresh_loop ((w, info) ∷ rest) ≡ []))
  reenabled_is_silent now a b e h =
      let (u, g, t, en) = enable-disable now a b e h in
      let (closed, one) = register-closed now (deregister a.trigger).0 g in
      let shut : b.trigger.closed ≡ true =
        ap (λ (x : Trigger). x.closed) t ∙ closed ∙ deregister-closed a.trigger in
      (
        en,
        shut,
        ap (λ (x : Trigger). x.started) t ∙ one,
        λ w ws c d.
            let (timed, counted) = silent (w ∷ ws) (d, c ∙ shut) in
            (timed, counted, λ I info rest. silent_refresh ((w, info) ∷ rest) (d, c ∙ shut)),
      )
