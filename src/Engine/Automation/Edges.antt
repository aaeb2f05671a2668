-- ===== src/Engine/Automation/Edges.antt =====
-- automation-engine/automation.go, `OnTriggered` over a sequence of events.
use mechanicaldinosaurs.Base.{
  ℕ, ◌+◌, codes, equal, if◌then◌else◌, length, length-append, ok, err, panic, ◌≡◌, refl, ap, ◌∙◌,
  Bool, true, false, not, ◌&&◌, ◌||◌, Option, none, some, List, [], ◌∷◌, ◌++◌, arith,
}
use mechanicaldinosaurs.Engine.Context.{Platform, Entries}
use mechanicaldinosaurs.Engine.Condition.{Condition, evaluate}
use mechanicaldinosaurs.Engine.Trigger.{Trigger, trigger_type}
use mechanicaldinosaurs.Engine.Action.{Transport}
use mechanicaldinosaurs.Engine.Automation.{
  Automation, Readings, Event, on_triggered, run_action, run_triggered,
}

module _ {F : Type 0} (p : Platform F) where
  -- Whether the condition is met: with no condition it is, with an error of its evaluation it is not.
  abbrev pub is_met : Option (Condition F) → Entries F → Bool
  is_met none ctx = true
  is_met (some c) ctx = elim (evaluate p c ctx) [ ok v ↦ v | err e ↦ false | panic ↦ false ]

abbrev pub is_interval : Trigger → Bool
is_interval t = equal (trigger_type t.kind) (codes "interval")

-- How often the values go from false to true, after the value `before`.
abbrev pub rises : Bool → List Bool → ℕ
rises before [] = 0
rises before (v ∷ vs) = (if v && not before then 1 else 0) + rises v vs

abbrev pub count_true : List Bool → ℕ
count_true [] = 0
count_true (v ∷ vs) = (if v then 1 else 0) + count_true vs

module _ {F : Type 0} (p : Platform F) where
  run_action-step :
      (t : Transport) (k : Readings) (a : Automation F) (ctx : Entries F)
      → let h = run_action p t k a ctx in
        h.panicked ≡ false
        → (length h.requests ≡ 1)
          × (h.automation.action_done_on_last_trigger ≡ true)
          × (h.automation.condition ≡ a.condition)
          × (h.automation.trigger ≡ a.trigger)
  unfolding run_action
  run_action-step t k a ctx e = ground arith

  on_triggered-step :
      (e : Event F) (a : Automation F)
      → let h = on_triggered p e.transport e.clock a e.context in
        let v = is_met p a.condition e.context in
        h.panicked ≡ false
        → (length h.requests
            ≡ (if v && (is_interval a.trigger || not a.action_done_on_last_trigger) then 1 else 0))
          × (h.automation.action_done_on_last_trigger ≡ v)
          × (h.automation.condition ≡ a.condition)
          × (h.automation.trigger ≡ a.trigger)
  unfolding on_triggered
  on_triggered-step e a q =
      let seen = record a { last_triggered = e.clock.triggered } in
      ground (arith, run_action-step e.transport e.clock seen e.context)

  run_triggered-panicked :
      (a : Automation F) (e : Event F) (es : List (Event F))
      → (run_triggered p a (e ∷ es)).panicked ≡ false
      → let h = on_triggered p e.transport e.clock a e.context in
        (h.panicked ≡ false)
        × ((run_triggered p h.automation es).panicked ≡ false)
        × ((run_triggered p a (e ∷ es)).requests
            ≡ h.requests ++ (run_triggered p h.automation es).requests)
        × ((run_triggered p a (e ∷ es)).automation ≡ (run_triggered p h.automation es).automation)
  unfolding run_triggered
  run_triggered-panicked a e es q = ground arith

  -- The values of the condition at the events, while the automation keeps its condition c.
  abbrev pub verdicts : Option (Condition F) → List (Event F) → List Bool
  verdicts c [] = []
  verdicts c (e ∷ es) = is_met p c e.context ∷ verdicts c es

  -- One event and the rest: the requests add up, and the rest starts with the flag that the event
  -- leaves, under the same condition and trigger.
  run_triggered-cons :
      (a : Automation F) (e : Event F) (es : List (Event F))
      → (run_triggered p a (e ∷ es)).panicked ≡ false
      → (b : Automation F) × ((run_triggered p b es).panicked ≡ false)
        × (b.action_done_on_last_trigger ≡ is_met p a.condition e.context)
        × (b.condition ≡ a.condition)
        × (b.trigger ≡ a.trigger)
        × (length (run_triggered p a (e ∷ es)).requests
            ≡ (if is_met p a.condition e.context
                  && (is_interval a.trigger || not a.action_done_on_last_trigger)
                then 1
                else 0)
              + length (run_triggered p b es).requests)
  run_triggered-cons a e es q =
      let (q0, q1, r, _) = run_triggered-panicked a e es q in
      let (n, flag, same, trig) = on_triggered-step e a q0 in
      let h = on_triggered p e.transport e.clock a e.context in
      (
        h.automation,
        q1,
        flag,
        same,
        trig,
        ap length r
            ∙ length-append h.requests _
            ∙ ap (λ k. k + length (run_triggered p h.automation es).requests) n,
      )

  -- Over any events in which nothing panics, an automation whose trigger is no interval does its
  -- action once for each time that its condition goes from false to true, counted from its flag.
  pub action_on_rising_edge :
      (a : Automation F) (es : List (Event F))
      → is_interval a.trigger ≡ false
      → (run_triggered p a es).panicked ≡ false
      → length (run_triggered p a es).requests
        ≡ rises a.action_done_on_last_trigger (verdicts a.condition es)
  unfolding run_triggered
  action_on_rising_edge a [] i q = refl
  action_on_rising_edge a (e ∷ es) i q =
      let (b, q1, flag, same, trig, n) = run_triggered-cons a e es q in
      let ih = action_on_rising_edge b es (rw trig i) q1 in rw n (rw (i, rw (flag, same) at ih))

  -- Over any events in which nothing panics, an automation with an interval trigger does its action
  -- at each event at which its condition is met.
  pub action_on_each_interval :
      (a : Automation F) (es : List (Event F))
      → is_interval a.trigger ≡ true
      → (run_triggered p a es).panicked ≡ false
      → length (run_triggered p a es).requests ≡ count_true (verdicts a.condition es)
  unfolding run_triggered
  action_on_each_interval a [] i q = refl
  action_on_each_interval a (e ∷ es) i q =
      let (b, q1, flag, same, trig, n) = run_triggered-cons a e es q in
      let ih = action_on_each_interval b es (rw trig i) q1 in rw n (ground (arith, rw same at ih))
