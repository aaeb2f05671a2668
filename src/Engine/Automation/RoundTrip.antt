-- ===== src/Engine/Automation/RoundTrip.antt =====
-- The stored form of an automation read back.
use mechanicaldinosaurs.Base.{
  ℕ, pos, ◌*◌, ◌^◌, ◌<◌, ok, err, scale64, ◌≡◌, refl, ap, ◌∙◌, false, none, [], arith,
}
use mechanicaldinosaurs.Engine.Context.{Platform}
use mechanicaldinosaurs.Engine.Trigger.{
  Kind, time_trigger, interval_trigger, machine_info_refresh_trigger, new_trigger,
}
use mechanicaldinosaurs.Engine.Action.{Action, email_action, slack_action}
use mechanicaldinosaurs.Engine.Automation.{
  Automation, AutomationCommunicable, to_communicable, to_automation, trigger_communicable,
  to_trigger, action_communicable, to_action, unknown_trigger_type,
}

abbrev second : ℕ
second = 1_000_000_000

module _ {F : Type 0} (p : Platform F) where
  -- What a trigger becomes: a time loses its nanoseconds, a duration is the whole seconds of its
  -- float, and a subscription is dropped.
  abbrev pub stored_kind : Kind → Kind
  stored_kind (time_trigger t) = time_trigger (record t { nsec = 0 })
  stored_kind (interval_trigger d) = interval_trigger (scale64 second (p.to_int64 (p.seconds d)))
  stored_kind (machine_info_refresh_trigger s) = machine_info_refresh_trigger none

  to_trigger-communicable :
      (k : Kind) → to_trigger p (trigger_communicable p k) ≡ ok (new_trigger (stored_kind k))
  unfolding to_trigger trigger_communicable
  to_trigger-communicable (time_trigger t) = refl
  to_trigger-communicable (interval_trigger d) = refl
  to_trigger-communicable (machine_info_refresh_trigger s) = refl

  to_action-communicable : (a : Action) → to_action p (action_communicable a) ≡ ok a
  unfolding to_action action_communicable
  to_action-communicable (email_action e) = refl
  to_action-communicable (slack_action s) = refl

  -- Reading back what was stored gives the automation with a new trigger of the stored kind, whose
  -- goroutines are not started, and with the flag of the last trigger cleared.
  pub to_automation-to_communicable :
      (a : Automation F)
      → to_automation p (to_communicable p a)
        ≡ ok (record a {
          trigger = new_trigger (stored_kind a.trigger.kind);
          action_done_on_last_trigger = false;
        })
  unfolding to_automation to_communicable
  to_automation-to_communicable a =
      rw (to_trigger-communicable a.trigger.kind, to_action-communicable a.action)

  -- The kinds that the stored form holds exactly: a time on a second, a duration of whole seconds in
  -- the range of int64, a trigger that has not subscribed.
  abbrev pub IsWhole : Kind → Type 0
  IsWhole (time_trigger t) = t.nsec ≡ 0
  IsWhole (interval_trigger d) = (k : ℕ) × (k * second < 2 ^ 63) × (d ≡ pos (k * second))
  IsWhole (machine_info_refresh_trigger s) = s ≡ none

  -- What the round trip needs of float64: a whole number of seconds is held exactly.
  abbrev pub HoldsSeconds : Type 0
  HoldsSeconds = (k : ℕ) → k * second < 2 ^ 63 → p.to_int64 (p.seconds (pos (k * second))) ≡ pos k

  stored_kind-IsWhole : HoldsSeconds → (k : Kind) → IsWhole k → stored_kind k ≡ k
  stored_kind-IsWhole exact (time_trigger t) h = ap time_trigger (ground arith)
  stored_kind-IsWhole exact (interval_trigger d) (k, b, e) = rw e (rw (exact k b) (ground arith))
  stored_kind-IsWhole exact (machine_info_refresh_trigger s) h = rw h

  -- An automation whose time lies on a second, or whose interval is a whole number of seconds in the
  -- range of int64, or whose refresh trigger has not subscribed, is read back as it was, but for the
  -- channel and the goroutines of its trigger and the flag of the last trigger; the platform's
  -- float64 must hold such numbers of seconds exactly.
  to_automation-to_communicable_whole :
      HoldsSeconds
      → (a : Automation F) → IsWhole a.trigger.kind
      → to_automation p (to_communicable p a)
        ≡ ok
            (record a { trigger = new_trigger a.trigger.kind; action_done_on_last_trigger = false })
  to_automation-to_communicable_whole exact a h =
      to_automation-to_communicable a
      ∙ ap (λ k. ok (record a { trigger = new_trigger k; action_done_on_last_trigger = false }))
          (stored_kind-IsWhole exact a.trigger.kind h)

  -- An interval of less than a second is read back as an interval of zero, if the platform's
  -- conversion to int64 cuts a number of seconds below one to zero: the new trigger can never tick.
  subsecond_interval_lost :
      ((d : ℕ) → d < second → p.to_int64 (p.seconds (pos d)) ≡ pos 0)
      → (a : Automation F) (d : ℕ) → d < second
      → a.trigger.kind ≡ interval_trigger (pos d)
      → to_automation p (to_communicable p a)
        ≡ ok (record a {
          trigger = new_trigger (interval_trigger (pos 0));
          action_done_on_last_trigger = false;
        })
  subsecond_interval_lost cut a d h e =
      to_automation-to_communicable a
      ∙ ap (λ k. ok (record a { trigger = new_trigger k; action_done_on_last_trigger = false }))
          (ap stored_kind e ∙ ap (λ z. interval_trigger (scale64 second z)) (cut d h))

  -- A stored form with no type of trigger is refused.
  pub to_automation_untyped :
      (ac : AutomationCommunicable F)
      → ac.trigger.type_ ≡ []
      → to_automation p ac ≡ err (unknown_trigger_type [])
  unfolding to_automation
  to_automation_untyped ac e = ground arith
