-- ===== src/Engine/Automation.antt =====
-- automation-engine/automation.go: an automation, what happens when its trigger fires, enabling and
-- disabling, and the form that is stored and sent.
pub mod Edges
pub mod Identity
pub mod Reenable
pub mod RoundTrip
use mechanicaldinosaurs.Base.{
  ◌>>=◌, ℤ, pos, Bytes, codes, equal, if◌then◌else◌, Outcome, ok, err, panic, scale64, Bool, true,
  false, not, ◌&&◌, Option, none, some, List, [], ◌∷◌, ◌++◌,
}
use mechanicaldinosaurs.Engine.Context.{Platform, Entries}
use mechanicaldinosaurs.Engine.Condition.{Condition, EvalError, evaluate}
use mechanicaldinosaurs.Engine.Trigger.{
  Time, Kind, time_trigger, interval_trigger, Trigger, Chan, new_time_trigger, new_interval_trigger,
  new_machine_info_refresh_trigger, trigger_type, RegisterError, register, deregister,
}
use mechanicaldinosaurs.Engine.Action.{
  Action, EmailAction, SlackAction, email_action, slack_action, action_type, Request, Transport,
  ActionError, do_action,
}

-- The messages of the log, by the error that each of them wraps.
pub data LogMessage (F : Type 0) : Type 0 where
  condition_failed : EvalError F → LogMessage F
  action_failed : ActionError → LogMessage F

pub record Error (F : Type 0) : Type 0 where
  pub message : LogMessage F
  pub timestamp : Time

pub record Automation (F : Type 0) : Type 0 where
  pub id : Bytes
  pub enabled : Bool
  pub trigger : Trigger
  pub condition : Option (Condition F)
  pub action : Action
  pub last_triggered : Time
  pub last_action_done : Time
  pub error_logs : List (Error F)
  pub action_done_on_last_trigger : Bool

-- What the calls of `time.Now` return while one event is handled.
pub record Readings : Type 0 where
  pub triggered : Time
  pub condition_error : Time
  pub action_started : Time
  pub action_error : Time

-- `NewError` and the `append` to the log.
abbrev log_error : {F : Type 0} → Automation F → LogMessage F → Time → Automation F
log_error a m t = record a {
  error_logs = a.error_logs ++ record { message = m; timestamp = t } ∷ [];
}

-- What `OnTriggered` leaves: the automation, the requests that were made, and whether the goroutine
-- panicked. The deferred `saveAutomation` runs on this automation in every case.
pub record Handled (F : Type 0) : Type 0 where
  pub automation : Automation F
  pub requests : List Request
  pub panicked : Bool

module _ {F : Type 0} (p : Platform F) (transport : Transport) (clock : Readings) where
  -- The body of the `if v` with the action: an error of the action is logged, and the flag is set.
  run_action : Automation F → Entries F → Handled F
  run_action a ctx =
      let started = record a { last_action_done = clock.action_started } in
      let finished = record started { action_done_on_last_trigger = true } in
      elim (do_action p transport a.action ctx) [
        | ok (r, none) ↦ record { automation = finished; requests = r ∷ []; panicked = false }
        | ok (r, some e) ↦ record {
          automation = log_error finished (action_failed e) clock.action_error;
          requests = r ∷ [];
          panicked = false;
        }
        | err impossible ↦ absurd impossible
        | panic ↦ record { automation = started; requests = []; panicked = true }
      ]

  -- What follows the evaluation, whose result is v.
  after_verdict : Bool → Automation F → Entries F → Handled F
  unfolding trigger_type equal run_action
  after_verdict v a ctx =
      if v
      then (if a.action_done_on_last_trigger
            && not (equal (trigger_type a.trigger.kind) (codes "interval"))
          then record { automation = a; requests = []; panicked = false }
          else run_action a ctx)
      else record {
        automation = record a { action_done_on_last_trigger = false };
        requests = [];
        panicked = false;
      }

  -- `OnTriggered` up to the deferred save.
  unfoldable pub on_triggered : Automation F → Entries F → Handled F
  unfolding after_verdict
  on_triggered a ctx =
      let seen = record a { last_triggered = clock.triggered } in
      elim a.condition [
        | none ↦ after_verdict true seen ctx
        | some c ↦ elim (evaluate p c ctx) [
          | ok v ↦ after_verdict v seen ctx
          | err e ↦
              after_verdict false (log_error seen (condition_failed e) clock.condition_error) ctx
          | panic ↦ record { automation = seen; requests = []; panicked = true }
        ]
      ]

module _ {F : Type 0} where
  -- `Enable`; an automation that is enabled is left alone.
  unfoldable pub enable : Time → Automation F → Outcome RegisterError (Automation F)
  enable now a =
      if a.enabled
      then ok a
      else do t ← register now a.trigger; ok (record a { trigger = t; enabled = true })

  -- `Disable`, which cannot fail since no `Deregister` does; the channel that it unsubscribes comes
  -- with the new state.
  unfoldable pub disable : Automation F → Automation F × Option Chan
  disable a =
      if a.enabled
      then (let (t, ch) = deregister a.trigger in (record a { trigger = t; enabled = false }, ch))
      else (a, none)

-- The form for JSON. `time` and `every` are zero where the trigger has none.
pub record TriggerCommunicable (F : Type 0) : Type 0 where
  pub type_ : Bytes
  pub time : ℤ
  pub every : F

pub record ActionCommunicable : Type 0 where
  pub type_ : Bytes
  pub email : Option EmailAction
  pub slack : Option SlackAction

pub record AutomationCommunicable (F : Type 0) : Type 0 where
  pub id : Bytes
  pub enabled : Bool
  pub trigger : TriggerCommunicable F
  pub condition : Option (Condition F)
  pub action : ActionCommunicable
  pub last_triggered : Time
  pub last_action_done : Time
  pub error_logs : List (Error F)

-- The errors of `ToAutomation`.
pub data ConvertError : Type 0 where
  unknown_trigger_type : Bytes → ConvertError
  email_missing slack_missing : ConvertError
  unknown_action_type : Bytes → ConvertError

action_communicable : Action → ActionCommunicable
unfolding action_type
action_communicable (email_action e) = record {
  type_ = action_type (email_action e);
  email = some e;
  slack = none;
}
action_communicable (slack_action s) = record {
  type_ = action_type (slack_action s);
  email = none;
  slack = some s;
}

-- The check that the action of the named type is there.
abbrev present {ℓ} :
    {A : Type ℓ} → Option A → (A → Action) → ConvertError → Outcome ConvertError Action
present none f e = err e
present (some a) f e = ok (f a)

module _ {F : Type 0} (p : Platform F) where
  trigger_communicable : Kind → TriggerCommunicable F
  unfolding trigger_type
  trigger_communicable k = record { type_ = trigger_type k; time = unix_of k; every = every_of k }
    where
      unix_of : Kind → ℤ
      unix_of (time_trigger t) = t.sec
      unix_of _ = pos 0

      every_of : Kind → F
      every_of (interval_trigger d) = p.seconds d
      every_of _ = p.of_int (pos 0)

  -- `ToCommunicable`.
  unfoldable pub to_communicable : Automation F → AutomationCommunicable F
  unfolding trigger_communicable action_communicable
  to_communicable a = record {
    id = a.id;
    enabled = a.enabled;
    trigger = trigger_communicable a.trigger.kind;
    condition = a.condition;
    action = action_communicable a.action;
    last_triggered = a.last_triggered;
    last_action_done = a.last_action_done;
    error_logs = a.error_logs;
  }

  -- The switch on the type of the trigger; `time.Second` is 10^9 nanoseconds.
  to_trigger : TriggerCommunicable F → Outcome ConvertError Trigger
  unfolding equal new_time_trigger new_interval_trigger new_machine_info_refresh_trigger
  to_trigger t =
      if equal t.type_ (codes "time")
      then ok (new_time_trigger (record { sec = t.time; nsec = 0 }))
      else if equal t.type_ (codes "interval")
      then ok (new_interval_trigger (scale64 1_000_000_000 (p.to_int64 t.every)))
      else if equal t.type_ (codes "machines info refresh")
      then ok new_machine_info_refresh_trigger
      else err (unknown_trigger_type t.type_)

  to_action : ActionCommunicable → Outcome ConvertError Action
  unfolding equal
  to_action a =
      if equal a.type_ (codes "email")
      then present a.email email_action email_missing
      else if equal a.type_ (codes "slack")
      then present a.slack slack_action slack_missing
      else err (unknown_action_type a.type_)

  -- `ToAutomation`, which registers nothing.
  unfoldable pub to_automation : AutomationCommunicable F → Outcome ConvertError (Automation F)
  unfolding to_trigger to_action
  to_automation ac = do
    trigger ← to_trigger ac.trigger
    action ← to_action ac.action
    ok (record {
      id = ac.id;
      enabled = ac.enabled;
      trigger = trigger;
      condition = ac.condition;
      action = action;
      last_triggered = ac.last_triggered;
      last_action_done = ac.last_action_done;
      error_logs = ac.error_logs;
      action_done_on_last_trigger = false;
    })

-- One event: the readings of the clock, the answers of the services, and the data of the trigger.
pub record Event (F : Type 0) : Type 0 where
  pub clock : Readings
  pub transport : Transport
  pub context : Entries F

module _ {F : Type 0} (p : Platform F) where
  -- The events that the goroutine of one trigger hands to `OnTriggered`, in order; a panic ends it.
  unfoldable pub run_triggered : Automation F → List (Event F) → Handled F
  run_triggered a [] = record { automation = a; requests = []; panicked = false }
  run_triggered a (e ∷ es) =
      let h = on_triggered p e.transport e.clock a e.context in
      let rest = run_triggered h.automation es in
      if h.panicked then h else record rest { requests = h.requests ++ rest.requests }
