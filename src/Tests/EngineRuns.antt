-- ===== src/Tests/EngineRuns.antt =====
-- Runs of the automation engine at concrete inputs.
use mechanicaldinosaurs.Base.{ℕ, ℤ, codes, equal, ◌≡◌, refl, true, false, none, some, List, [], ◌∷◌}
use mechanicaldinosaurs.Engine.Automation.{to_communicable, to_automation, on_triggered}
use mechanicaldinosaurs.Engine.Action.{do_action}
use mechanicaldinosaurs.Engine.Condition.{evaluate}
use mechanicaldinosaurs.Engine.Context.{get}
use mechanicaldinosaurs.Engine.Trigger.{register}
use mechanicaldinosaurs.Engine.Server.{add_automation, handle, find, row}
use mechanicaldinosaurs.Engine.Server.Guard.{Call}
use mechanicaldinosaurs.Engine.Run.{called, fired, saved, Running, member, discard, run}
use mechanicaldinosaurs.Engine.Run.Deleted.{deletion, deletion-undone}
use mechanicaldinosaurs.Engine.Run.Steps.{IsSettled, run-IsSettled}
use mechanicaldinosaurs.Tests.Engine.{nanos, alarm, at, works, on, seen_machine}

abbrev secret : List ℕ
secret = codes "s"

abbrev idle : Running ℤ
idle = record {
  served = record {
    locked = false;
    state = record { automations = []; rows = []; unsubscribed = [] };
  };
  removed = [];
  pending = [];
}

abbrev adds : Call ℤ
adds = record {
  env = works;
  authorization = codes "Bearer s";
  request = add_automation (some (to_communicable nanos alarm));
}

idle-IsSettled : IsSettled nanos secret idle
unfolding row find member
idle-IsSettled = record { distinct = tt; stored = λ id _. refl; alive = λ id h. absurd cc }

-- After the automation was added and its trigger has fired: its save is still to come.
abbrev firing : Running ℤ
firing = run nanos secret (called adds ∷ fired (codes "a1") (on seen_machine) ∷ []) idle

firing-IsSettled : IsSettled nanos secret firing
unfolding find to_communicable run member discard row equal on_triggered
firing-IsSettled =
    run-IsSettled nanos secret (called adds ∷ fired (codes "a1") (on seen_machine) ∷ []) idle
      ((refl, refl, tt), (refl, tt)) idle-IsSettled

deletion-undone_example :
    find
      (codes "a1")
      (run nanos secret
        (called (deletion nanos secret works (codes "a1")) ∷ saved true (codes "a1") ∷ [])
        firing).served.state.automations
    ≡ none
unfolding find to_communicable run member discard row equal on_triggered handle to_automation
    register evaluate get do_action
deletion-undone_example =
    (deletion-undone nanos secret works (codes "a1") firing refl refl firing-IsSettled refl (at 30)
      (refl, tt) refl).0
