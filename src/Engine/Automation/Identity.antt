-- ===== src/Engine/Automation/Identity.antt =====
-- automation-engine/automation.go: the id of an automation under the operations.
use mechanicaldinosaurs.Base.{ok, ◌≡◌, arith}
use mechanicaldinosaurs.Engine.Context.{Platform}
use mechanicaldinosaurs.Engine.Trigger.{Time}
use mechanicaldinosaurs.Engine.Automation.{
  Automation, AutomationCommunicable, Event, to_automation, on_triggered, enable, disable,
}

module _ {F : Type 0} where
  pub enable-id :
      (now : Time) (a : Automation F) {b : Automation F} → enable now a ≡ ok b → b.id ≡ a.id
  unfolding enable
  enable-id now a {b} e = ground arith

  pub disable-id : (a : Automation F) → (disable a).0.id ≡ a.id
  unfolding disable
  disable-id a = ground arith

module _ {F : Type 0} (p : Platform F) where
  pub to_automation-id :
      (ac : AutomationCommunicable F) {a : Automation F} → to_automation p ac ≡ ok a → a.id ≡ ac.id
  unfolding to_automation
  to_automation-id ac {a} e = ground arith

  pub on_triggered-id :
      (e : Event F) (a : Automation F)
      → (on_triggered p e.transport e.clock a e.context).automation.id ≡ a.id
  unfolding on_triggered
  on_triggered-id e a = ground arith
