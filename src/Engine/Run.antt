-- ===== src/Engine/Run.antt =====
-- The engine as it runs: the requests of server.go and the triggers that fire, in any order. A
-- callback of a trigger is two steps: `OnTriggered` up to its deferred `saveAutomation`, with the
-- changes that it makes in memory, and that save, before which requests may be served. A callback
-- holds its automation by a pointer, also when the automation has left the slice.
pub mod Deleted
pub mod Restart
pub mod Steps
use mechanicaldinosaurs.Base.{
  Bytes, equal, if◌then◌else◌, Bool, false, true, Option, none, some, List, [], ◌∷◌,
}
use mechanicaldinosaurs.Engine.Context.{Platform}
use mechanicaldinosaurs.Engine.Automation.{Automation, Event, on_triggered, disable}
use mechanicaldinosaurs.Engine.Server.{
  State, Request, delete_automation, find, replace, save_automation,
}
use mechanicaldinosaurs.Engine.Server.Guard.{Call, Served, guarded}

-- What happens: a request comes; the trigger of the automation with an id fires; the callback that
-- was started for it saves, where the statement works or not.
pub data Happening (F : Type 0) : Type 0 where
  called : Call F → Happening F
  fired : Bytes → Event F → Happening F
  saved : Bool → Bytes → Happening F

-- The server; the automations that have left the slice, the last one first; and the ids of the
-- callbacks whose save is still to come.
pub record Running (F : Type 0) : Type 0 where
  pub served : Served F
  pub removed : List (Automation F)
  pub pending : List Bytes

-- Whether a save is still to come for an id.
unfoldable pub member : Bytes → List Bytes → Bool
unfolding equal
member id [] = false
member id (x ∷ xs) = let rest = member id xs in if equal x id then true else rest

-- The callback that comes to its end.
unfoldable pub discard : Bytes → List Bytes → List Bytes
unfolding equal
discard id [] = []
discard id (x ∷ xs) = let rest = discard id xs in if equal x id then xs else x ∷ rest

module _ {F : Type 0} where
  -- The automation of a request to delete, if that took it out of the slice: it is disabled.
  pub left : Request F → State F → State F → List (Automation F) → List (Automation F)
  unfolding find disable
  left (delete_automation (some id)) before after removed = elim (find id before.automations) [
    | none ↦ removed
    | some a ↦ elim (find id after.automations) [
      | none ↦ (disable a).0 ∷ removed
      | some b ↦ removed
    ]
  ]
  left _ before after removed = removed

  abbrev with_state : State F → Running F → Running F
  with_state s w = record w { served = record { locked = w.served.locked; state = s } }

  -- The automation that a callback for the id holds.
  abbrev pub held : Bytes → Running F → Option (Automation F)
  held id w = elim (find id w.served.state.automations) [
    | some a ↦ some a
    | none ↦ find id w.removed
  ]

module _ {F : Type 0} (p : Platform F) where
  -- `OnTriggered` without the deferred call, on the automation wherever it is.
  pub fire_callback : Bytes → Event F → Running F → Running F
  unfolding find replace
  fire_callback id e w =
      let handled =
        λ (a : Automation F). (on_triggered p e.transport e.clock a e.context).automation in
      let started = record w { pending = id ∷ w.pending } in
      elim (find id w.served.state.automations) [
        | some a ↦
            with_state
              (record w.served.state {
                automations = replace id (handled a) w.served.state.automations;
              })
              started
        | none ↦ elim (find id w.removed) [
          | some a ↦ record started { removed = replace id (handled a) w.removed }
          | none ↦ w
        ]
      ]

  -- The deferred save, of the automation as it is then.
  pub save_callback : Bool → Bytes → Running F → Running F
  unfolding save_automation discard find
  save_callback works id w =
      let ended = record w { pending = discard id w.pending } in
      if member id w.pending
      then elim (held id w) [
        | some a ↦
            with_state
              (record w.served.state { rows = save_automation p works a w.served.state.rows }) ended
        | none ↦ ended
      ]
      else w

module _ {F : Type 0} (p : Platform F) (secret : Bytes) where
  -- A request through the middleware.
  pub call_engine : Call F → Running F → Running F
  unfolding guarded left
  call_engine c w =
      let (served, reply) = guarded p secret c w.served in
      record w { served = served; removed = left c.request w.served.state served.state w.removed }

  pub step : Happening F → Running F → Running F
  unfolding call_engine fire_callback save_callback
  step (called c) w = call_engine c w
  step (fired id e) w = fire_callback p id e w
  step (saved works id) w = save_callback p works id w

  unfoldable pub run : List (Happening F) → Running F → Running F
  unfolding step
  run [] w = w
  run (h ∷ hs) w = run hs (step h w)
