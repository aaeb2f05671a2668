-- ===== src/Engine/Server.antt =====
-- automation-engine/server.go: the guard of the API and its five handlers, over the automations in
-- memory and their rows in the database. A handler replaces the automation that it found in place;
-- each object stands in the slice once, so the slice is modelled by the objects' values.
pub mod Guard
pub mod Keys
pub mod Search
pub mod Sync
use mechanicaldinosaurs.Base.{
  ℕ, Bytes, equal, if◌then◌else◌, ok, err, panic, Bool, false, Option, none, some, List, [], ◌∷◌,
  ◌++◌,
}
use mechanicaldinosaurs.Engine.Context.{Platform}
use mechanicaldinosaurs.Engine.Trigger.{Time, Chan, RegisterError, register}
use mechanicaldinosaurs.Engine.Automation.{
  Automation, AutomationCommunicable, to_communicable, to_automation, enable, disable, Event,
  on_triggered,
}

-- Some statement of `pool.Exec` may fail, which the code does not look at; `now` is the clock.
pub record Env : Type 0 where
  pub now : Time
  pub works : Bool

abbrev pub Rows : Type 0 → Type 0
Rows F = List (Bytes × AutomationCommunicable F)

-- `automations`, the table console_automation, and the channels that were unsubscribed.
pub record State (F : Type 0) : Type 0 where
  pub automations : List (Automation F)
  pub rows : Rows F
  pub unsubscribed : List Chan

module _ {F : Type 0} where
  -- The search that each handler makes: the first automation with the id.
  unfoldable pub find : Bytes → List (Automation F) → Option (Automation F)
  unfolding equal
  find id [] = none
  find id (a ∷ as_) = if equal a.id id then some a else find id as_

  -- The automation that `find` gives, replaced where it stands.
  unfoldable pub replace : Bytes → Automation F → List (Automation F) → List (Automation F)
  unfolding equal
  replace id b [] = []
  replace id b (a ∷ as_) = if equal a.id id then b ∷ as_ else a ∷ replace id b as_

  -- `append(automations[:index], automations[index+1:]...)`.
  unfoldable pub remove : Bytes → List (Automation F) → List (Automation F)
  unfolding equal
  remove id [] = []
  remove id (a ∷ as_) = if equal a.id id then as_ else a ∷ remove id as_

  -- The table by its primary key: what a row holds, `INSERT ... ON CONFLICT DO UPDATE`, `DELETE`.
  unfoldable pub row : Bytes → Rows F → Option (AutomationCommunicable F)
  unfolding equal
  row id [] = none
  row id ((k, ac) ∷ rows) = if equal k id then some ac else row id rows

  unfoldable pub upsert : Bytes → AutomationCommunicable F → Rows F → Rows F
  unfolding equal
  upsert id ac [] = (id, ac) ∷ []
  upsert id ac ((k, old) ∷ rows) =
      if equal k id then (k, ac) ∷ rows else (k, old) ∷ upsert id ac rows

  pub delete_rows : Bytes → Rows F → Rows F
  unfolding equal
  delete_rows id [] = []
  delete_rows id ((k, old) ∷ rows) =
      let rest = delete_rows id rows in if equal k id then rest else (k, old) ∷ rest

  -- An automation that comes in enabled is registered, and disabled if that fails.
  unfoldable pub register_new : Time → Automation F → Automation F
  register_new now a =
      if a.enabled
      then elim (register now a.trigger) [
        | ok t ↦ record a { trigger = t }
        | err e ↦ record a { enabled = false }
        | panic ↦ a
      ]
      else a

-- The five routes with their decoded bodies; none is a body that `Bind` refuses.
pub data Request (F : Type 0) : Type 0 where
  add_automation : Option (AutomationCommunicable F) → Request F
  delete_automation : Option Bytes → Request F
  enable_automation disable_automation clear_logs : Bytes → Request F

pub data Reply : Type 0 where
  created done invalid_body not_found unauthorized : Reply
  enable_failed : RegisterError → Reply

-- The status of each reply.
abbrev pub status : Reply → ℕ
status created = 201
status done = 200
status invalid_body = 400
status not_found = 404
status unauthorized = 401
status (enable_failed e) = 500

module _ {F : Type 0} (p : Platform F) where
  -- `saveAutomation` and `deleteAutomation`.
  unfoldable pub save_automation : Bool → Automation F → Rows F → Rows F
  unfolding upsert
  save_automation works a rows = if works then upsert a.id (to_communicable p a) rows else rows

  pub delete_automation_row : Bool → Automation F → Rows F → Rows F
  unfolding delete_rows
  delete_automation_row works a rows = if works then delete_rows a.id rows else rows

  -- The handler of `POST /automations`.
  add : Env → Option (AutomationCommunicable F) → State F → State F × Reply
  unfolding save_automation register_new
  add env none s = (s, invalid_body)
  add env (some ac) s = elim (to_automation p ac) [
    | ok a ↦
        let b = register_new env.now a in
        (
          record s {
            automations = s.automations ++ b ∷ [];
            rows = save_automation env.works b s.rows;
          },
          created,
        )
    | err e ↦ (s, invalid_body)
    | panic ↦ (s, invalid_body)
  ]

  abbrev unsubscribe_all : Option Chan → List Chan → List Chan
  unsubscribe_all none chans = chans
  unsubscribe_all (some ch) chans = ch ∷ chans

  -- The handler of `POST /automations/delete`.
  delete : Env → Option Bytes → State F → State F × Reply
  unfolding find remove delete_automation_row
  delete env none s = (s, invalid_body)
  delete env (some id) s = elim (find id s.automations) [
    | none ↦ (s, not_found)
    | some a ↦ (
      record s {
        automations = remove id s.automations;
        rows = delete_automation_row env.works a s.rows;
        unsubscribed = unsubscribe_all (disable a).1 s.unsubscribed;
      },
      done,
    )
  ]

  -- The rest of a handler that changed the automation it found: it is stored.
  store : Env → Bytes → Automation F → State F → State F
  unfolding replace save_automation
  store env id b s = record s {
    automations = replace id b s.automations;
    rows = save_automation env.works b s.rows;
  }

  -- The handlers of `POST /automations/:id/enable`, `/disable` and `/clear-logs`.
  enable_handler : Env → Bytes → State F → State F × Reply
  unfolding find store
  enable_handler env id s = elim (find id s.automations) [
    | none ↦ (s, not_found)
    | some a ↦ elim (enable env.now a) [
      | ok b ↦ (store env id b s, done)
      | err e ↦ (s, enable_failed e)
      | panic ↦ (s, done)
    ]
  ]

  disable_handler : Env → Bytes → State F → State F × Reply
  unfolding find store
  disable_handler env id s = elim (find id s.automations) [
    | none ↦ (s, not_found)
    | some a ↦
        let (b, ch) = disable a in
        let stored = store env id b s in
        (record stored { unsubscribed = unsubscribe_all ch s.unsubscribed }, done)
  ]

  clear_logs_handler : Env → Bytes → State F → State F × Reply
  unfolding find store
  clear_logs_handler env id s = elim (find id s.automations) [
    | none ↦ (s, not_found)
    | some a ↦ (store env id (record a { error_logs = [] }) s, done)
  ]

  unfoldable pub handle : Env → Request F → State F → State F × Reply
  unfolding add delete enable_handler disable_handler clear_logs_handler
  handle env (add_automation body) s = add env body s
  handle env (delete_automation body) s = delete env body s
  handle env (enable_automation id) s = enable_handler env id s
  handle env (disable_automation id) s = disable_handler env id s
  handle env (clear_logs id) s = clear_logs_handler env id s

  -- A trigger fires on the automation with the id: `OnTriggered` with its deferred save.
  fire : Bool → Bytes → Event F → State F → State F
  unfolding find replace save_automation
  fire works id e s = elim (find id s.automations) [
    | none ↦ s
    | some a ↦
        let b = (on_triggered p e.transport e.clock a e.context).automation in
        record s { automations = replace id b s.automations; rows = save_automation works b s.rows }
  ]
