-- ===== src/Engine/Server/Keys.antt =====
-- The primary key of the table, under the requests.
use mechanicaldinosaurs.Base.{
  Bytes, equal_iff, Option-cases, Outcome-cases, ◌≡◌, refl, inl, inr, Bool, true, false, none, some,
  [], ◌∷◌, arith,
}
use mechanicaldinosaurs.Engine.Context.{Platform}
use mechanicaldinosaurs.Engine.Automation.{
  Automation, AutomationCommunicable, to_communicable, to_automation, enable,
}
use mechanicaldinosaurs.Engine.Server.{
  Env, State, Request, add_automation, delete_automation, enable_automation, disable_automation,
  clear_logs, Rows, handle, find, remove, row, upsert, delete_rows, save_automation,
  delete_automation_row, add, delete, enable_handler, disable_handler, clear_logs_handler,
}
use mechanicaldinosaurs.Engine.Server.Search.{row-upsert, row-delete_rows}

module _ {F : Type 0} where
  -- The primary key of the table.
  abbrev pub NodupKeys : Rows F → Type 0
  NodupKeys [] = Unit
  NodupKeys ((k, ac) ∷ rows) = (row k rows ≡ none) × NodupKeys rows

  pub upsert-NodupKeys :
      (k : Bytes) (ac : AutomationCommunicable F) (rows : Rows F)
      → NodupKeys rows
      → NodupKeys (upsert k ac rows)
  unfolding upsert row
  upsert-NodupKeys k ac [] u = (refl, tt)
  upsert-NodupKeys k ac ((i, old) ∷ rows) (n, u) =
      ground
        (arith, equal_iff i k, equal_iff k i, row-upsert k i ac rows, upsert-NodupKeys k ac rows u)

  pub delete_rows-NodupKeys :
      (k : Bytes) (rows : Rows F) → NodupKeys rows → NodupKeys (delete_rows k rows)
  unfolding delete_rows
  delete_rows-NodupKeys k [] u = tt
  delete_rows-NodupKeys k ((i, old) ∷ rows) (n, u) =
      ground (arith, equal_iff k i, row-delete_rows k i rows, delete_rows-NodupKeys k rows u)

module _ {F : Type 0} (p : Platform F) where
  pub save_automation-NodupKeys :
      (works : Bool) (a : Automation F) (rows : Rows F)
      → NodupKeys rows
      → NodupKeys (save_automation p works a rows)
  unfolding save_automation
  save_automation-NodupKeys true a rows u = upsert-NodupKeys a.id (to_communicable p a) rows u
  save_automation-NodupKeys false a rows u = u

  delete_automation_row-NodupKeys :
      (works : Bool) (a : Automation F) (rows : Rows F)
      → NodupKeys rows
      → NodupKeys (delete_automation_row p works a rows)
  unfolding delete_automation_row
  delete_automation_row-NodupKeys true a rows u = delete_rows-NodupKeys a.id rows u
  delete_automation_row-NodupKeys false a rows u = u

  pub handle-NodupKeys :
      (env : Env) (r : Request F) (s : State F)
      → NodupKeys s.rows
      → NodupKeys (handle p env r s).0.rows
  unfolding handle
  handle-NodupKeys env (add_automation none) s u = u
  handle-NodupKeys env (add_automation (some ac)) s u = elim (Outcome-cases (to_automation p ac)) [
    | inl (a, e) ↦ rw (e, add) (save_automation-NodupKeys env.works _ s.rows u)
    | inr (inl (x, e)) ↦ rw (e, add) u
    | inr (inr e) ↦ rw (e, add) u
  ]
  handle-NodupKeys env (delete_automation none) s u = u
  handle-NodupKeys env (delete_automation (some id)) s u =
      elim (Option-cases (find id s.automations)) [
        | inl e ↦ rw (e, delete) u
        | inr (a, e) ↦ rw (e, delete) (delete_automation_row-NodupKeys env.works a s.rows u)
      ]
  handle-NodupKeys env (enable_automation id) s u = elim (Option-cases (find id s.automations)) [
    | inl e ↦ rw (e, enable_handler) u
    | inr (a, e) ↦
        rw (e, enable_handler)
          (elim (Outcome-cases (enable env.now a)) [
            | inl (b, g) ↦ rw g (save_automation-NodupKeys env.works b s.rows u)
            | inr (inl (x, g)) ↦ rw g u
            | inr (inr g) ↦ rw g u
          ])
  ]
  handle-NodupKeys env (disable_automation id) s u = elim (Option-cases (find id s.automations)) [
    | inl e ↦ rw (e, disable_handler) u
    | inr (a, e) ↦ rw (e, disable_handler) (save_automation-NodupKeys env.works _ s.rows u)
  ]
  handle-NodupKeys env (clear_logs id) s u = elim (Option-cases (find id s.automations)) [
    | inl e ↦ rw (e, clear_logs_handler) u
    | inr (a, e) ↦ rw (e, clear_logs_handler) (save_automation-NodupKeys env.works _ s.rows u)
  ]

  -- A request to delete an automation that the slice holds.
  pub handle-delete :
      (env : Env) (id : Bytes) (s : State F) {a : Automation F}
      → find id s.automations ≡ some a
      → env.works ≡ true
      → ((handle p env (delete_automation (some id)) s).0.automations ≡ remove id s.automations)
        × ((handle p env (delete_automation (some id)) s).0.rows ≡ delete_rows a.id s.rows)
  unfolding handle
  handle-delete env id s f w = (rw (f, delete), rw (f, delete) (rw (w, delete_automation_row)))
