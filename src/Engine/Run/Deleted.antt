-- ===== src/Engine/Run/Deleted.antt =====
-- An automation that is deleted between the start of a callback and its deferred save.
use mechanicaldinosaurs.Base.{
  Bytes, codes, ◌++◌, equal, equal_iff, if◌then◌else◌, ◌≡◌, refl, sym, ap, subst, ◌∙◌, inr, true,
  false, none, some, List, [], ◌∷◌, arith,
}
use mechanicaldinosaurs.Engine.Context.{Platform}
use mechanicaldinosaurs.Engine.Trigger.{Time}
use mechanicaldinosaurs.Engine.Automation.{Automation, to_communicable, disable}
use mechanicaldinosaurs.Engine.Automation.Identity.{disable-id}
use mechanicaldinosaurs.Engine.Server.{
  Env, State, delete_automation, find, remove, row, upsert, delete_rows, handle,
}
use mechanicaldinosaurs.Engine.Server.Guard.{Call, guarded}
use mechanicaldinosaurs.Engine.Server.Keys.{
  NodupKeys, upsert-NodupKeys, delete_rows-NodupKeys, handle-delete,
}
use mechanicaldinosaurs.Engine.Server.Search.{find-id, find-remove, row-upsert, row-delete_rows}
use mechanicaldinosaurs.Engine.Server.Sync.{map_option}
use mechanicaldinosaurs.Engine.Main.{serving, main_engine, main_engine-serving}
use mechanicaldinosaurs.Engine.Run.{
  called, saved, Running, member, held, left, call_engine, save_callback, step, run,
}
use mechanicaldinosaurs.Engine.Run.Steps.{IsSettled}
use mechanicaldinosaurs.Engine.Run.Restart.{restored, scanned, load_save-scanned}

member_self : (id : Bytes) → member id (id ∷ []) ≡ true
unfolding member
member_self id = rw ((equal_iff id id).1 refl) refl

member_other : (id j : Bytes) → equal id j ≡ false → member j (id ∷ []) ≡ false
unfolding member
member_other id j e = rw e refl

module _ {F : Type 0} (p : Platform F) (secret : Bytes) where
  -- A request to delete, with the authorization of the engine.
  abbrev pub deletion : Env → Bytes → Call F
  deletion env id = record {
    env = env;
    authorization = codes "Bearer " ++ secret;
    request = delete_automation (some id);
  }

  left-deletion :
      (id : Bytes) (before after : State F) (removed : List (Automation F)) {a : Automation F}
      → find id before.automations ≡ some a
      → find id after.automations ≡ none
      → left (delete_automation (some id)) before after removed ≡ (disable a).0 ∷ removed
  unfolding left
  left-deletion id before after removed f n = rw (f, left) (rw n refl)

  save_removed :
      (id : Bytes) (w : Running F) (b : Automation F)
      → member id w.pending ≡ true
      → find id w.served.state.automations ≡ none
      → find id w.removed ≡ some b
      → ((save_callback p true id w).served.state.automations ≡ w.served.state.automations)
        × ((save_callback p true id w).served.state.rows
            ≡ upsert b.id (to_communicable p b) w.served.state.rows)
  unfolding save_callback
  save_removed id w b m n r = (
    rw (m, save_callback) (rw (n, held) (rw r refl)),
    rw (m, save_callback) (rw (n, held) (rw r refl)),
  )

  module _ (env : Env) (id : Bytes) (w : Running F) {a : Automation F}
      (unlocked : w.served.locked ≡ false) (works : env.works ≡ true)
      (settled : IsSettled p secret w) (f : find id w.served.state.automations ≡ some a) where
    deletion-state :
        (guarded p secret (deletion env id) w.served).0.state
        ≡ (handle p env (delete_automation (some id)) w.served.state).0
    unfolding guarded
    deletion-state =
        rw (unlocked, (equal_iff (codes "Bearer " ++ secret) (codes "Bearer " ++ secret)).1 refl)

    abbrev deleted : Running F
    deleted = call_engine p secret (deletion env id) w

    deleted-automations : deleted.served.state.automations ≡ remove id w.served.state.automations
    unfolding call_engine
    deleted-automations =
        ap (λ s. s.automations) deletion-state ∙ (handle-delete p env id w.served.state f works).0

    deleted-rows : deleted.served.state.rows ≡ delete_rows a.id w.served.state.rows
    unfolding call_engine
    deleted-rows =
        ap (λ s. s.rows) deletion-state ∙ (handle-delete p env id w.served.state f works).1

    find-removed : find id (remove id w.served.state.automations) ≡ none
    find-removed =
        find-remove id id w.served.state.automations settled.distinct
        ∙ rw ((equal_iff id id).1 refl) refl

    find-deleted : find id deleted.served.state.automations ≡ none
    find-deleted = ap (find id) deleted-automations ∙ find-removed

    deleted-removed : deleted.removed ≡ (disable a).0 ∷ w.removed
    unfolding call_engine
    deleted-removed = left-deletion id w.served.state deleted.served.state w.removed f find-deleted

    after_save : Running F
    after_save = save_callback p true id deleted

    module _ (m : member id w.pending ≡ true) where
      after_save-state :
          (after_save.served.state.automations ≡ remove id w.served.state.automations)
          × (after_save.served.state.rows
              ≡ upsert id (to_communicable p (disable a).0) (delete_rows id w.served.state.rows))
      unfolding after_save call_engine find
      after_save-state =
          let i : a.id ≡ id = find-id id w.served.state.automations f in
          let d : (disable a).0.id ≡ id = disable-id a ∙ i in
          let held_ : find id deleted.removed ≡ some (disable a).0 =
            ap (find id) deleted-removed ∙ rw d (rw ((equal_iff id id).1 refl) refl) in
          let (kept, put) = save_removed id deleted (disable a).0 m find-deleted held_ in
          (kept ∙ deleted-automations, put ∙ rw d (rw (deleted-rows) (rw i refl)))

      -- What the table then holds: the deleted automation under its id, and the others as before.
      after_save-rows :
          (j : Bytes)
          → (equal id j ≡ false → member j w.pending ≡ false)
          → row j after_save.served.state.rows
            ≡ map_option
                (to_communicable p)
                (if equal id j then some (disable a).0 else find j w.served.state.automations)
      after_save-rows j others =
          ap (row j) after_save-state.1
          ∙ row-upsert id j (to_communicable p (disable a).0) (delete_rows id w.served.state.rows)
          ∙ ground (arith, row-delete_rows id j w.served.state.rows, settled.stored j, others)

      after_save-ids :
          (j : Bytes) (b : Automation F)
          → (if equal id j then some (disable a).0 else find j w.served.state.automations) ≡ some b
          → b.id ≡ j
      after_save-ids j b h = ground (
        arith,
        equal_iff id j,
        disable-id a,
        find-id id w.served.state.automations f,
        find-id j w.served.state.automations {a = b},
      )

      after_save-NodupKeys : NodupKeys w.served.state.rows → NodupKeys after_save.served.state.rows
      after_save-NodupKeys u =
          subst NodupKeys (sym after_save-state.1)
            (upsert-NodupKeys id _ _ (delete_rows-NodupKeys id w.served.state.rows u))

    -- The automation of a callback that has still to save is deleted, and then the callback saves:
    -- the engine answers for no such automation any more, and yet the next start has it again, as the
    -- request left it; if the statements on the database work, no other save is still to come, and
    -- the table was in step.
    pub deletion-undone :
        (now : Time)
        → NodupKeys w.served.state.rows
        → w.pending ≡ id ∷ []
        → let after = run p secret (called (deletion env id) ∷ saved true id ∷ []) w in
          (find id after.served.state.automations ≡ none)
          × (as_ : List (Automation F)) × (main_engine p now
                (inr (scanned p after.served.state.rows))
              ≡ serving as_)
          × (find id as_ ≡ some (restored p now (disable a).0))
    unfolding run step after_save
    deletion-undone now u q =
        let m : member id w.pending ≡ true = ap (member id) q ∙ member_self id in
        let (as_, loaded, found) =
          load_save-scanned p now after_save.served.state.rows
            (λ j. if equal id j then some (disable a).0 else find j w.served.state.automations)
            (after_save-NodupKeys m u)
            (λ j. after_save-rows m j (λ e. ap (member j) q ∙ member_other id j e))
            (after_save-ids m) in
        (
          ap (find id) (after_save-state m).0 ∙ find-removed,
          as_,
          main_engine-serving p now (inr (scanned p after_save.served.state.rows)) as_ loaded,
          found id ∙ rw ((equal_iff id id).1 refl) refl,
        )
