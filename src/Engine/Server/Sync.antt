-- ===== src/Engine/Server/Sync.antt =====
-- automation-engine/server.go: the rows of the database against the automations in memory.
use mechanicaldinosaurs.Base.{
  Bytes, equal_iff, Option-cases, Outcome-cases, ◌≡◌, refl, ap, ◌∙◌, ◌≢◌, inl, inr, Bool, true,
  false, Option, none, some, List, [], ◌∷◌, ◌++◌, arith,
}
use mechanicaldinosaurs.Engine.Context.{Platform}
use mechanicaldinosaurs.Engine.Trigger.{Time, Chan}
use mechanicaldinosaurs.Engine.Automation.{
  Automation, Event, to_communicable, to_automation, enable, disable,
}
use mechanicaldinosaurs.Engine.Automation.Identity.{
  to_automation-id, enable-id, disable-id, on_triggered-id,
}
use mechanicaldinosaurs.Engine.Server.{
  Env, State, Request, add_automation, delete_automation, enable_automation, disable_automation,
  clear_logs, handle, fire, find, replace, remove, row, register_new, save_automation,
  delete_automation_row, add, delete, enable_handler, disable_handler, clear_logs_handler,
}
use mechanicaldinosaurs.Engine.Server.Search.{
  Distinct, find-id, find-append, append-Distinct, find-replace, replace-Distinct, find-remove,
  remove-Distinct, row-upsert, row-delete_rows,
}

pub register_new-id : {F : Type 0} (now : Time) (a : Automation F) → (register_new now a).id ≡ a.id
unfolding register_new
register_new-id now a = ground arith

abbrev pub map_option {ℓ κ} : {A : Type ℓ} {B : Type κ} → (A → B) → Option A → Option B
map_option f none = none
map_option f (some a) = some (f a)

module _ {F : Type 0} (p : Platform F) where
  -- No id stands twice, and for every id the table holds the stored form of the automation that has
  -- it, and nothing if none has it.
  pub record Synced (s : State F) : Type 0 where
    pub distinct : Distinct s.automations
    pub stored :
        (id : Bytes) → row id s.rows ≡ map_option (to_communicable p) (find id s.automations)

  -- The same where the saves of some ids are still to come: nothing is said of their rows, and each
  -- of them has an automation.
  pub record Settled (is_pending : Bytes → Bool) (s : State F) : Type 0 where
    pub distinct : Distinct s.automations
    pub stored :
        (id : Bytes)
        → is_pending id ≡ false
        → row id s.rows ≡ map_option (to_communicable p) (find id s.automations)
    pub alive : (id : Bytes) → is_pending id ≡ true → find id s.automations ≢ none

  pub Synced-Settled : {s : State F} → Synced s → Settled (λ id. false) s
  Synced-Settled v = record {
    distinct = v.distinct;
    stored = λ id _. v.stored id;
    alive = λ id h. absurd cc;
  }

  pub Settled-Synced : {s : State F} → Settled (λ id. false) s → Synced s
  Settled-Synced v = record { distinct = v.distinct; stored = λ id. v.stored id refl }

  -- A request to add an automation names an id that no automation has.
  abbrev pub IsFresh : Request F → State F → Type 0
  IsFresh (add_automation (some ac)) s = find ac.id s.automations ≡ none
  IsFresh _ s = Unit

  module _ (is_pending : Bytes → Bool) where
    -- Storing a new version of an automation that the list holds.
    pub Settled-replace :
        (s : State F) (k : Bytes) (a b : Automation F) (us : List Chan)
        → Settled is_pending s
        → find k s.automations ≡ some a
        → b.id ≡ k
        → Settled is_pending (record {
          automations = replace k b s.automations;
          rows = save_automation p true b s.rows;
          unsubscribed = us;
        })
    unfolding save_automation
    Settled-replace s k a b us v f i = record {
      distinct = replace-Distinct k b s.automations i v.distinct;
      stored = λ j h. ground (
        arith,
        row-upsert b.id j (to_communicable p b) s.rows,
        find-replace k j b s.automations {a = a} i f,
        v.stored j,
      );
      alive = λ j h. ground (arith, find-replace k j b s.automations {a = a} i f, v.alive j h);
    }

    add-Settled :
        (a : Automation F) (s : State F)
        → Settled is_pending s
        → find a.id s.automations ≡ none
        → Settled is_pending (record s {
          automations = s.automations ++ a ∷ [];
          rows = save_automation p true a s.rows;
        })
    unfolding save_automation
    add-Settled a s v n = record {
      distinct = append-Distinct s.automations a v.distinct n;
      stored = λ j h. ground (
        arith,
        row-upsert a.id j (to_communicable p a) s.rows,
        find-append j s.automations a n,
        v.stored j,
      );
      alive = λ j h. ground (arith, find-append j s.automations a n, v.alive j h);
    }

    delete-Settled :
        (k : Bytes) (a : Automation F) (s : State F) (us : List Chan)
        → Settled is_pending s
        → a.id ≡ k
        → is_pending k ≡ false
        → Settled is_pending (record {
          automations = remove k s.automations;
          rows = delete_automation_row p true a s.rows;
          unsubscribed = us;
        })
    unfolding delete_automation_row
    delete-Settled k a s us v i q = record {
      distinct = remove-Distinct k s.automations v.distinct;
      stored = λ j h. ground (
        arith,
        row-delete_rows a.id j s.rows,
        find-remove k j s.automations v.distinct,
        v.stored j,
      );
      alive = λ j h. ground (
        arith,
        equal_iff k j,
        ap is_pending {x = k} {y = j},
        find-remove k j s.automations v.distinct,
        v.alive j h,
      );
    }

    -- No request deletes an automation whose save is still to come.
    abbrev pub KeepsPending : Request F → Type 0
    KeepsPending (delete_automation (some id)) = is_pending id ≡ false
    KeepsPending _ = Unit

    pub handle-Settled :
        (env : Env) (r : Request F) (s : State F)
        → env.works ≡ true
        → IsFresh r s
        → KeepsPending r
        → Settled is_pending s
        → Settled is_pending (handle p env r s).0
    unfolding handle
    handle-Settled env (add_automation none) s w f q v = v
    handle-Settled env (add_automation (some ac)) s w f q v =
        elim (Outcome-cases (to_automation p ac)) [
          | inl (a, e) ↦
              rw (e, add)
                (rw w (
                  add-Settled (register_new env.now a) s v
                    (rw (register_new-id env.now a, to_automation-id p ac e) f)))
          | inr (inl (x, e)) ↦ rw (e, add) v
          | inr (inr e) ↦ rw (e, add) v
        ]
    handle-Settled env (delete_automation none) s w f q v = v
    handle-Settled env (delete_automation (some id)) s w f q v =
        elim (Option-cases (find id s.automations)) [
          | inl e ↦ rw (e, delete) v
          | inr (a, e) ↦
              rw (e, delete) (rw w (delete-Settled id a s _ v (find-id id s.automations e) q))
        ]
    handle-Settled env (enable_automation id) s w f q v =
        elim (Option-cases (find id s.automations)) [
          | inl e ↦ rw (e, enable_handler) v
          | inr (a, e) ↦
              rw (e, enable_handler)
                (elim (Outcome-cases (enable env.now a)) [
                  | inl (b, g) ↦ rw (g) (
                      rw w (
                        Settled-replace s id a b s.unsubscribed v e
                          (enable-id env.now a g ∙ find-id id s.automations e)))
                  | inr (inl (x, g)) ↦ rw g v
                  | inr (inr g) ↦ rw g v
                ])
        ]
    handle-Settled env (disable_automation id) s w f q v =
        elim (Option-cases (find id s.automations)) [
          | inl e ↦ rw (e, disable_handler) v
          | inr (a, e) ↦
              rw (e, disable_handler)
                (rw w (
                  Settled-replace s id a (disable a).0 _ v e
                    (disable-id a ∙ find-id id s.automations e)))
        ]
    handle-Settled env (clear_logs id) s w f q v = elim (Option-cases (find id s.automations)) [
      | inl e ↦ rw (e, clear_logs_handler) v
      | inr (a, e) ↦
          rw (e, clear_logs_handler)
            (rw w (
              Settled-replace s id a (record a { error_logs = [] }) _ v e
                (find-id id s.automations e)))
    ]

  KeepsPending-none : (r : Request F) → KeepsPending (λ id. false) r
  KeepsPending-none (add_automation body) = tt
  KeepsPending-none (delete_automation none) = tt
  KeepsPending-none (delete_automation (some id)) = refl
  KeepsPending-none (enable_automation id) = tt
  KeepsPending-none (disable_automation id) = tt
  KeepsPending-none (clear_logs id) = tt

  -- If the statements on the database work, every request keeps the table in step with the
  -- automations in memory, whatever its outcome, if an automation is only added under a new id.
  handle-Synced :
      (env : Env) (r : Request F) (s : State F)
      → env.works ≡ true
      → IsFresh r s
      → Synced s
      → Synced (handle p env r s).0
  handle-Synced env r s w f v =
      Settled-Synced
        (handle-Settled (λ id. false) env r s w f (KeepsPending-none r) (Synced-Settled v))

  -- If the statements on the database work, a trigger that fires keeps the table in step with the
  -- automations in memory, also if its handler panics.
  fire-Synced : (id : Bytes) (e : Event F) (s : State F) → Synced s → Synced (fire p true id e s)
  unfolding fire
  fire-Synced id e s v = elim (Option-cases (find id s.automations)) [
    | inl n ↦ rw (n, fire) v
    | inr (a, g) ↦
        rw (g, fire)
          (Settled-Synced (
            Settled-replace (λ id. false) s id a _ s.unsubscribed (Synced-Settled v) g
              (on_triggered-id p e a ∙ find-id id s.automations g)))
  ]
