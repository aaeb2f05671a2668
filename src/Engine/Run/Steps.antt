-- ===== src/Engine/Run/Steps.antt =====
-- What every happening keeps: the rows of the automations that no callback has still to save.
use mechanicaldinosaurs.Base.{
  Bytes, equal, equal_iff, Bool-cases, Option-cases, ◌≡◌, refl, sym, subst, ◌∙◌, ◌≢◌, ◌⊎◌, inl, inr,
  Bool, true, false, none, some, List, [], ◌∷◌, arith,
}
use mechanicaldinosaurs.Engine.Context.{Platform}
use mechanicaldinosaurs.Engine.Automation.{Automation, Event, on_triggered, to_communicable}
use mechanicaldinosaurs.Engine.Automation.Identity.{on_triggered-id}
use mechanicaldinosaurs.Engine.Server.{handle, find, replace, row, save_automation}
use mechanicaldinosaurs.Engine.Server.Guard.{Call, Served, is_authorized, guarded}
use mechanicaldinosaurs.Engine.Server.Search.{find-id, find-replace, replace-Distinct, row-upsert}
use mechanicaldinosaurs.Engine.Server.Sync.{
  map_option, IsFresh, KeepsPending, Settled, handle-Settled,
}
use mechanicaldinosaurs.Engine.Run.{
  Happening, called, fired, saved, Running, member, discard, held, call_engine, fire_callback,
  save_callback, step, run,
}

member-discard_ne :
    (id j : Bytes) (xs : List Bytes) → equal id j ≡ false → member j (discard id xs) ≡ member j xs
unfolding member discard
member-discard_ne id j [] h = refl
member-discard_ne id j (x ∷ xs) h =
    ground (arith, equal_iff x id, equal_iff x j, equal_iff id j, member-discard_ne id j xs)

member-discard-true :
    (id j : Bytes) (xs : List Bytes) → member j (discard id xs) ≡ true → member j xs ≡ true
unfolding member discard
member-discard-true id j [] h = h
member-discard-true id j (x ∷ xs) h =
    ground (arith, equal_iff x id, equal_iff x j, member-discard-true id j xs)

module _ {F : Type 0} (p : Platform F) (secret : Bytes) where
  -- Every automation has its row, but for those that a callback has still to save, and these are in
  -- memory.
  abbrev pub IsSettled : Running F → Type 0
  IsSettled w = Settled p (λ id. member id w.pending) w.served.state

  pub guarded-state :
      (c : Call F) (v : Served F)
      → ((guarded p secret c v).0.state ≡ v.state)
        ⊎ ((guarded p secret c v).0.state ≡ (handle p c.env c.request v.state).0)
  unfolding guarded
  guarded-state c v = elim (Bool-cases v.locked) [
    | inl l ↦ rw l (inl refl)
    | inr l ↦ elim (Bool-cases (is_authorized p secret c)) [
      | inl h ↦ rw (l, h) (inr refl)
      | inr h ↦ rw (l, h) (inl refl)
    ]
  ]

  module _ (id : Bytes) (b : Automation F) (w : Running F) {a : Automation F} (i : b.id ≡ id)
      (f : find id w.served.state.automations ≡ some a) (v : IsSettled w) (j : Bytes) where
    fired-stored :
        member j (id ∷ w.pending) ≡ false
        → row j w.served.state.rows
          ≡ map_option (to_communicable p) (find j (replace id b w.served.state.automations))
    unfolding member
    fired-stored h = ground (
      arith,
      equal_iff id j,
      find-replace id j b w.served.state.automations {a = a} i f,
      v.stored j,
    )

    fired-alive :
        member j (id ∷ w.pending) ≡ true → find j (replace id b w.served.state.automations) ≢ none
    unfolding member
    fired-alive h =
        ground (arith, find-replace id j b w.served.state.automations {a = a} i f, v.alive j)

    saved-stored :
        member j (discard id w.pending) ≡ false
        → row j (save_automation p true a w.served.state.rows)
          ≡ map_option (to_communicable p) (find j w.served.state.automations)
    unfolding save_automation
    saved-stored h = ground (
      arith,
      equal_iff a.id j,
      equal_iff id j,
      find-id id w.served.state.automations f,
      row-upsert a.id j (to_communicable p a) w.served.state.rows,
      member-discard_ne id j w.pending,
      v.stored j,
    )

  fire_callback-IsSettled :
      (id : Bytes) (e : Event F) (w : Running F)
      → find id w.removed ≡ none
      → IsSettled w
      → IsSettled (fire_callback p id e w)
  unfolding fire_callback
  fire_callback-IsSettled id e w r v = elim (Option-cases (find id w.served.state.automations)) [
    | inl n ↦ rw (n, fire_callback) (rw r v)
    | inr (a, f) ↦
        let b = (on_triggered p e.transport e.clock a e.context).automation in
        let i : b.id ≡ id = on_triggered-id p e a ∙ find-id id w.served.state.automations f in
        rw (f, fire_callback)
          (record {
            distinct = replace-Distinct id b w.served.state.automations i v.distinct;
            stored = λ j h. fired-stored id b w i f v j h;
            alive = λ j h. fired-alive id b w i f v j h;
          })
  ]

  save_callback-IsSettled :
      (works : Bool) (id : Bytes) (w : Running F)
      → works ≡ true
      → IsSettled w
      → IsSettled (save_callback p works id w)
  unfolding save_callback
  save_callback-IsSettled false id w o v = absurd cc
  save_callback-IsSettled true id w o v = elim (Bool-cases (member id w.pending)) [
    | inr m ↦ rw (m, save_callback) v
    | inl m ↦
        rw (m, save_callback)
          (elim (Option-cases (find id w.served.state.automations)) [
            | inl n ↦ absurd (v.alive id m n)
            | inr (a, f) ↦
                rw (f, held)
                  (record {
                    distinct = v.distinct;
                    stored = λ j h.
                        saved-stored id a w (find-id id w.served.state.automations f) f v j h;
                    alive = λ j h. v.alive j (member-discard-true id j w.pending h);
                  })
          ])
  ]

  -- What a run must do for the table to stay in step: the statements on the database work, an
  -- automation is added under a new id and not deleted while its callback has still to save, and no
  -- trigger of a deleted automation fires.
  abbrev pub IsOrderly : Happening F → Running F → Type 0
  IsOrderly (called c) w =
      (c.env.works ≡ true)
      × IsFresh p c.request w.served.state
      × KeepsPending p (λ id. member id w.pending) c.request
  IsOrderly (fired id e) w = find id w.removed ≡ none
  IsOrderly (saved works id) w = works ≡ true

  abbrev pub AreOrderly : List (Happening F) → Running F → Type 0
  AreOrderly [] w = Unit
  AreOrderly (h ∷ hs) w = IsOrderly h w × AreOrderly hs (step p secret h w)

  call_engine-IsSettled :
      (c : Call F) (w : Running F)
      → IsOrderly (called c) w
      → IsSettled w
      → IsSettled (call_engine p secret c w)
  unfolding call_engine
  call_engine-IsSettled c w (works, fresh, kept) v = elim (guarded-state c w.served) [
    | inl e ↦ subst (Settled p (λ id. member id w.pending)) (sym e) v
    | inr e ↦ subst (Settled p (λ id. member id w.pending)) (sym e) (
        handle-Settled p (λ id. member id w.pending) c.env c.request w.served.state works fresh kept
          v)
  ]

  step-IsSettled :
      (h : Happening F) (w : Running F)
      → IsOrderly h w
      → IsSettled w
      → IsSettled (step p secret h w)
  unfolding step
  step-IsSettled (called c) w o v = call_engine-IsSettled c w o v
  step-IsSettled (fired id e) w o v = fire_callback-IsSettled id e w o v
  step-IsSettled (saved works id) w o v = save_callback-IsSettled works id w o v

  pub run-IsSettled :
      (hs : List (Happening F)) (w : Running F)
      → AreOrderly hs w
      → IsSettled w
      → IsSettled (run p secret hs w)
  unfolding run
  run-IsSettled [] w o v = v
  run-IsSettled (h ∷ hs) w (o, os) v =
      run-IsSettled hs (step p secret h w) os (step-IsSettled h w o v)
