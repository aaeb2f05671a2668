-- ===== src/Engine/Run/Restart.antt =====
-- What a restart of the engine makes of the table that a run has left.
use mechanicaldinosaurs.Base.{
  Bytes, equal, equal_iff, if◌then◌else◌, Option-cases, ok, ◌≡◌, refl, sym, ap, ◌∙◌, inl, inr,
  false, Option, none, some, List, [], ◌∷◌, map, arith,
}
use mechanicaldinosaurs.Engine.Context.{Platform}
use mechanicaldinosaurs.Engine.Trigger.{Time, new_trigger}
use mechanicaldinosaurs.Engine.Automation.{Automation, AutomationCommunicable, to_communicable}
use mechanicaldinosaurs.Engine.Automation.RoundTrip.{stored_kind}
use mechanicaldinosaurs.Engine.Server.{Rows, find, row, register_new}
use mechanicaldinosaurs.Engine.Server.Keys.{NodupKeys}
use mechanicaldinosaurs.Engine.Server.Sync.{map_option, register_new-id}
use mechanicaldinosaurs.Engine.Startup.{Scan, whole, load_save, load_save-stored}

module _ {F : Type 0} (p : Platform F) where
  abbrev row_of : Automation F → Bytes × AutomationCommunicable F
  row_of a = (a.id, to_communicable p a)

  abbrev without : Bytes → (Bytes → Option (Automation F)) → Bytes → Option (Automation F)
  without k g id = if equal k id then none else g id

  row-rest :
      (k : Bytes) (ac : AutomationCommunicable F) (rows : Rows F)
      (g : Bytes → Option (Automation F)) (id : Bytes)
      → row k rows ≡ none
      → row id ((k, ac) ∷ rows) ≡ map_option (to_communicable p) (g id)
      → row id rows ≡ map_option (to_communicable p) (without k g id)
  unfolding row
  row-rest k ac rows g id n h = ground (arith, equal_iff k id)

  row_self :
      (k : Bytes) (ac : AutomationCommunicable F) (rows : Rows F) → row k ((k, ac) ∷ rows) ≡ some ac
  unfolding row
  row_self k ac rows = ground (arith, equal_iff k k)

  find-cons :
      (k : Bytes) (a : Automation F) (as_ : List (Automation F)) (g : Bytes → Option (Automation F))
      (id : Bytes)
      → a.id ≡ k
      → g k ≡ some a
      → find id as_ ≡ without k g id
      → find id (a ∷ as_) ≡ g id
  unfolding find
  find-cons k a as_ g id i e h =
      ground (arith, equal_iff a.id id, equal_iff k id, ap g {x = k} {y = id})

  row-cons :
      (k : Bytes) (ac : AutomationCommunicable F) (rows : Rows F) (a : Automation F)
      (as_ : List (Automation F)) (g : Bytes → Option (Automation F))
      → row k ((k, ac) ∷ rows) ≡ map_option (to_communicable p) (g k)
      → g k ≡ some a
      → a.id ≡ k
      → rows ≡ map row_of as_
      → (k, ac) ∷ rows ≡ map row_of (a ∷ as_)
  row-cons k ac rows a as_ g h e i r =
      let q : some ac ≡ some (to_communicable p a) =
        sym (row_self k ac rows) ∙ h ∙ ap (map_option (to_communicable p)) e in
      ground (arith, r, q, i)

  -- The automations whose stored forms a table holds, in the order of its rows.
  stored_list :
      (rows : Rows F) (g : Bytes → Option (Automation F))
      → NodupKeys rows
      → ((id : Bytes) → row id rows ≡ map_option (to_communicable p) (g id))
      → ((id : Bytes) (a : Automation F) → g id ≡ some a → a.id ≡ id)
      → (as_ : List (Automation F)) × (rows ≡ map row_of as_) × ((id : Bytes) → find id as_ ≡ g id)
  unfolding row find
  stored_list [] g u h i = ([], refl, λ id. ground (arith, h id))
  stored_list ((k, ac) ∷ rows) g (n, u) h i = elim (Option-cases (g k)) [
    | inl e ↦ absurd (ground (arith, h k, row_self k ac rows))
    | inr (a, e) ↦
        let (as_, r, f) =
          stored_list rows (without k g) u (λ id. row-rest k ac rows g id n (h id))
            (λ id b q. ground (arith, i id b)) in
        (
          a ∷ as_,
          row-cons k ac rows a as_ g (h k) e (i k a e) r,
          λ id. find-cons k a as_ g id (i k a e) e (f id),
        )
  ]

  -- What a start makes of a stored automation.
  abbrev pub restored : Time → Automation F → Automation F
  restored now a = register_new now (record a {
    trigger = new_trigger (stored_kind p a.trigger.kind);
    action_done_on_last_trigger = false;
  })

  find-restored :
      (now : Time) (id : Bytes) (as_ : List (Automation F))
      → find id (map (restored now) as_) ≡ map_option (restored now) (find id as_)
  unfolding find
  find-restored now id [] = refl
  find-restored now id (a ∷ as_) = ground (
    arith,
    find-restored now id as_,
    register_new-id now (record a {
      trigger = new_trigger (stored_kind p a.trigger.kind);
      action_done_on_last_trigger = false;
    }),
  )

  -- What `rows.Next` and `rows.Scan` give of the table.
  abbrev pub scanned : Rows F → List (Scan F)
  scanned rows = map (λ (k, ac). whole ac) rows

  scanned-row_of :
      (as_ : List (Automation F))
      → scanned (map row_of as_) ≡ map (λ a. whole (to_communicable p a)) as_
  scanned-row_of [] = refl
  scanned-row_of (a ∷ as_) = ap (◌∷◌ (whole (to_communicable p a))) (scanned-row_of as_)

  -- A start from a table that holds, under every id, the stored form of what `g` gives.
  pub load_save-scanned :
      (now : Time) (rows : Rows F) (g : Bytes → Option (Automation F))
      → NodupKeys rows
      → ((id : Bytes) → row id rows ≡ map_option (to_communicable p) (g id))
      → ((id : Bytes) (a : Automation F) → g id ≡ some a → a.id ≡ id)
      → (as_ : List (Automation F)) × (load_save p now (inr (scanned rows)) ≡ ok as_)
        × ((id : Bytes) → find id as_ ≡ map_option (restored now) (g id))
  load_save-scanned now rows g u h i =
      let (as_, r, f) = stored_list rows g u h i in
      (
        map (restored now) as_,
        ap (λ (t : Rows F). load_save p now (inr (scanned t))) r
            ∙ ap (λ t. load_save p now (inr t)) (scanned-row_of as_)
            ∙ load_save-stored p now as_,
        λ id. find-restored now id as_ ∙ ap (map_option (restored now)) (f id),
      )
