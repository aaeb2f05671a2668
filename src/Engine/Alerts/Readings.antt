-- ===== src/Engine/Alerts/Readings.antt =====
-- automation-engine/datarefresh.go, trigger.go and context.go together: the name of a field of a
-- machine, from the answers of the daemons to the value that a condition compares.
use mechanicaldinosaurs.Base.{
  Bytes, codes, equal, equal_iff, equal_self, join, Lacks, ◌≡◌, refl, ap, ◌∙◌, subst, inl, inr,
  Option, none, some, Option-cases, Bool-cases, List, [], ◌∷◌, arith, if◌then◌else◌, Outcome, ok,
  err, split-join,
}
use mechanicaldinosaurs.Engine.Context.{
  Value, map_value, Entries, end, entry, NotFound, not_found, map_index, walk, get,
}
use mechanicaldinosaurs.Engine.Alerts.{Machine, put, machine_infos}
use mechanicaldinosaurs.Rpc.Info.{Info, info_map}

module _ {F : Type 0} where
  -- The map of the maps; a nil map has no entries.
  unfoldable pub machines_info : List (Bytes × Option (Info F)) → Entries F
  unfolding info_map
  machines_info [] = end
  machines_info ((name, none) ∷ infos) = entry name (map_value end) (machines_info infos)
  machines_info ((name, some i) ∷ infos) = entry name (map_value (info_map i)) (machines_info infos)

  -- The context of the callback of `MachineInfoRefreshTrigger`.
  unfoldable pub refresh_context : List (Bytes × Option (Info F)) → Entries F
  unfolding machines_info
  refresh_context infos = entry (codes "machines_info") (map_value (machines_info infos)) end

  -- The answer of the last machine of a name.
  abbrev pub last_answer :
      (Machine → Option (Info F)) → List Machine → Bytes → Option (Option (Info F))
  last_answer call [] name = none
  last_answer call (m ∷ ms) name = elim (last_answer call ms name) [
    | some answer ↦ some answer
    | none ↦ if equal m.name name then some (call m) else none
  ]

  -- A field that a machine did not report is not found.
  abbrev field_of : Option (Value F) → Outcome NotFound (Value F)
  field_of none = err not_found
  field_of (some v) = ok v

  abbrev pub reading : Option (Option (Info F)) → Bytes → Outcome NotFound (Value F)
  reading (some (some i)) field = field_of (map_index (info_map i) field)
  reading _ field = err not_found

  value_of : Bytes → List (Bytes × Option (Info F)) → Option (Option (Info F))
  value_of name [] = none
  value_of name ((k, v) ∷ infos) = if equal k name then some v else value_of name infos

  value_of-put :
      (call : Machine → Option (Info F)) (k name : Bytes) (v : Option (Info F))
      (infos : List (Bytes × Option (Info F)))
      → value_of name (put call k v infos) ≡ (if equal k name then some v else value_of name infos)
  unfolding value_of put
  value_of-put call k name v [] = refl
  value_of-put call k name v ((j, w) ∷ infos) = elim (Bool-cases (equal j k)) [
    | inl e ↦ rw e (ground (arith, equal_iff j k))
    | inr e ↦ rw e (
        ground (
          arith,
          value_of-put call k name v infos,
          equal_iff j k,
          equal_iff j name,
          equal_iff k name,
          equal_self j,
        ))
  ]

  value_of-machine_infos :
      (call : Machine → Option (Info F)) (ms : List Machine) (name : Bytes)
      (infos : List (Bytes × Option (Info F)))
      → value_of name (machine_infos call ms infos)
        ≡ elim (last_answer call ms name) [ some answer ↦ some answer | none ↦ value_of name infos ]
  unfolding machine_infos
  value_of-machine_infos call [] name infos = refl
  value_of-machine_infos call (m ∷ ms) name infos =
      value_of-machine_infos call ms name (put call m.name (call m) infos)
      ∙ ground (
        arith,
        value_of-put call m.name name (call m) infos,
        Option-cases (last_answer call ms name),
      )

  IsLeaf : Value F → Type 0
  IsLeaf v = walk v [] ≡ ok v

  AllLeaves : Entries F → Type 0
  AllLeaves end = Unit
  AllLeaves (entry k v es) = IsLeaf v × AllLeaves es

  info_map-AllLeaves : (i : Info F) → AllLeaves (info_map i)
  unfolding info_map IsLeaf AllLeaves walk
  info_map-AllLeaves i = ground arith

  map_index-AllLeaves :
      (es : Entries F) (k : Bytes) {v : Value F} → AllLeaves es → map_index es k ≡ some v → IsLeaf v
  unfolding map_index AllLeaves
  map_index-AllLeaves end k h e = cc
  map_index-AllLeaves (entry j w es) k (h, hs) e = elim (Bool-cases (equal j k)) [
    | inl q ↦ subst IsLeaf (ground arith) h
    | inr q ↦ map_index-AllLeaves es k hs (ground arith)
  ]

  walk_field :
      (i : Info F) (field : Bytes)
      → walk (map_value (info_map i)) (field ∷ []) ≡ field_of (map_index (info_map i) field)
  unfolding walk info_map IsLeaf
  walk_field i field = elim (Option-cases (map_index (info_map i) field)) [
    | inl h ↦ rw (h, walk) refl
    | inr (v, h) ↦ rw (h, walk) (map_index-AllLeaves (info_map i) field (info_map-AllLeaves i) h)
  ]

  walk-machines_info :
      (infos : List (Bytes × Option (Info F))) (name field : Bytes)
      → walk (map_value (machines_info infos)) (name ∷ field ∷ [])
        ≡ reading (value_of name infos) field
  unfolding walk machines_info map_index value_of
  walk-machines_info [] name field = refl
  walk-machines_info ((k, none) ∷ infos) name field = elim (Bool-cases (equal k name)) [
    | inl e ↦ rw (e, walk) refl
    | inr e ↦ rw (e, walk) (walk-machines_info infos name field)
  ]
  walk-machines_info ((k, some i) ∷ infos) name field = elim (Bool-cases (equal k name)) [
    | inl e ↦ rw (e, walk) (walk_field i field)
    | inr e ↦ rw (e, walk) (walk-machines_info infos name field)
  ]

  -- After a refresh, the lookup of "machines_info.", a machine's name, "." and a field, where the
  -- name and the field hold no dot, gives that field of the last machine of the name, if its daemon
  -- answered; for a machine that is not listed, whose daemon did not answer, or a field that daemons
  -- do not report, the lookup finds nothing. It never panics.
  pub get-refresh_context :
      (call : Machine → Option (Info F)) (ms : List Machine) (name field : Bytes)
      → Lacks b'.' name
      → Lacks b'.' field
      → get
          (refresh_context (machine_infos call ms []))
          (join (codes "machines_info" ∷ name ∷ field ∷ []) (codes "."))
        ≡ reading (last_answer call ms name) field
  unfolding get refresh_context
  get-refresh_context call ms name field n f =
      rw (split-join (codes "machines_info") (name ∷ field ∷ []) b'.' (omega arith, (n, (f, tt)))) (
        walk-machines_info (machine_infos call ms []) name field
        ∙ ap (λ a. reading a field)
            (value_of-machine_infos call ms name [] ∙ kept (last_answer call ms name)))
    where
      kept :
          (a : Option (Option (Info F)))
          → elim a [ some answer ↦ some answer | none ↦ value_of name [] ] ≡ a
      kept none = unfold value_of in refl
      kept (some a) = refl
