-- ===== src/Engine/Context/Lookup.antt =====
-- automation-engine/context.go: the lookup of a dotted name as a path of keys.
use mechanicaldinosaurs.Base.{
  Bytes, codes, Lacks, split-join, join, Option-cases, All, All-left, ok, panic, ◌≡◌, refl, sym,
  ◌≢◌, ◌↔◌, inl, inr, Bool, true, false, some, List, [], ◌∷◌, ◌++◌, arith,
}
use mechanicaldinosaurs.Engine.Context.{Value, map_value, nil_value, Entries, map_index, walk, get}

module _ {F : Type 0} where
  -- The value w lies at the end of the path of keys, through nested maps, and is no nil interface.
  pub data Resolves (w : Value F) : Value F → List Bytes → Type 0 where
    here : {v : Value F} → v ≡ w → w ≢ nil_value → Resolves w v []
    down :
        {es : Entries F} {part : Bytes} {v : Value F} {parts : List Bytes}
        → map_index es part ≡ some v
        → Resolves w v parts
        → Resolves w (map_value es) (part ∷ parts)

  abbrev pub is_map : Value F → Bool
  is_map (map_value es) = true
  is_map _ = false

  walk_end : (v : Value F) {w : Value F} → walk v [] ≡ ok w → Resolves w v []
  unfolding walk
  walk_end nil_value e = cc
  walk_end v e = here (ground arith) (ground arith)

  walk-Resolves :
      (parts : List Bytes) (v : Value F) {w : Value F} → walk v parts ≡ ok w → Resolves w v parts
  unfolding walk
  walk-Resolves [] v e = walk_end v e
  walk-Resolves (part ∷ parts) (map_value es) e = elim (Option-cases (map_index es part)) [
    | inl h ↦ cc (e, h)
    | inr (u, h) ↦ down h (walk-Resolves parts u (ground arith))
  ]
  walk-Resolves (part ∷ parts) _ e = cc

  here_walk : (v : Value F) {w : Value F} → v ≡ w → w ≢ nil_value → walk v [] ≡ ok w
  unfolding walk
  here_walk nil_value e n = absurd (n (sym e))
  here_walk v e n = ground arith

  Resolves-walk :
      {w : Value F} {parts : List Bytes} {v : Value F} → Resolves w v parts → walk v parts ≡ ok w
  unfolding walk
  Resolves-walk (here {v} e n) = here_walk v e n
  Resolves-walk (down h r) = rw (h, walk) (Resolves-walk r)

  walk_below_leaf :
      (parts : List Bytes) (v : Value F) {w : Value F} (q : Bytes)
      → walk v parts ≡ ok w
      → is_map w ≡ false
      → walk v (parts ++ q ∷ []) ≡ panic
  unfolding walk
  walk_below_leaf [] nil_value q e h = ground arith
  walk_below_leaf [] v q e h = ground arith
  walk_below_leaf (part ∷ parts) (map_value es) q e h = elim (Option-cases (map_index es part)) [
    | inl m ↦ ground arith
    | inr (u, m) ↦ rw (m, walk) (walk_below_leaf parts u q (ground arith) h)
  ]
  walk_below_leaf (part ∷ parts) _ q e h = refl

  -- Where the name spells the keys p, ps, each free of dots, a lookup finds w exactly when w lies at
  -- the end of that path of keys.
  pub get_iff :
      (data_ : Entries F) (p : Bytes) (ps : List Bytes) (w : Value F)
      → All (Lacks b'.') (p ∷ ps)
      → (get data_ (join (p ∷ ps) (codes ".")) ≡ ok w) ↔ Resolves w (map_value data_) (p ∷ ps)
  unfolding get
  get_iff data_ p ps w h =
      rw (split-join p ps b'.' h) (walk-Resolves (p ∷ ps) (map_value data_), Resolves-walk)

  -- A name that goes one key q below a value that is no map makes the lookup panic.
  get_below_leaf :
      (data_ : Entries F) (p : Bytes) (ps : List Bytes) (q : Bytes) (w : Value F)
      → All (Lacks b'.') ((p ∷ ps) ++ q ∷ [])
      → get data_ (join (p ∷ ps) (codes ".")) ≡ ok w
      → is_map w ≡ false
      → get data_ (join (p ∷ (ps ++ q ∷ [])) (codes ".")) ≡ panic
  unfolding get
  get_below_leaf data_ p ps q w h e leaf = rw (split-join p (ps ++ q ∷ []) b'.' h) (
      walk_below_leaf (p ∷ ps) (map_value data_) q
        (rw (split-join p ps b'.' (All-left (Lacks b'.') (p ∷ ps) (q ∷ []) h)) at e) leaf)
