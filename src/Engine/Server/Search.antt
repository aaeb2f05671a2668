-- ===== src/Engine/Server/Search.antt =====
-- The searches of the handlers and the statements on the table, each as an equation for every id.
use mechanicaldinosaurs.Base.{
  Bytes, equal, equal_iff, if◌then◌else◌, ◌≡◌, refl, none, some, List, [], ◌∷◌, ◌++◌, arith,
}
use mechanicaldinosaurs.Engine.Automation.{Automation, AutomationCommunicable}
use mechanicaldinosaurs.Engine.Server.{Rows, find, replace, remove, row, upsert, delete_rows}

module _ {F : Type 0} where
  pub row-upsert :
      (k j : Bytes) (ac : AutomationCommunicable F) (rows : Rows F)
      → row j (upsert k ac rows) ≡ (if equal k j then some ac else row j rows)
  unfolding row upsert
  row-upsert k j ac [] = refl
  row-upsert k j ac ((i, old) ∷ rows) =
      ground (arith, equal_iff k j, equal_iff i k, equal_iff i j, row-upsert k j ac rows)

  pub row-delete_rows :
      (k j : Bytes) (rows : Rows F)
      → row j (delete_rows k rows) ≡ (if equal k j then none else row j rows)
  unfolding row delete_rows
  row-delete_rows k j [] = ground arith
  row-delete_rows k j ((i, old) ∷ rows) =
      ground (arith, equal_iff k j, equal_iff i k, equal_iff i j, row-delete_rows k j rows)

  pub find-id :
      (k : Bytes) (as_ : List (Automation F)) {a : Automation F} → find k as_ ≡ some a → a.id ≡ k
  unfolding find
  find-id k [] {a} e = cc
  find-id k (x ∷ as_) {a} e = ground (arith, equal_iff x.id k, find-id k as_ {a = a})

  -- No two automations of the list have one id.
  abbrev pub Distinct : List (Automation F) → Type 0
  Distinct [] = Unit
  Distinct (a ∷ as_) = (find a.id as_ ≡ none) × Distinct as_

  pub find-append :
      (j : Bytes) (as_ : List (Automation F)) (b : Automation F)
      → find b.id as_ ≡ none
      → find j (as_ ++ b ∷ []) ≡ (if equal b.id j then some b else find j as_)
  unfolding find
  find-append j [] b h = refl
  find-append j (a ∷ as_) b h =
      ground (arith, equal_iff a.id j, equal_iff b.id j, equal_iff a.id b.id, find-append j as_ b)

  pub append-Distinct :
      (as_ : List (Automation F)) (b : Automation F)
      → Distinct as_
      → find b.id as_ ≡ none
      → Distinct (as_ ++ b ∷ [])
  unfolding find
  append-Distinct [] b d h = (refl, tt)
  append-Distinct (a ∷ as_) b (n, d) h = ground (
    arith,
    equal_iff a.id b.id,
    equal_iff b.id a.id,
    find-append a.id as_ b,
    append-Distinct as_ b d,
  )

  pub find-replace :
      (k j : Bytes) (b : Automation F) (as_ : List (Automation F)) {a : Automation F}
      → b.id ≡ k
      → find k as_ ≡ some a
      → find j (replace k b as_) ≡ (if equal k j then some b else find j as_)
  unfolding find replace
  find-replace k j b [] {a} i h = cc
  find-replace k j b (x ∷ as_) {a} i h = ground (
    arith,
    equal_iff x.id k,
    equal_iff x.id j,
    equal_iff b.id j,
    equal_iff k j,
    find-replace k j b as_ {a = a} i,
  )

  find-replace-none :
      (k j : Bytes) (b : Automation F) (as_ : List (Automation F))
      → b.id ≡ k
      → find j as_ ≡ none
      → find j (replace k b as_) ≡ none
  unfolding find replace
  find-replace-none k j b [] i h = refl
  find-replace-none k j b (x ∷ as_) i h =
      ground
        (arith, equal_iff x.id k, equal_iff x.id j, equal_iff b.id j, find-replace-none k j b as_ i)

  pub replace-Distinct :
      (k : Bytes) (b : Automation F) (as_ : List (Automation F))
      → b.id ≡ k
      → Distinct as_
      → Distinct (replace k b as_)
  unfolding replace
  replace-Distinct k b [] i d = tt
  replace-Distinct k b (x ∷ as_) i (n, d) =
      ground
        (arith, equal_iff x.id k, find-replace-none k x.id b as_ i n, replace-Distinct k b as_ i d)

  pub find-remove :
      (k j : Bytes) (as_ : List (Automation F))
      → Distinct as_
      → find j (remove k as_) ≡ (if equal k j then none else find j as_)
  unfolding find remove
  find-remove k j [] d = ground arith
  find-remove k j (x ∷ as_) (n, d) =
      ground (arith, equal_iff x.id k, equal_iff x.id j, equal_iff k j, find-remove k j as_ d)

  pub remove-Distinct :
      (k : Bytes) (as_ : List (Automation F)) → Distinct as_ → Distinct (remove k as_)
  unfolding remove
  remove-Distinct k [] d = tt
  remove-Distinct k (x ∷ as_) (n, d) =
      ground (
        arith,
        equal_iff x.id k,
        equal_iff k x.id,
        find-remove k x.id as_ d,
        remove-Distinct k as_ d,
      )
