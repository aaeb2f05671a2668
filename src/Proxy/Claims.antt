-- ===== src/Proxy/Claims.antt =====
-- proxy/proxy.go: the session that a client is given.
use mechanicaldinosaurs.Base.{
  ltb, subst, ℕ, ◌≤◌, ◌≢◌, Bool-cases, Option-cases, All, ◌≡◌, false, none, some, [], ◌∷◌, arith,
  inl, inr,
}
use mechanicaldinosaurs.Proxy.{
  Session, Table, newest_unclaimed, later, accepted, selected, holding, Connection, State,
  with_connection, with_table, claim_rows, select, claim, Steps, stay, then_step,
}

abbrev IsOlder : ℕ → Session → Type 0
IsOlder n x = x.claimed ≡ false → x.created_at ≤ n

-- Not claimed, and none of the sessions that are not claimed is newer.
abbrev IsNewest : Session → Table → Type 0
IsNewest r rows = (r.claimed ≡ false) × All (IsOlder r.created_at) rows

IsOlder-le : (m n : ℕ) (rows : Table) → m ≤ n → All (IsOlder m) rows → All (IsOlder n) rows
IsOlder-le m n [] l h = tt
IsOlder-le m n (x ∷ rows) l (h, hs) = ((λ c. omega (arith, h c)), IsOlder-le m n rows l hs)

newest_unclaimed-claimed :
    (n : ℕ) (rows : Table) → newest_unclaimed rows ≡ none → All (IsOlder n) rows
unfolding newest_unclaimed later
newest_unclaimed-claimed n [] h = tt
newest_unclaimed-claimed n (x ∷ rows) h = elim (Option-cases (newest_unclaimed rows)) [
  | inl e ↦ ((λ c. absurd (ground arith)), newest_unclaimed-claimed n rows e)
  | inr (q, e) ↦ absurd (ground arith)
]

-- The session that the query gives is not claimed, and no other session that is not claimed was
-- created after it.
newest_unclaimed-IsNewest :
    (rows : Table) (r : Session) → newest_unclaimed rows ≡ some r → IsNewest r rows
unfolding newest_unclaimed later
newest_unclaimed-IsNewest [] r h = absurd cc
newest_unclaimed-IsNewest (x ∷ rows) r h = elim (Option-cases (newest_unclaimed rows)) [
  | inl e ↦ elim (Bool-cases x.claimed) [
    | inl c ↦ absurd (ground arith)
    | inr c ↦
        let same : x ≡ r = ground arith in
        subst (λ z. IsNewest z (x ∷ rows)) same
          (c, ((λ u. omega arith), newest_unclaimed-claimed x.created_at rows e))
  ]
  | inr (q, e) ↦
      let (u, older) = newest_unclaimed-IsNewest rows q e in
      elim (Bool-cases x.claimed) [
        | inl c ↦
            let same : q ≡ r = ground arith in
            subst (λ z. IsNewest z (x ∷ rows)) same (u, ((λ d. absurd (ground arith)), older))
        | inr c ↦ elim (Bool-cases (ltb x.created_at q.created_at)) [
          | inl l ↦
              let same : q ≡ r = ground arith in
              subst (λ z. IsNewest z (x ∷ rows)) same (u, ((λ d. ground arith), older))
          | inr l ↦
              let same : x ≡ r = ground arith in
              subst (λ z. IsNewest z (x ∷ rows)) same
                (
                  c,
                  (
                    (λ d. omega arith),
                    IsOlder-le q.created_at x.created_at rows (ground arith) older,
                  ),
                )
        ]
      ]
]

-- If two connections have read no session and the table holds one that is not claimed, both may
-- come to hold that session, since each reads it before the other has claimed it.
pub two_claims :
    (s : State) (i j : ℕ) (r : Session)
    → i ≢ j
    → (s.connections i).phase ≡ accepted
    → (s.connections j).phase ≡ accepted
    → newest_unclaimed s.table ≡ some r
    → (t : State) × (Steps s t
        × (((t.connections i).phase ≡ holding)
            × (((t.connections j).phase ≡ holding)
                × (((t.connections i).session ≡ r.session_id)
                    × ((t.connections j).session ≡ r.session_id)))))
two_claims s i j r n a b h =
    let taken : Connection → Connection =
      (λ c. record c { phase = selected; session = r.session_id }) in
    let s1 : State = with_connection i (taken (s.connections i)) s in
    let s2 : State = with_connection j (taken (s1.connections j)) s1 in
    let s3 : State =
      with_table (claim_rows (s2.connections i).session s2.table)
        (with_connection i (record (s2.connections i) { phase = holding }) s2) in
    let s4 : State =
      with_table (claim_rows (s3.connections j).session s3.table)
        (with_connection j (record (s3.connections j) { phase = holding }) s3) in
    (
      s4,
      (
        then_step
            (then_step
              (then_step (then_step (stay s) (select s i r a h))
                (select s1 j r (ground (arith, n, a, b)) h))
              (claim s2 i (ground (arith, n, a, b))))
            (claim s3 j (ground (arith, n, a, b))),
        (
          (ground (arith, n, a, b)),
          ((ground (arith, n, a, b)), ((ground (arith, n, a, b)), (ground (arith, n, a, b)))),
        ),
      ),
    )
