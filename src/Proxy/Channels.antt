-- ===== src/Proxy/Channels.antt =====
-- proxy/proxy.go: the values that are sent on the channel of a connection, which has three places.
use mechanicaldinosaurs.Base.{
  ℕ, ◌+◌, ◌≤◌, Bytes, equal, equal_iff, equal_self, ◌==◌, ==_iff, ◌≢◌, if◌then◌else◌, Bool-cases,
  ◌≡◌, ◌∙◌, ap, sym, refl, Bool, true, false, Option, none, some, arith, inl, inr,
}
use mechanicaldinosaurs.Proxy.{
  Phase, forwarding, closing, closed, accepted, selected, holding, Connection, State, Table,
  with_connection, with_registered, Step, select, reject, claim, claim_fails, connect_fails,
  register, copy_ends, disconnect, signal, stop, finish, finish_fails, Steps, stay, then_step,
  initial,
}

-- Whether the channel does not exist yet.
abbrev is_early : Phase → Bool
is_early accepted = true
is_early selected = true
is_early holding = true
is_early _ = false

-- What was sent and what may be sent by goroutines that hold the channel.
abbrev load : Connection → ℕ
load c = c.sends + c.copies + c.pending

-- A connection whose channel is registered can be sent one value more.
abbrev IsFine : (Bytes → Option ℕ) → ℕ → Connection → Type 0
IsFine registered i c =
    (load c ≤ 3)
    × ((is_early c.phase ≡ true → load c ≡ 0)
        × ((id : Bytes)
            → registered id ≡ some i
            → (load c ≤ 2) × ((c.session ≡ id) × (is_early c.phase ≡ false))))

abbrev AllFine : State → Type 0
AllFine s = (i : ℕ) → IsFine s.registered i (s.connections i)

with_connection-AllFine :
    (s : State) (i : ℕ) (c : Connection)
    → AllFine s
    → IsFine s.registered i c
    → AllFine (with_connection i c s)
with_connection-AllFine s i c h f j = elim (Bool-cases (j == i)) [
  | inl e ↦ rw (e, (==_iff j i).0 e) f
  | inr e ↦ rw e (h j)
]

abbrev put : Bytes → Option ℕ → (Bytes → Option ℕ) → Bytes → Option ℕ
put id v registered k = if equal k id then v else registered k

put-IsFine :
    (registered : Bytes → Option ℕ) (id : Bytes) (v : Option ℕ) (j : ℕ) (c : Connection)
    → IsFine registered j c
    → (v ≡ some j → (load c ≤ 2) × ((c.session ≡ id) × (is_early c.phase ≡ false)))
    → IsFine (put id v registered) j c
put-IsFine registered id v j c (b, (q, slot)) new = (b, (q, slots))
  where
    slots :
        (k : Bytes)
        → put id v registered k ≡ some j
        → (load c ≤ 2) × ((c.session ≡ k) × (is_early c.phase ≡ false))
    slots k h = elim (Bool-cases (equal k id)) [
      | inl e ↦ rw ((equal_iff k id).0 e) (new (rw e at h))
      | inr e ↦ slot k (rw e at h)
    ]

unregister-AllFine : (s : State) (id : Bytes) → AllFine s → AllFine (with_registered id none s)
unregister-AllFine s id h j =
    put-IsFine s.registered id none j (s.connections j) (h j) (λ e. absurd cc)

-- An early connection is not registered.
early-slot :
    (s : State) (i : ℕ) (k : Bytes)
    → AllFine s
    → is_early (s.connections i).phase ≡ true
    → s.registered k ≢ some i
early-slot s i k h e r =
    let (b, (q, slot)) = h i in let (two, (same, late)) = slot k r in ground arith

-- A value that is sent by a goroutine that held the channel.
send-AllFine :
    (s : State) (i : ℕ) (c : Connection)
    → AllFine s
    → load c ≡ load (s.connections i)
    → c.session ≡ (s.connections i).session
    → c.phase ≡ (s.connections i).phase
    → AllFine (with_connection i c s)
send-AllFine s i c h l e f =
    let (b, (q, slot)) = h i in
    let early = ap is_early f in
    with_connection-AllFine s i c h (
      omega arith,
      (
        (λ k. l ∙ q (sym early ∙ k)),
        (λ id r. let (two, (same, late)) = slot id r in (omega arith, (e ∙ same, early ∙ late))),
      ),
    )

-- A connection may always go to a phase that is not early.
late-AllFine :
    (s : State) (i : ℕ) (phase : Phase)
    → AllFine s
    → is_early phase ≡ false
    → AllFine (with_connection i (record (s.connections i) { phase = phase }) s)
late-AllFine s i phase h e =
    let (b, (q, slot)) = h i in
    with_connection-AllFine s i _ h
      (b, ((λ k. absurd cc), (λ k r. let (two, (same, late)) = slot k r in (two, (same, e)))))

-- An early connection takes any session and phase.
early-AllFine :
    (s : State) (i : ℕ) (phase : Phase) (id : Bytes)
    → AllFine s
    → is_early (s.connections i).phase ≡ true
    → AllFine (with_connection i (record (s.connections i) { phase = phase; session = id }) s)
early-AllFine s i phase id h e =
    let (b, (q, slot)) = h i in
    with_connection-AllFine s i _ h (b, ((λ k. q e), (λ k r. absurd (early-slot s i k h e r))))

register-AllFine :
    (s : State) (i : ℕ)
    → AllFine s
    → is_early (s.connections i).phase ≡ true
    → AllFine (
        with_registered
          (s.connections i).session
          (some i)
          (with_connection i (record (s.connections i) { phase = forwarding; copies = 2 }) s))
register-AllFine s i h e j =
    let (b, (q, slot)) = h i in
    let c : Connection = record (s.connections i) { phase = forwarding; copies = 2 } in
    let zero = q e in
    put-IsFine s.registered c.session (some i) j ((with_connection i c s).connections j)
      (with_connection-AllFine s i c h
        (omega arith, ((λ k. absurd cc), (λ k r. absurd (early-slot s i k h e r)))) j)
      (λ r. ground arith)

disconnect-AllFine :
    (s : State) (i : ℕ) (id : Bytes)
    → AllFine s
    → s.registered id ≡ some i
    → AllFine (
        with_registered id none (
          with_connection i
            (record (s.connections i) { pending = (s.connections i).pending + 1 })
            s))
disconnect-AllFine s i id h p =
    let (b, (q, slot)) = h i in
    let (two, (same, late)) = slot id p in
    let c : Connection = record (s.connections i) { pending = (s.connections i).pending + 1 } in
    with_connection-AllFine (with_registered id none s) i c (unregister-AllFine s id h)
      (omega arith, ((λ k. absurd cc), (λ k r. absurd (gone k r))))
  where
    gone : (k : Bytes) → put id none s.registered k ≢ some i
    gone k r =
        let (b, (q, slot)) = h i in
        elim (Bool-cases (equal k id)) [
          | inl e ↦ absurd (ground arith)
          | inr e ↦ absurd (ground (arith, slot k (rw e at r), slot id p, equal_self id))
        ]

Step-AllFine : {s t : State} → Step s t → AllFine s → AllFine t
Step-AllFine (select s i r p q) h = early-AllFine s i selected r.session_id h (ap is_early p)
Step-AllFine (reject s i p) h = late-AllFine s i closed h refl
Step-AllFine (claim s i p) h = early-AllFine s i holding (s.connections i).session h (ap is_early p)
Step-AllFine (claim_fails s i p) h = late-AllFine s i closed h refl
Step-AllFine (connect_fails s i p) h = late-AllFine s i closing h refl
Step-AllFine (register s i p) h = register-AllFine s i h (ap is_early p)
Step-AllFine (copy_ends s i p) h = send-AllFine s i _ h (omega arith) refl refl
Step-AllFine (disconnect s i id p) h = disconnect-AllFine s i id h p
Step-AllFine (signal s i p) h = send-AllFine s i _ h (omega arith) refl refl
Step-AllFine (stop s i p q) h =
    unregister-AllFine (with_connection i (record (s.connections i) { phase = closing }) s)
      (s.connections i).session (late-AllFine s i closing h refl)
Step-AllFine (finish s i p) h = late-AllFine s i closed h refl
Step-AllFine (finish_fails s i p) h = late-AllFine s i closed h refl

Steps-AllFine : {s t : State} → Steps s t → AllFine s → AllFine t
Steps-AllFine (stay s) h = h
Steps-AllFine (then_step steps step) h = Step-AllFine step (Steps-AllFine steps h)

-- Whatever the goroutines do, from a start with any table: what was sent on the channel of a
-- connection, what its copies will send and what disconnects that took the channel will send are
-- together at most three values, so that no send waits for a place in the channel.
pub Steps-sends :
    (rows : Table) {s : State} (i : ℕ)
    → Steps (initial rows) s
    → (s.connections i).sends + (s.connections i).copies + (s.connections i).pending ≤ 3
Steps-sends rows i steps =
    (Steps-AllFine steps (λ j. (omega arith, ((λ e. refl), (λ id r. absurd cc)))) i).0
