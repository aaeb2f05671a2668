-- ===== src/Proxy/Registered.antt =====
-- proxy/proxy.go: the map of the channels, and what a request to disconnect does.
use mechanicaldinosaurs.Base.{
  ℕ, ◌+◌, ◌-◌, Bytes, equal, equal_iff, ◌==◌, if◌then◌else◌, ◌≡◌, refl, false, none, some, ◌++◌,
  length, arith, Bool,
}
use mechanicaldinosaurs.Proxy.{
  forwarding, closing, closed, State, Table, with_connection, with_registered, with_table, Step,
  select, reject, claim, claim_fails, connect_fails, register, copy_ends, disconnect, signal, stop,
  finish, finish_fails, Steps, stay, then_step, initial, delete_rows, read_disconnect,
}
use mechanicaldinosaurs.Proxy.Disconnect.{read_disconnect_iff}
use mechanicaldinosaurs.Proxy.Start.{start_proxy, accepting, accepting-length}

-- A channel in the map is that of a connection which forwards the session of its id.
abbrev pub AreForwarding : State → Type 0
AreForwarding s =
    (id : Bytes) (j : ℕ)
    → s.registered id ≡ some j
    → ((s.connections j).phase ≡ forwarding) × ((s.connections j).session ≡ id)

Step-AreForwarding : {s t : State} → Step s t → AreForwarding s → AreForwarding t
Step-AreForwarding (select s i r a n) v id j h = ground (arith, v id j h)
Step-AreForwarding (reject s i a) v id j h = ground (arith, v id j h)
Step-AreForwarding (claim s i a) v id j h = ground (arith, v id j h)
Step-AreForwarding (claim_fails s i a) v id j h = ground (arith, v id j h)
Step-AreForwarding (connect_fails s i a) v id j h = ground (arith, v id j h)
Step-AreForwarding (register s i a) v id j h =
    ground (arith, v id j, equal_iff id (s.connections i).session)
Step-AreForwarding (copy_ends s i a) v id j h = ground (arith, v id j h)
Step-AreForwarding (disconnect s i k a) v id j h = ground (arith, v id j, equal_iff id k)
Step-AreForwarding (signal s i a) v id j h = ground (arith, v id j h)
Step-AreForwarding (stop s i a n) v id j h =
    ground (arith, v id j, equal_iff id (s.connections i).session)
Step-AreForwarding (finish s i a) v id j h = ground (arith, v id j h)
Step-AreForwarding (finish_fails s i a) v id j h = ground (arith, v id j h)

Steps-AreForwarding : {s t : State} → Steps s t → AreForwarding s → AreForwarding t
Steps-AreForwarding (stay s) v = v
Steps-AreForwarding (then_step r st) v = Step-AreForwarding st (Steps-AreForwarding r v)

initial-AreForwarding : (rows : Table) → AreForwarding (initial rows)
initial-AreForwarding rows id j h = absurd cc

-- The states that a disconnect leads through.
module _ (s : State) (i : ℕ) (id : Bytes) where
  abbrev asked : State
  asked =
      with_registered id none
        (with_connection i (record (s.connections i) { pending = (s.connections i).pending + 1 }) s)

  abbrev signalled : State
  signalled =
      with_connection i
        (record (asked.connections i) {
          pending = (asked.connections i).pending - 1;
          sends = (asked.connections i).sends + 1;
        })
        asked

  abbrev stopped : State
  stopped =
      with_registered (signalled.connections i).session none
        (with_connection i (record (signalled.connections i) { phase = closing }) signalled)

  abbrev finished : State
  finished =
      with_table (delete_rows (stopped.connections i).session stopped.table)
        (with_connection i (record (stopped.connections i) { phase = closed }) stopped)

  disconnect-Steps :
      s.registered id ≡ some i → (s.connections i).phase ≡ forwarding → Steps s finished
  disconnect-Steps h f =
      then_step
        (then_step
          (then_step (then_step (stay s) (disconnect s i id h)) (signal asked i (ground arith)))
          (stop signalled i (ground (arith, f)) (ground arith)))
        (finish stopped i (ground arith))

-- A proxy has started with some secret. Whatever has happened since, from any table: a client that
-- sends this secret and the id, 36 bytes long, of a session whose channel is in the map asks to
-- disconnect that session, and this can end the
-- connection whose channel it is. It then has returned, its session is deleted from the table, the
-- map has its channel no more and every other as before, and no other connection has changed.
pub disconnect-closes :
    (secret id rest : Bytes) (connects listens listens_disconnect : Bool) (rows : Table) (s : State)
    (i : ℕ)
    → start_proxy secret connects listens listens_disconnect ≡ accepting
    → length id ≡ 36
    → Steps (initial rows) s
    → s.registered id ≡ some i
    → (read_disconnect secret (secret ++ (id ++ rest)) ≡ some id)
      × (t : State) × Steps s t
      × ((t.connections i).phase ≡ closed)
      × (t.table ≡ delete_rows id s.table)
      × ((k : Bytes) → t.registered k ≡ (if equal k id then none else s.registered k))
      × ((j : ℕ) → (j == i) ≡ false → t.connections j ≡ s.connections j)
disconnect-closes secret id rest connects listens listens_disconnect rows s i a m r h =
    let n = accepting-length secret connects listens listens_disconnect a in
    let (f, e) = Steps-AreForwarding r (initial-AreForwarding rows) id i h in
    (
      (read_disconnect_iff secret (secret ++ (id ++ rest)) id n).1 (m, (rest, refl)),
      finished s i id,
      disconnect-Steps s i id h f,
      ground arith,
      ground (arith, e),
      λ k. ground (arith, e),
      λ j o. ground arith,
    )
