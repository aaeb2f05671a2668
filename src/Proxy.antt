-- ===== src/Proxy.antt =====
-- proxy/proxy.go: clients that are forwarded to a machine, and the requests to disconnect them, as
-- the steps of goroutines that interleave.
pub mod Channels
pub mod Claims
pub mod Disconnect
pub mod Forward
pub mod Registered
pub mod Start
use mechanicaldinosaurs.Base.{
  ℕ, ◌+◌, ◌-◌, ◌<◌, Bytes, equal, ◌==◌, ltb, if◌then◌else◌, ◌≡◌, Bool, true, not, Option, none,
  some, List, [], ◌∷◌, length, take, drop,
}

-- A row of the table of sessions, with the time of its creation.
pub record Session : Type 0 where
  pub session_id : Bytes
  pub created_at : ℕ
  pub claimed : Bool

abbrev pub Table : Type 0
Table = List Session

-- The query of `handleConnection`: of the sessions that are not claimed, one created last.
unfoldable pub later : Option Session → Option Session → Option Session
later none b = b
later (some a) none = some a
later (some a) (some b) = if ltb a.created_at b.created_at then some b else some a

unfoldable pub newest_unclaimed : Table → Option Session
unfolding later
newest_unclaimed [] = none
newest_unclaimed (r ∷ rs) =
    let rest = newest_unclaimed rs in later (if r.claimed then none else some r) rest

-- The update that claims a session, and the statement that deletes it.
unfoldable pub claim_rows : Bytes → Table → Table
claim_rows id [] = []
claim_rows id (r ∷ rs) =
    (if equal r.session_id id then record r { claimed = true } else r) ∷ claim_rows id rs

pub delete_rows : Bytes → Table → Table
delete_rows id [] = []
delete_rows id (r ∷ rs) =
    let rest = delete_rows id rs in if equal r.session_id id then rest else r ∷ rest

-- How far `handleConnection` has come: it has read no session; it has read one; it has claimed it;
-- it forwards; it has stopped to forward; it has returned.
pub data Phase : Type 0 where
  accepted selected holding forwarding closing closed : Phase

-- One call of `handleConnection` with its `errChan`: `copies` counts the goroutines that copy, `sends`
-- what was sent on the channel so far, and `pending` the disconnects that took the channel from the
-- map and have not sent yet.
pub record Connection : Type 0 where
  pub phase : Phase
  pub session : Bytes
  pub copies : ℕ
  pub sends : ℕ
  pub pending : ℕ

-- `registered` is the map `sessionIDsToErrChan`, with the number of the connection whose channel it
-- holds.
pub record State : Type 0 where
  pub table : Table
  pub connections : ℕ → Connection
  pub registered : Bytes → Option ℕ

abbrev pub with_connection : ℕ → Connection → State → State
with_connection i c s = record s { connections = λ j. if j == i then c else s.connections j }

abbrev pub with_registered : Bytes → Option ℕ → State → State
with_registered id v s = record s { registered = λ k. if equal k id then v else s.registered k }

abbrev pub with_table : Table → State → State
with_table rows s = record s { table = rows }

-- One step of a goroutine. A statement on the database is one step, and so is a section under the
-- lock.
pub data Step : State → State → Type 0 where
  select :
      (s : State) (i : ℕ) (r : Session)
      → (s.connections i).phase ≡ accepted
      → newest_unclaimed s.table ≡ some r
      → Step s (
          with_connection i
            (record (s.connections i) { phase = selected; session = r.session_id })
            s)
  reject :
      (s : State) (i : ℕ)
      → (s.connections i).phase ≡ accepted
      → Step s (with_connection i (record (s.connections i) { phase = closed }) s)
  claim :
      (s : State) (i : ℕ)
      → (s.connections i).phase ≡ selected
      → Step s (
          with_table
            (claim_rows (s.connections i).session s.table)
            (with_connection i (record (s.connections i) { phase = holding }) s))
  claim_fails :
      (s : State) (i : ℕ)
      → (s.connections i).phase ≡ selected
      → Step s (with_connection i (record (s.connections i) { phase = closed }) s)
  connect_fails :
      (s : State) (i : ℕ)
      → (s.connections i).phase ≡ holding
      → Step s (with_connection i (record (s.connections i) { phase = closing }) s)
  register :
      (s : State) (i : ℕ)
      → (s.connections i).phase ≡ holding
      → Step s (
          with_registered
            (s.connections i).session
            (some i)
            (with_connection i (record (s.connections i) { phase = forwarding; copies = 2 }) s))
  copy_ends :
      (s : State) (i : ℕ)
      → 0 < (s.connections i).copies
      → Step s (
          with_connection i
            (record (s.connections i) {
              copies = (s.connections i).copies - 1;
              sends = (s.connections i).sends + 1;
            })
            s)
  disconnect :
      (s : State) (i : ℕ) (id : Bytes)
      → s.registered id ≡ some i
      → Step s (
          with_registered id none (
            with_connection i
              (record (s.connections i) { pending = (s.connections i).pending + 1 })
              s))
  signal :
      (s : State) (i : ℕ)
      → 0 < (s.connections i).pending
      → Step s (
          with_connection i
            (record (s.connections i) {
              pending = (s.connections i).pending - 1;
              sends = (s.connections i).sends + 1;
            })
            s)
  stop :
      (s : State) (i : ℕ)
      → (s.connections i).phase ≡ forwarding
      → 0 < (s.connections i).sends
      → Step s (
          with_registered
            (s.connections i).session
            none
            (with_connection i (record (s.connections i) { phase = closing }) s))
  finish :
      (s : State) (i : ℕ)
      → (s.connections i).phase ≡ closing
      → Step s (
          with_table
            (delete_rows (s.connections i).session s.table)
            (with_connection i (record (s.connections i) { phase = closed }) s))
  finish_fails :
      (s : State) (i : ℕ)
      → (s.connections i).phase ≡ closing
      → Step s (with_connection i (record (s.connections i) { phase = closed }) s)

pub data Steps : State → State → Type 0 where
  stay : (s : State) → Steps s s
  then_step : {s t u : State} → Steps s t → Step t u → Steps s u

abbrev pub fresh : Connection
fresh = record { phase = accepted; session = []; copies = 0; sends = 0; pending = 0 }

-- The start, over any table.
abbrev pub initial : Table → State
initial rows = record { table = rows; connections = λ i. fresh; registered = λ id. none }

abbrev secret_length : ℕ
secret_length = 128

abbrev pub session_id_length : ℕ
session_id_length = 36

-- `handleDisconnect` up to the map: the session that the bytes of a connection ask to disconnect.
unfoldable pub read_disconnect : Bytes → Bytes → Option Bytes
unfolding equal
read_disconnect secret stream =
    let secret_given = take secret_length stream in
    let id = take session_id_length (drop secret_length stream) in
    if not (length secret_given == secret_length)
    then none
    else if not (equal secret_given secret)
    then none
    else if not (length id == session_id_length)
    then none
    else some id
