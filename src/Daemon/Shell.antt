-- ===== src/Daemon/Shell.antt =====
-- daemon/shell.go, `handleTerminal`: the messages of a web socket to the shell, and its output back.
-- The goroutine that copies the output interleaves with the loop over the messages.
pub mod Interleaved
pub mod Typed
use mechanicaldinosaurs.Base.{
  ℕ, Bytes, ltb, if◌then◌else◌, ◌&&◌, Bool, true, false, not, Option, none, some, List, [], ◌∷◌,
  ◌++◌, take,
}

-- `WindowSize`.
pub record WindowSize : Type 0 where
  pub cols : ℕ
  pub rows : ℕ

-- The pseudo terminal: what was written to it, and its size.
pub record Pty : Type 0 where
  pub input : Bytes
  pub size : WindowSize

-- A message that asks for a size, where `parse` is `json.Unmarshal`.
unfoldable pub resize : (Bytes → Option WindowSize) → Bytes → Option WindowSize
resize parse message = elim (parse message) [
  | none ↦ none
  | some size ↦ if ltb 0 size.cols && ltb 0 size.rows then some size else none
]

-- What one round of the loop over the messages meets: the message, or the error of `ReadMessage`, and
-- how many bytes of it the pseudo terminal takes before `ptyFile.Write` fails, if it does; the error is
-- not looked at.
abbrev pub Round : Type 0
Round = Option Bytes × ℕ

-- The loop over the messages, up to the error of `ReadMessage`.
unfoldable pub terminal_loop : (Bytes → Option WindowSize) → List Round → Pty → Pty
unfolding resize
terminal_loop parse [] pty = pty
terminal_loop parse ((none, taken) ∷ rs) pty = pty
terminal_loop parse ((some text, taken) ∷ rs) pty =
    terminal_loop parse rs (elim (resize parse text) [
      | none ↦ record pty { input = pty.input ++ take taken text }
      | some size ↦ record pty { size = size }
    ])

-- What happens: `ws.ReadMessage` returns, with a message or an error; `ptyFile.Read` returns, with
-- output or an error, and `ws.WriteMessage` then succeeds or not; the shell ends by itself.
pub data ShellEvent : Type 0 where
  message : Round → ShellEvent
  output : Option Bytes → Bool → ShellEvent
  shell_ended : ShellEvent

-- A call of `handleTerminal`: what is open, whether its goroutine runs, the terminal, and the
-- messages that were sent to the client.
pub record Session : Type 0 where
  pub socket_open : Bool
  pub pty_open : Bool
  pub bash_running : Bool
  pub copying : Bool
  pub pty : Pty
  pub shown : List Bytes

module _ (parse : Bytes → Option WindowSize) where
  -- One message of the loop, or its end with the two deferred functions. The goroutine finds the
  -- terminal closed at its next read.
  on_message : Round → Session → Session
  unfolding terminal_loop
  on_message (none, taken) t = record t {
    socket_open = false;
    pty_open = false;
    bash_running = false;
  }
  on_message (some text, taken) t = record t {
    pty = terminal_loop parse ((some text, taken) ∷ []) t.pty;
  }

  -- One round of the goroutine.
  on_output : Option Bytes → Bool → Session → Session
  on_output none written t = record t { copying = false }
  on_output (some chunk) written t =
      if t.pty_open && written
      then record t { shown = t.shown ++ chunk ∷ [] }
      else record t { copying = false }

  -- A loop that has ended takes nothing more.
  session_step : ShellEvent → Session → Session
  unfolding on_message on_output
  session_step (message m) t = if t.socket_open then on_message m t else t
  session_step shell_ended t = record t { bash_running = false }
  session_step (output chunk written) t = if t.copying then on_output chunk written t else t

  session_run : List ShellEvent → Session → Session
  unfolding session_step
  session_run [] t = t
  session_run (e ∷ es) t = session_run es (session_step e t)

  abbrev pub nothing_open : Pty → Session
  nothing_open pty = record {
    socket_open = false;
    pty_open = false;
    bash_running = false;
    copying = false;
    pty = pty;
    shown = [];
  }

  -- `handleTerminal`, where the upgrade and the start of the shell succeed or not; the socket is
  -- closed in every case.
  unfoldable pub handle_terminal : Bool → Bool → List ShellEvent → Pty → Session
  unfolding session_run
  handle_terminal upgrades starts events pty =
      if not upgrades
      then nothing_open pty
      else if not starts
      then nothing_open pty
      else session_run events (record {
        socket_open = true;
        pty_open = true;
        bash_running = true;
        copying = true;
        pty = pty;
        shown = [];
      })
