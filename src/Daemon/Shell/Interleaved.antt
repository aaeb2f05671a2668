-- ===== src/Daemon/Shell/Interleaved.antt =====
-- daemon/shell.go: a whole session, whatever the order of its messages and its output.
use mechanicaldinosaurs.Base.{
  arith, ◌∙◌, Bytes, if◌then◌else◌, ◌≡◌, refl, sym, Bool, true, false, not, ◌&&◌, Option, none,
  some, List, [], ◌∷◌, ◌++◌, concat, append_assoc, append-nil,
}
use mechanicaldinosaurs.Daemon.Shell.{
  WindowSize, Pty, Round, ShellEvent, message, output, shell_ended, Session, terminal_loop,
  session_run, handle_terminal,
}
use mechanicaldinosaurs.Daemon.Shell.Typed.{typed, last_size, terminal_loop-typed}

-- The messages of a session, without its output.
abbrev pub messages : List ShellEvent → List Round
messages [] = []
messages (message r ∷ es) = r ∷ messages es
messages (output chunk written ∷ es) = messages es
messages (shell_ended ∷ es) = messages es

-- Whether the client has ended the session, and whether the shell has ended by itself.
abbrev pub ended : List ShellEvent → Bool
ended [] = false
ended (message (none, taken) ∷ es) = true
ended (message (some text, taken) ∷ es) = ended es
ended (output chunk written ∷ es) = ended es
ended (shell_ended ∷ es) = ended es

abbrev pub shell_has_ended : List ShellEvent → Bool
shell_has_ended [] = false
shell_has_ended (message r ∷ es) = shell_has_ended es
shell_has_ended (output chunk written ∷ es) = shell_has_ended es
shell_has_ended (shell_ended ∷ es) = true

-- The output up to the first read or write that fails and to the end of the session.
abbrev pub copied : List ShellEvent → List Bytes
copied [] = []
copied (message (none, taken) ∷ es) = []
copied (message (some text, taken) ∷ es) = copied es
copied (output none written ∷ es) = []
copied (output (some chunk) true ∷ es) = chunk ∷ copied es
copied (output (some chunk) false ∷ es) = []
copied (shell_ended ∷ es) = copied es

module _ (parse : Bytes → Option WindowSize) where
  -- The end of a session: what is open, whether the shell runs, what the terminal was given, and what
  -- the client was shown.
  abbrev pub Sees : Session → Bool → Bool → Pty → List Bytes → Type 0
  Sees t is_open runs pty shown =
      (t.socket_open ≡ is_open)
      × (t.pty_open ≡ is_open)
      × (t.bash_running ≡ runs)
      × (t.pty ≡ pty)
      × (t.shown ≡ shown)

  abbrev closed : Bool → Pty → List Bytes → Session
  closed copying pty shown = record {
    socket_open = false;
    pty_open = false;
    bash_running = false;
    copying = copying;
    pty = pty;
    shown = shown;
  }

  abbrev opened : Bool → Bool → Pty → List Bytes → Session
  opened runs copying pty shown = record {
    socket_open = true;
    pty_open = true;
    bash_running = runs;
    copying = copying;
    pty = pty;
    shown = shown;
  }

  -- The loops once the session has ended.
  session_run-closed :
      (es : List ShellEvent) (c : Bool) (pty : Pty) (shown : List Bytes)
      → Sees (session_run parse es (closed c pty shown)) false false pty shown
  unfolding session_run
  session_run-closed [] c pty shown = (refl, refl, refl, refl, refl)
  session_run-closed (message m ∷ es) c pty shown = session_run-closed es c pty shown
  session_run-closed (shell_ended ∷ es) c pty shown = session_run-closed es c pty shown
  session_run-closed (output chunk written ∷ es) false pty shown =
      session_run-closed es false pty shown
  session_run-closed (output none written ∷ es) true pty shown =
      session_run-closed es false pty shown
  session_run-closed (output (some chunk) written ∷ es) true pty shown =
      session_run-closed es false pty shown

  -- A session as a whole, from the loops on.
  abbrev Run : List ShellEvent → Bool → Bool → Pty → List Bytes → Type 0
  Run es runs c pty shown =
      Sees (session_run parse es (opened runs c pty shown)) (not (ended es))
        (runs && (not (ended es) && not (shell_has_ended es)))
        (terminal_loop parse (messages es) pty) (if c then shown ++ copied es else shown)

  and_self : (b : Bool) → (b && (true && true)) ≡ b
  and_self true = refl
  and_self false = refl

  never : (b : Bool) → (b && false) ≡ false
  never true = refl
  never false = refl

  session_run-opened :
      (es : List ShellEvent) (runs c : Bool) (pty : Pty) (shown : List Bytes)
      → Run es runs c pty shown
  unfolding session_run terminal_loop
  session_run-opened [] runs false pty shown = (refl, refl, sym (and_self runs), refl, refl)
  session_run-opened [] runs true pty shown =
      (refl, refl, sym (and_self runs), refl, sym (append-nil shown))
  session_run-opened (shell_ended ∷ es) runs c pty shown =
      let (a, b, stopped, d, e) = session_run-opened es false c pty shown in
      (a, b, stopped ∙ ground arith, d, e)
  session_run-opened (message (none, taken) ∷ es) runs false pty shown =
      let (a, b, stopped, d, e) = session_run-closed es false pty shown in
      (a, b, stopped ∙ sym (never runs), d, e)
  session_run-opened (message (none, taken) ∷ es) runs true pty shown =
      let (a, b, stopped, d, e) = session_run-closed es true pty shown in
      (a, b, stopped ∙ sym (never runs), d, e ∙ sym (append-nil shown))
  session_run-opened (message (some text, taken) ∷ es) runs c pty shown =
      session_run-opened es runs c _ shown
  session_run-opened (output chunk written ∷ es) runs false pty shown =
      session_run-opened es runs false pty shown
  session_run-opened (output none written ∷ es) runs true pty shown =
      rw (append-nil shown) (session_run-opened es runs false pty shown)
  session_run-opened (output (some chunk) false ∷ es) runs true pty shown =
      rw (append-nil shown) (session_run-opened es runs false pty shown)
  session_run-opened (output (some chunk) true ∷ es) runs true pty shown =
      rw (sym (append_assoc shown (chunk ∷ []) (copied es)))
        (session_run-opened es runs true pty (shown ++ chunk ∷ []))

  -- Whatever the order of its messages, its output and the end of its shell, a session that could be
  -- started gives the terminal the messages before its end that ask for no size, each as far as the
  -- terminal takes it and in their order, and nothing else; the terminal has the size that was asked
  -- for last; the client is shown the output in its order, up to the first read or write that fails
  -- and to the end of the session; the socket and the terminal are closed exactly if the client has
  -- ended the session, so not when the shell has ended; and the shell runs until one of both. A
  -- session that could not be started leaves nothing open.
  pub handle_terminal-Sees :
      (upgrades starts : Bool) (es : List ShellEvent) (pty : Pty)
      → if upgrades && starts
        then Sees
            (handle_terminal parse upgrades starts es pty)
            (not (ended es))
            (not (ended es) && not (shell_has_ended es))
            (record {
              input = pty.input ++ concat (typed parse (messages es));
              size = last_size parse (messages es) pty.size;
            })
            (copied es)
        else Sees (handle_terminal parse upgrades starts es pty) false false pty []
  unfolding handle_terminal
  handle_terminal-Sees false starts es pty = (refl, refl, refl, refl, refl)
  handle_terminal-Sees true false es pty = (refl, refl, refl, refl, refl)
  handle_terminal-Sees true true es pty =
      rw⁻¹ (terminal_loop-typed parse (messages es) pty) (session_run-opened es true true pty [])
