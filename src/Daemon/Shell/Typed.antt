-- ===== src/Daemon/Shell/Typed.antt =====
-- daemon/shell.go: what of the messages reaches the shell.
use mechanicaldinosaurs.Base.{
  Bytes, take, ◌≡◌, sym, ap, ◌∙◌, Option-cases, inl, inr, Option, none, some, List, [], ◌∷◌, ◌++◌,
  concat, append_assoc, append-nil,
}
use mechanicaldinosaurs.Daemon.Shell.{WindowSize, Pty, Round, resize, terminal_loop}

module _ (parse : Bytes → Option WindowSize) where
  -- What the terminal takes of the messages before the first error, without those that ask for a size.
  abbrev pub typed : List Round → List Bytes
  typed [] = []
  typed ((none, taken) ∷ rs) = []
  typed ((some text, taken) ∷ rs) =
      let rest = typed rs in
      elim (resize parse text) [ none ↦ take taken text ∷ rest | some size ↦ rest ]

  -- The size that the last of them asks for.
  abbrev pub last_size : List Round → WindowSize → WindowSize
  last_size [] size = size
  last_size ((none, taken) ∷ rs) size = size
  last_size ((some text, taken) ∷ rs) size = elim (resize parse text) [
    | none ↦ last_size rs size
    | some asked ↦ last_size rs asked
  ]

  -- Up to the first error of the socket, the terminal has the messages that ask for no size, as far as
  -- it takes them and in their order, and nothing else; and the size that was asked for last.
  pub terminal_loop-typed :
      (rs : List Round) (pty : Pty)
      → terminal_loop parse rs pty
        ≡ record { input = pty.input ++ concat (typed rs); size = last_size rs pty.size }
  unfolding terminal_loop concat
  terminal_loop-typed [] pty = ap (λ s. record pty { input = s }) (sym (append-nil pty.input))
  terminal_loop-typed ((none, taken) ∷ rs) pty =
      ap (λ s. record pty { input = s }) (sym (append-nil pty.input))
  terminal_loop-typed ((some text, taken) ∷ rs) pty = elim (Option-cases (resize parse text)) [
    | inl e ↦
        rw (terminal_loop, concat, last_size, e)
          (terminal_loop-typed rs (record pty { input = pty.input ++ take taken text })
            ∙ ap (λ s. record { input = s; size = last_size rs pty.size })
                (append_assoc pty.input (take taken text) (concat (typed rs))))
    | inr (size, e) ↦
        rw (terminal_loop, concat, last_size, e)
          (terminal_loop-typed rs (record pty { size = size }))
  ]
