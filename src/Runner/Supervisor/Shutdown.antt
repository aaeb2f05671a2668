-- ===== src/Runner/Supervisor/Shutdown.antt =====
-- What is left running when `runAll` returns.
use mechanicaldinosaurs.Base.{
  equal, Bool-cases, All, ◌≡◌, refl, ap, ◌∙◌, not, ◌⊎◌, inl, inr, Bool, true, false, ◌&&◌, some,
  List, [], ◌∷◌, ◌++◌, map, arith,
}
use mechanicaldinosaurs.Runner.Supervisor.{
  Component, Process, Signal, sigterm, sigkill, System, Event, shutdown_requested, exited,
  start_failed, start_all, shutdown_all, signal_process_group, mark_exited, run_components,
  any_running, any_others, run_all,
}

-- A command whose process has ended; one of whose group nothing runs; and one that was sent nothing, or
-- nothing but SIGTERM.
abbrev pub IsStopped : Process → Type 0
IsStopped p = p.running ≡ false

abbrev pub IsGone : Process → Type 0
IsGone p = (p.running ≡ false) × (p.others ≡ false)

abbrev pub IsUnsignalled : Process → Type 0
IsUnsignalled p = p.signals ≡ []

abbrev pub IsTermed : Process → Type 0
IsTermed p = p.signals ≡ sigterm ∷ []

-- The end of a run that has come to its shutdown: every process that was started has ended; and either
-- `runAll` returns and nothing runs in any group, or it blocks, and SIGKILL was not sent.
abbrev pub HasShutDown : List Process → Bool → Type 0
HasShutDown ps returns =
    All IsStopped ps × (((returns ≡ true) × All IsGone ps) ⊎ ((returns ≡ false) × All IsTermed ps))

module _ (system : System) where
  any_running-none : (ps : List Process) → any_running system ps ≡ false → All IsStopped ps
  any_running-none [] h = tt
  any_running-none (p ∷ ps) h = (ground arith, any_running-none ps (ground arith))

  any_others-none :
      (ps : List Process) → All IsStopped ps → any_others system ps ≡ false → All IsGone ps
  unfolding any_others
  any_others-none [] k h = tt
  any_others-none (p ∷ ps) (k, ks) h = ((k, ground arith), any_others-none ps ks (ground arith))

  killed : (ps : List Process) → All IsGone (map (signal_process_group system sigkill) ps)
  unfolding signal_process_group
  killed [] = tt
  killed (p ∷ ps) = ((ground arith, ground arith), killed ps)

  gone-IsStopped : (ps : List Process) → All IsGone ps → All IsStopped ps
  gone-IsStopped [] h = tt
  gone-IsStopped (p ∷ ps) ((h, k), hs) = (h, gone-IsStopped ps hs)

  gone_others : (ps : List Process) → All IsGone ps → any_others system ps ≡ false
  unfolding any_others
  gone_others [] h = refl
  gone_others (p ∷ ps) ((h, k), hs) = ground (arith, gone_others ps hs)

  termed :
      (ps : List Process)
      → All IsUnsignalled ps
      → All IsTermed (map (signal_process_group system sigterm) ps)
  unfolding signal_process_group
  termed [] h = tt
  termed (p ∷ ps) (h, hs) = (ap (λ s. sigterm ∷ s) h, termed ps hs)

  -- How a shutdown ends.
  pub shutdown_all-HasShutDown :
      (ps : List Process)
      → All IsUnsignalled ps
      → HasShutDown (shutdown_all system ps) (not (any_others system (shutdown_all system ps)))
  unfolding shutdown_all
  shutdown_all-HasShutDown ps u =
      let terminated = map (signal_process_group system sigterm) ps in
      elim (Bool-cases (any_running system terminated)) [
        | inl e ↦
            let gone = killed terminated in
            rw e (
              gone-IsStopped (map (signal_process_group system sigkill) terminated) gone,
              inl (
                ap not (gone_others (map (signal_process_group system sigkill) terminated) gone),
                gone,
              ),
            )
        | inr e ↦
            let stopped = any_running-none terminated e in
            rw e (elim (Bool-cases (any_others system terminated)) [
              | inl o ↦ (stopped, inr (ap not o, termed ps u))
              | inr o ↦ (stopped, inl (ap not o, any_others-none terminated stopped o))
            ])
      ]

  pub mark_exited-IsUnsignalled :
      (e : Event) (ps : List Process)
      → All IsUnsignalled ps
      → All IsUnsignalled (mark_exited system e ps)
  unfolding mark_exited
  mark_exited-IsUnsignalled shutdown_requested ps h = h
  mark_exited-IsUnsignalled (exited name) [] h = tt
  mark_exited-IsUnsignalled (exited name) (p ∷ ps) (h, hs) =
      (ground arith, mark_exited-IsUnsignalled (exited name) ps hs)

  abbrev pub components : List Process → List Component
  components = map (λ p. p.component)

  signalled-components :
      (s : Signal) (ps : List Process)
      → components (map (signal_process_group system s) ps) ≡ components ps
  unfolding signal_process_group
  signalled-components s [] = refl
  signalled-components s (p ∷ ps) = ap (◌∷◌ p.component) (signalled-components s ps)

  pub shutdown_all-components :
      (ps : List Process) → components (shutdown_all system ps) ≡ components ps
  unfolding shutdown_all
  shutdown_all-components ps =
      let terminated = map (signal_process_group system sigterm) ps in
      elim (Bool-cases (any_running system terminated)) [
        | inl e ↦ rw e (signalled-components sigkill terminated ∙ signalled-components sigterm ps)
        | inr e ↦ rw e (signalled-components sigterm ps)
      ]

  pub mark_exited-components :
      (e : Event) (ps : List Process) → components (mark_exited system e ps) ≡ components ps
  unfolding mark_exited
  mark_exited-components shutdown_requested ps = refl
  mark_exited-components (exited name) [] = refl
  mark_exited-components (exited name) (p ∷ ps) =
      ground (arith, mark_exited-components (exited name) ps)

  abbrev pub as_started : Component → Process
  as_started c = record { component = c; running = true; others = system.forks c; signals = [] }

  abbrev pub all_start : List Component → Bool
  all_start [] = true
  all_start (c ∷ cs) = system.starts c && all_start cs

  start_all-failed :
      (cs : List Component) (c : Component) (rest : List Component)
      → all_start cs ≡ true
      → system.starts c ≡ false
      → start_all system (cs ++ c ∷ rest) ≡ (map as_started cs, some c)
  unfolding start_all
  start_all-failed [] c rest h f = ground arith
  start_all-failed (d ∷ cs) c rest h f = ground (arith, start_all-failed cs c rest)

  -- With no migrations, if the start of a component fails, `runAll` returns its error and leaves all
  -- processes that were started before it running, none of which was sent a signal.
  pub run_all_orphans :
      (cs : List Component) (c : Component) (rest : List Component)
      → all_start cs ≡ true
      → system.starts c ≡ false
      → run_all system [] (cs ++ c ∷ rest) ≡ record {
        processes = map as_started cs;
        returns = true;
        error = some (start_failed c.name);
      }
  unfolding run_all equal
  run_all_orphans cs c rest h f =
      rw (start_all-failed cs c rest h f, run_components) (rw (start_all-failed cs c rest h f))
