-- ===== src/Runner/Supervisor/Ends.antt =====
-- runner.go, `runAll`: how a run ends, whatever the system does.
use mechanicaldinosaurs.Base.{
  Bytes, Bool-cases, Option-cases, All, ◌≡◌, refl, ◌⊎◌, inl, inr, true, false, some, List, [], ◌∷◌,
  codes, equal, ◌||◌, arith,
}
use mechanicaldinosaurs.Runner.Supervisor.{
  Component, Process, System, Run, start_failed, start_all, mark_exited, run_components,
  run_migrations, run_all,
}
use mechanicaldinosaurs.Runner.Supervisor.Shutdown.{
  IsUnsignalled, HasShutDown, shutdown_all-HasShutDown, mark_exited-IsUnsignalled,
}

-- A process that runs and was sent no signal.
abbrev pub IsLeft : Process → Type 0
IsLeft p = (p.running ≡ true) × (p.signals ≡ [])

-- The run has come to its shutdown, or one component could not be started and all others are left.
abbrev pub HasEnded : System → Run → Type 0
HasEnded system r =
    HasShutDown r.processes r.returns
    ⊎ ((c : Component) × (system.starts c ≡ false)
        × (r.returns ≡ true)
        × (r.error ≡ some (start_failed c.name))
        × All IsLeft r.processes)

module _ (system : System) where
  start_all-IsLeft : (cs : List Component) → All IsLeft (start_all system cs).0
  unfolding start_all
  start_all-IsLeft [] = tt
  start_all-IsLeft (c ∷ cs) = elim (Bool-cases (system.starts c)) [
    | inl e ↦ rw e ((refl, refl), start_all-IsLeft cs)
    | inr e ↦ rw e tt
  ]

  start_all_failed :
      (cs : List Component) (c : Component)
      → (start_all system cs).1 ≡ some c
      → system.starts c ≡ false
  unfolding start_all
  start_all_failed [] c h = cc
  start_all_failed (d ∷ cs) c h = elim (Bool-cases (system.starts d)) [
    | inl e ↦ start_all_failed cs c (rw e at h)
    | inr e ↦ ground (arith, rw e at h)
  ]

  left-IsUnsignalled : (ps : List Process) → All IsLeft ps → All IsUnsignalled ps
  left-IsUnsignalled [] h = tt
  left-IsUnsignalled (p ∷ ps) ((r, s), hs) = (s, left-IsUnsignalled ps hs)

  run_components-HasEnded : (cs : List Component) → HasEnded system (run_components system cs)
  unfolding run_components
  run_components-HasEnded cs = elim (Option-cases (start_all system cs).1) [
    | inl e ↦
        rw (run_components, e)
          (inl (
            shutdown_all-HasShutDown system
              (mark_exited system system.event (start_all system cs).0)
              (mark_exited-IsUnsignalled system system.event (start_all system cs).0
                (left-IsUnsignalled (start_all system cs).0 (start_all-IsLeft cs)))))
    | inr (c, e) ↦
        rw (run_components, e) (inr (c, start_all_failed cs c e, refl, refl, start_all-IsLeft cs))
  ]

  pub run_all-HasEnded :
      (migrate : Bytes) (cs : List Component) → HasEnded system (run_all system migrate cs)
  unfolding run_all
  run_all-HasEnded migrate cs =
      elim (Bool-cases (equal migrate (codes "true") || equal migrate (codes "1"))) [
        | inl e ↦ elim (Option-cases (run_migrations system cs)) [
          | inl m ↦ rw (run_all, e) (rw m (run_components-HasEnded cs))
          | inr (x, m) ↦ rw (run_all, e) (rw m (inl (tt, inl (refl, tt))))
        ]
        | inr e ↦ rw (run_all, e) (run_components-HasEnded cs)
      ]
