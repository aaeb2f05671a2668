-- ===== src/Runner/Supervisor/Order.antt =====
-- The order in which `runAll` starts the components.
use mechanicaldinosaurs.Base.{
  ℕ, suc, Bytes, codes, equal, Bool-cases, Option-cases, take, ◌≡◌, refl, ap, ◌∙◌, inl, inr, ◌||◌,
  List, [], ◌∷◌,
}
use mechanicaldinosaurs.Runner.Supervisor.{
  Component, Process, System, start_all, run_components, run_migrations, run_all, mark_exited,
}
use mechanicaldinosaurs.Runner.Supervisor.Shutdown.{
  components, shutdown_all-components, mark_exited-components,
}

module _ (system : System) where
  -- The processes are those of the first components.
  abbrev pub IsPrefix : List Process → List Component → Type 0
  IsPrefix ps cs = (n : ℕ) × (components system ps ≡ take n cs)

  start_all-IsPrefix : (cs : List Component) → IsPrefix (start_all system cs).0 cs
  unfolding start_all
  start_all-IsPrefix [] = (0, refl)
  start_all-IsPrefix (c ∷ cs) = elim (Bool-cases (system.starts c)) [
    | inl e ↦ let (n, h) = start_all-IsPrefix cs in (suc n, rw (start_all, e) (ap (◌∷◌ c) h))
    | inr e ↦ (0, rw (start_all, e) refl)
  ]

  run_components-IsPrefix : (cs : List Component) → IsPrefix (run_components system cs).processes cs
  unfolding run_components
  run_components-IsPrefix cs =
      let (n, h) = start_all-IsPrefix cs in
      let ps = (start_all system cs).0 in
      elim (Option-cases (start_all system cs).1) [
        | inl e ↦ (
          n,
          rw (run_components, e)
              (shutdown_all-components system (mark_exited system system.event ps)
                ∙ mark_exited-components system system.event ps
                ∙ h),
        )
        | inr (c, e) ↦ (n, rw (run_components, e) h)
      ]

  -- Whatever is asked of the migrations, `runAll` starts the first components, in their order.
  pub run_all-IsPrefix :
      (migrate : Bytes) (cs : List Component) → IsPrefix (run_all system migrate cs).processes cs
  unfolding run_all
  run_all-IsPrefix migrate cs =
      elim (Bool-cases (equal migrate (codes "true") || equal migrate (codes "1"))) [
        | inr e ↦ rw (run_all, e) (run_components-IsPrefix cs)
        | inl e ↦ elim (Option-cases (run_migrations system cs)) [
          | inl m ↦ rw (run_all, e, m) (run_components-IsPrefix cs)
          | inr (r, m) ↦ (0, rw (run_all, e, m) refl)
        ]
      ]
