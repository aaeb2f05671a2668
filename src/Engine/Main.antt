-- ===== src/Engine/Main.antt =====
-- automation-engine/main.go, `main`, and the goroutine of the ticker in server.go, `serve`.
use mechanicaldinosaurs.Base.{Bytes, ok, err, panic, ◌≡◌, refl, ◌⊎◌, Option, List, [], ◌∷◌}
use mechanicaldinosaurs.Engine.Context.{Platform}
use mechanicaldinosaurs.Engine.Trigger.{Time}
use mechanicaldinosaurs.Engine.Automation.{Automation}
use mechanicaldinosaurs.Engine.Startup.{Scan, LoadError, load_save}
use mechanicaldinosaurs.Engine.Alerts.{Alerts, Machine, perform_data_refresh}

-- How far `main` comes: it returns with the error of `loadSave`, it panics there, or it serves, with
-- the automations.
pub data Start (F : Type 0) : Type 0 where
  not_loaded : LoadError → Start F
  panicked : Start F
  serving : List (Automation F) → Start F

module _ {F : Type 0} (p : Platform F) where
  unfoldable pub main_engine : Time → LoadError ⊎ List (Scan F) → Start F
  unfolding load_save
  main_engine now answer = elim (load_save p now answer) [
    | ok automations ↦ serving automations
    | err e ↦ not_loaded e
    | panic ↦ panicked
  ]

  -- An engine whose automations could be loaded serves them.
  pub main_engine-serving :
      (now : Time) (answer : LoadError ⊎ List (Scan F)) (automations : List (Automation F))
      → load_save p now answer ≡ ok automations
      → main_engine now answer ≡ serving automations
  unfolding main_engine
  main_engine-serving now answer automations h = rw (main_engine, h) refl

-- What the `select` of the goroutine takes: a tick, with the answers of the daemons and of the query
-- of `getMachines`; or the end, which `serve` sends when the server has failed.
pub data Choice (I : Type 0) : Type 0 where
  tick : (Machine → Option I) → Option (List (Option Machine)) → Choice I
  cancelled : Choice I

-- The loop of the goroutine.
pub refresh_loop :
    {I : Type 0}
    → List (Choice I)
    → Alerts (List (Bytes × Option I))
    → Alerts (List (Bytes × Option I))
refresh_loop [] a = a
refresh_loop (cancelled ∷ rest) a = a
refresh_loop (tick call rows ∷ rest) a = refresh_loop rest (perform_data_refresh call rows a)
