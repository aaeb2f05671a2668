-- ===== src/Runner/Supervisor.antt =====
-- runner.go, `runAll` and `shutdownAll`: the components are started in order, and stopped when the
-- first of them ends or a shutdown is requested.
pub mod Ends
pub mod Order
pub mod Shutdown
use mechanicaldinosaurs.Base.{
  Bytes, codes, equal, if◌then◌else◌, Bool, true, false, not, ◌&&◌, ◌||◌, Option, none, some, List,
  [], ◌∷◌, map,
}

-- `component`.
pub record Component : Type 0 where
  pub name : Bytes
  pub dir : Bytes
  pub args : List Bytes

pub data Signal : Type 0 where
  sigterm sigkill : Signal

-- A started command: its component, whether its process runs, whether another process of its group
-- does, which holds the pipes of its output, and the signals that the group was sent, the last first.
pub record Process : Type 0 where
  pub component : Component
  pub running : Bool
  pub others : Bool
  pub signals : List Signal

-- What the system does: whether `cmd.Start` succeeds for a component, whether its process starts
-- others in its group, whether the process, and whether the others, end within the grace period after
-- SIGTERM, which event ends the wait, and what the console's migrations give.
pub data Event : Type 0 where
  shutdown_requested : Event
  exited : Bytes → Event

pub record System : Type 0 where
  pub starts : Component → Bool
  pub forks : Component → Bool
  pub ends_on_sigterm : Component → Bool
  pub others_end_on_sigterm : Component → Bool
  pub event : Event
  pub migrations : Bool

pub data RunError : Type 0 where
  migrations_failed : RunError
  no_console : RunError
  start_failed : Bytes → RunError
  component_exited : Bytes → RunError

-- The processes that `runAll` has started, in their order; whether it returns, and with which error. It
-- blocks in `wg.Wait` while a process holds the pipe of an output, since `cmd.Wait` reads that to its end.
pub record Run : Type 0 where
  pub processes : List Process
  pub returns : Bool
  pub error : Option RunError

module _ (system : System) where
  open system use {starts, forks, ends_on_sigterm, others_end_on_sigterm, event, migrations}

  -- `signalProcessGroup`: SIGTERM ends the processes that heed it, SIGKILL ends the whole group.
  unfoldable pub signal_process_group : Signal → Process → Process
  signal_process_group s p = record p {
    running = p.running && live s (ends_on_sigterm p.component);
    others = p.others && live s (others_end_on_sigterm p.component);
    signals = s ∷ p.signals;
  }
    where
      live : Signal → Bool → Bool
      live sigterm ends = not ends
      live sigkill ends = false

  -- The loop of `runAll`: the processes started, and the component whose start failed.
  unfoldable pub start_all : List Component → List Process × Option Component
  start_all [] = ([], none)
  start_all (c ∷ cs) =
      let (ps, failed) = start_all cs in
      if starts c
      then (record { component = c; running = true; others = forks c; signals = [] } ∷ ps, failed)
      else ([], some c)

  abbrev any_running : List Process → Bool
  any_running [] = false
  any_running (p ∷ ps) = p.running || any_running ps

  pub any_others : List Process → Bool
  any_others [] = false
  any_others (p ∷ ps) = p.others || any_others ps

  -- `shutdownAll`: the second signal is sent to all if any of the started processes themselves outlives
  -- the grace period; the others of their groups are not waited for.
  unfoldable pub shutdown_all : List Process → List Process
  unfolding signal_process_group
  shutdown_all ps =
      let terminated = map (signal_process_group sigterm) ps in
      if any_running terminated then map (signal_process_group sigkill) terminated else terminated

  -- The process whose end was the event has ended.
  unfoldable pub mark_exited : Event → List Process → List Process
  mark_exited shutdown_requested ps = ps
  mark_exited (exited name) ps =
      map (λ p. if equal p.component.name name then record p { running = false } else p) ps

  abbrev event_error : Event → Option RunError
  event_error shutdown_requested = none
  event_error (exited name) = some (component_exited name)

  -- `runAll` after the migrations.
  unfoldable pub run_components : List Component → Run
  unfolding start_all shutdown_all mark_exited any_others
  run_components cs =
      let (ps, failed) = start_all cs in
      elim failed [
        | some c ↦ record { processes = ps; returns = true; error = some (start_failed c.name) }
        | none ↦
            let stopped = shutdown_all (mark_exited event ps) in
            record {
              processes = stopped;
              returns = not (any_others stopped);
              error = event_error event;
            }
      ]

  -- `runMigrations`; the loop finds the console's directory, which must not be empty.
  console_dir : Bytes → List Component → Bytes
  console_dir dir [] = dir
  console_dir dir (c ∷ cs) = console_dir (if equal c.name (codes "console") then c.dir else dir) cs

  unfoldable pub run_migrations : List Component → Option RunError
  unfolding console_dir
  run_migrations cs =
      if equal (console_dir [] cs) []
      then some no_console
      else if migrations
      then none
      else some migrations_failed

  -- `runAll`, with the value of CONSOLE_MIGRATE.
  unfoldable pub run_all : Bytes → List Component → Run
  unfolding run_components run_migrations
  run_all migrate cs =
      if equal migrate (codes "true") || equal migrate (codes "1")
      then elim (run_migrations cs) [
        | some e ↦ record { processes = []; returns = true; error = some e }
        | none ↦ run_components cs
      ]
      else run_components cs
