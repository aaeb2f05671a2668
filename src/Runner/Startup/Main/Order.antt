-- ===== src/Runner/Startup/Main/Order.antt =====
-- runner.go, `main`: the processes that the runner starts, and those that it leaves.
use mechanicaldinosaurs.Base.{Bytes, List, map}
use mechanicaldinosaurs.Runner.Supervisor.{Component, Process}

names : List Component → List Bytes
names = map (λ c. c.name)

started : List Process → List Bytes
started = map (λ p. p.component.name)
