-- ===== src/Lib.antt =====
-- Mechanical dinosaurs: the Go programs that watch and drive a set of machines.
--
-- The program has these parts. The daemon (daemon/) runs on each machine and answers calls about its
-- ports, services and virtual machines. The automation engine (automation-engine/) keeps automations
-- in a table, asks the daemons for their data, and does the action of an automation when its trigger
-- fires and its condition is met. Both speak through the calls of server/server.go. The runner
-- (runner.go) starts the console, the engine and the proxy as processes, with one environment, and
-- prints their output. The proxy (proxy/) forwards a client that has a session to a daemon.
--
-- The files and what they model:
-- - Base: texts as lists of bytes with the functions of Go's strings package that the code uses,
--   lists, results with a panic, integers. White space is that of ASCII. Base/FilePath: Go's
--   path/filepath on a Unix system. Base/Header: what net/http makes of the value of a header.
-- - Engine/Context: automation-engine/context.go, `Context.Get`. The values of JSON are `Value`, a
--   map is `Entries`. `Platform` is a parameter: float64, its conversions, fmt.Sprint and regexp.
-- - Engine/Condition: condition.go, `Condition.Evaluate`, with Condition/Meaning for its table.
-- - Engine/Trigger: trigger.go. `Trigger` is the trigger with its channel; Trigger/Loops are the
--   goroutines, each over the list of its wakes, where a select with two ready cases picks either.
-- - Engine/Action: action.go, `Do` and `renderTemplate`. `Transport` stands for Resend and Slack. A
--   template is taken apart in Engine/Action/Templates.
-- - Engine/Automation: automation.go, `OnTriggered`, `Enable`, `Disable`, `ToCommunicable`,
--   `ToAutomation`. The readings of the clock are arguments.
-- - Engine/Server: server.go of the engine and the table of main.go. `State` holds the slice of
--   automations and the rows by their ids; `handle` is the handler of a request, `Guard.serve` the
--   middleware round it, `fire` a trigger that fires. `Env.works` says whether a statement on the
--   database has its effect.
-- - Engine/Run: the requests, the triggers that fire and the deferred saves of their callbacks, in
--   any order; Engine/Run/Restart is what a start makes of the table that they leave. A request to
--   add an automation has a body, and the intervals are positive: with an empty body echo's Bind
--   leaves the zero automation, whose missing trigger panics in the save, and time.NewTicker panics
--   on an interval that is not positive.
-- - Engine/Startup: main.go, `loadSave`. Engine/Main: its `main`, and the loop of the ticker in
--   server.go. Engine/Alerts: alerts.go and datarefresh.go. Engine/Alerts/Readings: the context that
--   trigger.go makes of the answers of the daemons, and Engine/Refresh the calls of the daemons for
--   it, each of which can be reached or not.
-- - Runner/PrefixWriter, Runner/Env, Runner/Supervisor: runner.go, `prefixWriter`, the environment
--   file with `mergeEnv` and `lookupEnv`, and `runAll` with `shutdownAll`. `System` says which
--   processes start, which leave others in their group, which of both heed SIGTERM, and which event
--   ends the wait; `Run` says whether `runAll` returns.
-- - Runner/Startup: `buildComponents` and `consoleCommand` with the Python program it writes, where
--   `Library` stands for `os.Stat`, `strings.ToLower`, `time.ParseDuration` and what "%q" does with
--   a text that is not ASCII; Runner/Startup/Literals reads the literals of the program as Python
--   does. Runner/Startup/Main: `main`, which has a `System` for each grace period, `loadRunnerEnv`
--   and the subcommand for the migrations.
-- - Rpc: server/server.go, `Handle` and `Call`. `Codec` stands for JSON, and the HTTP client is the
--   exchange of a request's body for a response. Rpc/Info: `Info` and its map.
-- - Daemon/Api: the table of the requests in server/server.go, and daemon/server.go as a server of
--   them; Daemon/Api/Calls puts `Call` against it. Echo's router is a parameter.
-- - Daemon/Auth: daemon/auth.go, `Middleware` and `writeLog`. Daemon/Ports: daemon/server.go, the
--   handler of the ports. Daemon/Services: daemon/services.go; a call gives the list of its effects,
--   and `Host` says how each turns out. Daemon/Info: daemon/info.go, over the files it reads and the
--   answers of gopsutil.
-- - Daemon/Routes: daemon/server.go, the middleware and the handlers of `registerVMRoutes`, over the
--   interface `VmOperations`; Daemon/Routes/Invariants is for any property that these operations
--   keep, and Daemon/Routes/Operations fills the interface with those of daemon/vms.
--   Daemon/Routes/Display adds the route of a display. Daemon/Iso: the download of a boot image;
--   Daemon/Iso/Copying is its goroutine, where a schedule is the number of its steps before and
--   after the handler returns. Daemon/Tunnels: `registerTunnelRoutes`.
-- - Daemon/Shell: daemon/shell.go, `handleTerminal`: the loop over the messages and the goroutine
--   that copies the output, over a list of what they read in the order of time, with how much of a
--   message the pseudo-terminal takes, and the end of the shell.
-- - Daemon/Vms/Config and Daemon/Vms/Create: daemon/vms/create.go, `validateConfig` and `CreateVM`.
--   `Calls` says how qemu-img, libvirt and the file system answer, `VmHost` is what belongs to the
--   name of the machine; Daemon/Vms/Create/Disks has its paths, and Daemon/Vms/Template the text of
--   `buildDomainXML`. Daemon/Vms/Lifecycle: daemon/vms/lifecycleops.go, where `Libvirt` stands for
--   the libvirt client and `World` counts the connections that are open and the domains that are
--   held: the code frees no domain, and libvirt keeps a connection open while one of its domains is
--   held. Daemon/Vms/Xml and Daemon/Vms/Queries: daemon/vms/xml.go and vms.go, from the description
--   that encoding/xml reads on; `QemuImg` stands for qemu-img there; Daemon/Vms/Queries/Display is
--   `ProxyVM`, and Daemon/Vms/Platform is `Available`.
-- - Proxy: proxy/proxy.go. `Step` is one step of a call of `handleConnection` or `handleDisconnect`,
--   where a statement on the database and a section under the lock are one step each; the calls of
--   `handleConnection` are numbered. `read_disconnect` is what `handleDisconnect` reads.
--   Proxy/Forward: the first request, from the session to what is written to the daemon; `Url` has
--   the fields of net/url that `Request.Write` reads, and its escapes are a parameter. Proxy/Start:
--   what `main` does before it accepts connections.
-- - Tests: runs at concrete inputs, and instances of the theorems there.
--
-- Bounds and fuel: `write_loop` has the length of its text as fuel, which is enough since each round
-- takes at least the newline off; `decimal` has the number and one, more than it has digits; and
-- `read_string` the length of the text and one, where each round takes a character. A product of
-- durations wraps around at 64 bits (`scale64`), the memory of a virtual machine in KiB is a uint64,
-- and the numbers of a description are uint, with their wrap-around. All other recursion is
-- structural.
--
-- Not modelled: the console (Python); the bytes that are copied between a client and a display or a
-- daemon. The handlers of a server are run one after the other; the callbacks of the engine's
-- triggers come between them in two steps, and the goroutines of the proxy, and that of a download
-- and its handler, interleave.
pub mod Base
pub mod Engine
pub mod Runner
pub mod Rpc
pub mod Daemon
pub mod Proxy
mod Tests
