-- ===== src/Engine/Alerts.antt =====
-- automation-engine/alerts.go and datarefresh.go: the listeners of the data refresh, each a channel
-- with room for one value, and the refresh itself.
pub mod Delivery
pub mod Readings
use mechanicaldinosaurs.Base.{
  ◌+◌, Bytes, equal, ◌==◌, if◌then◌else◌, Option, none, some, List, [], ◌∷◌, map,
}
use mechanicaldinosaurs.Engine.Trigger.{Chan, machine_info_refresh_trigger, Trigger, deregister}

-- `listeners` with what the buffer of each channel holds; `make` gives a channel the number `next`.
pub record Alerts {ℓ} (A : Type ℓ) : Type ℓ where
  pub listeners : List (Chan × Option A)
  pub next : Chan

module _ {ℓ} {A : Type ℓ} where
  -- The `select` of `Broadcast` on one channel: a full buffer is passed over.
  unfoldable pub offer : A → Option A → Option A
  offer v none = some v
  offer v (some old) = some old

  unfoldable pub broadcast : A → Alerts A → Alerts A
  unfolding offer
  broadcast v a = record a { listeners = map (λ x. (x.0, offer v x.1)) a.listeners }

  unfoldable pub subscribe : Alerts A → Alerts A × Chan
  subscribe a = (record { listeners = (a.next, none) ∷ a.listeners; next = a.next + 1 }, a.next)

  delete_listener : Chan → List (Chan × Option A) → List (Chan × Option A)
  delete_listener ch [] = []
  delete_listener ch ((c, o) ∷ ls) =
      let rest = delete_listener ch ls in if c == ch then rest else (c, o) ∷ rest

  unfoldable pub unsubscribe : Chan → Alerts A → Alerts A
  unfolding delete_listener
  unsubscribe ch a = record a { listeners = delete_listener ch a.listeners }

  -- What the buffer of a channel holds, or none if the channel is not subscribed.
  unfoldable pub buffer : Chan → List (Chan × Option A) → Option (Option A)
  buffer ch [] = none
  buffer ch ((c, o) ∷ ls) = if c == ch then some o else buffer ch ls

  -- The trigger's goroutine begins: `d.subscription = machineInfoRefreshAlerts.subscribe()`.
  unfoldable pub start_goroutine : Trigger × Alerts A → Trigger × Alerts A
  unfolding subscribe
  start_goroutine (t, a) =
      let (a', ch) = subscribe a in (record t { kind = machine_info_refresh_trigger (some ch) }, a')

  -- `Deregister` of that trigger; to unsubscribe the nil channel deletes nothing.
  unfoldable pub deregister_refresh : Trigger × Alerts A → Trigger × Alerts A
  unfolding unsubscribe
  deregister_refresh (t, a) =
      let (t', ch) = deregister t in (t', elim ch [ none ↦ a | some c ↦ unsubscribe c a ])

-- A machine of the table, and what `server.Call` returned for it: its information, or an error.
pub record Machine : Type 0 where
  pub name : Bytes
  pub hostport : Bytes
  pub secret : Bytes

-- `getMachines`, from the rows of the query; a row that does not scan is left out, and
-- with it those after it, since the error of the scan closes the rows.
pub get_machines : List (Option Machine) → List Machine
get_machines [] = []
get_machines (none ∷ rows) = []
get_machines (some m ∷ rows) = m ∷ get_machines rows

module _ {ℓ} {I : Type ℓ} (call : Machine → Option I) where
  pub put : Bytes → Option I → List (Bytes × Option I) → List (Bytes × Option I)
  unfolding equal
  put k v [] = (k, v) ∷ []
  put k v ((j, w) ∷ m) = if equal j k then (k, v) ∷ m else (j, w) ∷ put k v m

  -- The loop of `performDataRefresh`: the map by the name of the machine, nil where the call failed.
  pub machine_infos : List Machine → List (Bytes × Option I) → List (Bytes × Option I)
  unfolding put
  machine_infos [] infos = infos
  machine_infos (m ∷ ms) infos = machine_infos ms (put m.name (call m) infos)

  -- `performDataRefresh`; none is a query that failed.
  pub perform_data_refresh :
      Option (List (Option Machine))
      → Alerts (List (Bytes × Option I))
      → Alerts (List (Bytes × Option I))
  unfolding get_machines machine_infos broadcast
  perform_data_refresh none a = a
  perform_data_refresh (some rows) a = broadcast (machine_infos (get_machines rows) []) a
