-- ===== src/Engine/Trigger.antt =====
-- automation-engine/trigger.go: the three triggers, their registration, and the loops of the
-- goroutines that call an automation back.

pub mod Loops
use mechanicaldinosaurs.Base.{
  ℕ, ℤ, pos, negsuc, ◌+◌, Bytes, codes, leb, ◌==◌, if◌then◌else◌, Outcome, ok, err, Bool, true,
  false, Option, none,
}

-- A `time.Time` as its seconds since the epoch and the nanoseconds in that second.
pub record Time : Type 0 where
  pub sec : ℤ
  pub nsec : ℕ

abbrev le_int : ℤ → ℤ → Bool
le_int (pos a) (pos b) = leb a b
le_int (pos a) (negsuc b) = false
le_int (negsuc a) (pos b) = true
le_int (negsuc a) (negsuc b) = leb b a

abbrev eq_int : ℤ → ℤ → Bool
eq_int (pos a) (pos b) = a == b
eq_int (negsuc a) (negsuc b) = a == b
eq_int _ _ = false

-- `time.Until(t) <= 0` at the time `now`.
unfoldable pub is_past : Time → Time → Bool
is_past now t = if eq_int t.sec now.sec then leb t.nsec now.nsec else le_int t.sec now.sec

-- A channel made by `subscribe`, by its number.
abbrev pub Chan : Type 0
Chan = ℕ

-- The triggers by their own fields; a duration is in nanoseconds. The subscription of the third is
-- none until its goroutine has subscribed.
pub data Kind : Type 0 where
  time_trigger : Time → Kind
  interval_trigger : ℤ → Kind
  machine_info_refresh_trigger : Option Chan → Kind

-- `closed` tells whether `c` has been closed, which `closeOnce` does once; `started` counts the
-- goroutines that `Register` has started.
pub record Trigger : Type 0 where
  pub kind : Kind
  pub closed : Bool
  pub started : ℕ

abbrev pub new_trigger : Kind → Trigger
new_trigger k = record { kind = k; closed = false; started = 0 }

-- `NewTimeTrigger`, `NewIntervalTrigger` and `NewMachineInfoRefreshTrigger`.
unfoldable pub new_time_trigger : Time → Trigger
new_time_trigger t = new_trigger (time_trigger t)

unfoldable pub new_interval_trigger : ℤ → Trigger
new_interval_trigger d = new_trigger (interval_trigger d)

unfoldable pub new_machine_info_refresh_trigger : Trigger
new_machine_info_refresh_trigger = new_trigger (machine_info_refresh_trigger none)

-- The three methods `Type`.
unfoldable pub trigger_type : Kind → Bytes
trigger_type (time_trigger t) = codes "time"
trigger_type (interval_trigger d) = codes "interval"
trigger_type (machine_info_refresh_trigger s) = codes "machines info refresh"

pub data RegisterError : Type 0 where
  time_in_the_past : Time → RegisterError

-- The three methods `Register`: a goroutine is started, unless the time has passed; that of an
-- interval is in Loops, where one that is not positive panics.
unfoldable pub register : Time → Trigger → Outcome RegisterError Trigger
unfolding is_past
register now t = elim t.kind [
  | time_trigger at ↦
      if is_past now at
      then err (time_in_the_past at)
      else ok (record t { started = t.started + 1 })
  | _ ↦ ok (record t { started = t.started + 1 })
]

-- The three methods `Deregister`: the channel is closed the first time; the channel to unsubscribe,
-- if there is one, comes with the new state.
unfoldable pub deregister : Trigger → Trigger × Option Chan
deregister t = if t.closed then (t, none) else (record t { closed = true }, subscription t.kind)
  where
    subscription : Kind → Option Chan
    subscription (machine_info_refresh_trigger s) = s
    subscription _ = none
