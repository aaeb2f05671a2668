-- ===== src/Engine/Trigger/Loops.antt =====
-- The goroutines that `Register` starts (automation-engine/trigger.go), each as a loop over what its
-- `select` finds when it wakes.
pub mod Laws
use mechanicaldinosaurs.Base.{
  ℕ, ℤ, ◌+◌, if◌then◌else◌, Outcome, ok, panic, is_positive, Bool, not, ◌&&◌, ◌||◌, List, [], ◌∷◌,
}
use mechanicaldinosaurs.Engine.Trigger.{Time}

-- One wake of a `select`: whether the timer, the ticker or the subscription has something, whether
-- the channel `c` is closed, and which case the runtime picks where both are ready.
pub record Wake : Type 0 where
  pub due : Bool
  pub closed : Bool
  pub picks_due : Bool

abbrev pub fires : Wake → Bool
fires w = w.due && (not w.closed || w.picks_due)

-- The goroutine of a time trigger: the callback's field "time" for each call, of which there is at
-- most one.
unfoldable pub time_loop : Time → List Wake → List ℤ
time_loop t [] = []
time_loop t (w ∷ ws) =
    let rest = time_loop t ws in if fires w then t.sec ∷ [] else if w.closed then [] else rest

-- The loop of an interval trigger: the field "count" of each call of the callback.
unfoldable pub interval_loop : ℕ → List Wake → List ℕ
interval_loop count [] = []
interval_loop count (w ∷ ws) =
    let next = interval_loop (count + 1) ws in
    let rest = interval_loop count ws in
    if fires w then count ∷ next else if w.closed then [] else rest

-- The goroutine of an interval trigger; `time.NewTicker` panics unless the duration is positive.
unfoldable pub interval_goroutine : ℤ → List Wake → Outcome ⊥ (List ℕ)
unfolding interval_loop
interval_goroutine every ws = if is_positive every then ok (interval_loop 0 ws) else panic

-- The goroutine of a refresh trigger, once it has subscribed: the data of each call, from what the
-- subscription holds at each wake.
pub refresh_loop {ℓ} : {A : Type ℓ} → List (Wake × A) → List A
refresh_loop [] = []
refresh_loop ((w, info) ∷ ws) =
    let rest = refresh_loop ws in if fires w then info ∷ rest else if w.closed then [] else rest
