-- ===== src/Engine/Trigger/Loops/Laws.antt =====
-- automation-engine/trigger.go: the callbacks of the goroutines.
use mechanicaldinosaurs.Base.{
  ℕ, ℤ, zero, suc, ◌+◌, if◌then◌else◌, All, ok, is_positive, ◌≡◌, refl, ap, true, false, List, [],
  ◌∷◌, map, arith,
}
use mechanicaldinosaurs.Engine.Trigger.{Time}
use mechanicaldinosaurs.Engine.Trigger.Loops.{
  Wake, time_loop, interval_loop, interval_goroutine, refresh_loop,
}

abbrev pub due_count : List Wake → ℕ
due_count [] = 0
due_count (w ∷ ws) = if w.due then suc (due_count ws) else due_count ws

abbrev pub count_from : ℕ → ℕ → List ℕ
count_from n zero = []
count_from n (suc k) = n ∷ count_from (n + 1) k

abbrev pub IsOpen : List Wake → Type 0
IsOpen = All (λ w. w.closed ≡ false)

-- While its channel is open, an interval trigger with a positive duration calls back once for each
-- tick, with the counts 0, 1, 2 and so on.
interval_goroutine_open :
    (every : ℤ) (ws : List Wake)
    → is_positive every ≡ true
    → IsOpen ws
    → interval_goroutine every ws ≡ ok (count_from 0 (due_count ws))
unfolding interval_goroutine
interval_goroutine_open every ws h o = rw h (ap ok (loop 0 ws o))
  where
    loop : (n : ℕ) (ws : List Wake) → IsOpen ws → interval_loop n ws ≡ count_from n (due_count ws)
    loop n [] o = refl
    loop n (w ∷ ws) (o, os) = ground (arith, loop (n + 1) ws os, loop n ws os)

-- A goroutine that finds its channel closed and nothing due at its first wake.
abbrev pub IsSilent : List Wake → Type 0
IsSilent [] = Unit
IsSilent (w ∷ ws) = (w.due ≡ false) × (w.closed ≡ true)

pub silent :
    (ws : List Wake) → IsSilent ws → ((t : Time) → time_loop t ws ≡ []) × (interval_loop 0 ws ≡ [])
unfolding time_loop interval_loop
silent [] h = ((λ t. refl), refl)
silent (w ∷ ws) (d, c) = ((λ t. ground arith), ground arith)

pub silent_refresh {ℓ} :
    {A : Type ℓ} (ws : List (Wake × A)) → IsSilent (map (λ x. x.0) ws) → refresh_loop ws ≡ []
unfolding refresh_loop
silent_refresh [] h = refl
silent_refresh ((w, info) ∷ ws) (d, c) = ground arith
