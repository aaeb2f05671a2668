-- ===== src/Engine/Alerts/Delivery.antt =====
-- What a listener gets, and what is left of one that is deregistered.
use mechanicaldinosaurs.Base.{
  ◌==◌, if◌then◌else◌, ◌≡◌, refl, ap, ◌∙◌, false, Option, none, some, List, [], ◌∷◌, map, arith,
}
use mechanicaldinosaurs.Engine.Trigger.{Chan, machine_info_refresh_trigger, Trigger, deregister}
use mechanicaldinosaurs.Engine.Alerts.{
  Alerts, offer, broadcast, delete_listener, buffer, start_goroutine, deregister_refresh,
}

abbrev map_option {ℓ κ} : {A : Type ℓ} {B : Type κ} → (A → B) → Option A → Option B
map_option f none = none
map_option f (some a) = some (f a)

module _ {ℓ} {A : Type ℓ} where
  buffer-offer :
      (v : A) (ch : Chan) (ls : List (Chan × Option A))
      → buffer ch (map (λ x. (x.0, offer v x.1)) ls) ≡ map_option (offer v) (buffer ch ls)
  unfolding buffer
  buffer-offer v ch [] = refl
  buffer-offer v ch ((c, o) ∷ ls) = ground (arith, buffer-offer v ch ls)

  buffer-delete_listener :
      (ch d : Chan) (ls : List (Chan × Option A))
      → buffer d (delete_listener ch ls) ≡ (if ch == d then none else buffer d ls)
  unfolding buffer delete_listener
  buffer-delete_listener ch d [] = ground arith
  buffer-delete_listener ch d ((c, o) ∷ ls) = ground (arith, buffer-delete_listener ch d ls)

  unfoldable pub broadcast_all : List A → Alerts A → Alerts A
  broadcast_all [] a = a
  broadcast_all (v ∷ vs) a = broadcast_all vs (broadcast v a)

  -- After any broadcasts, with nothing read in between, the buffer of a subscribed channel holds
  -- what it held, or the first of the values if it was empty; a channel that is not subscribed is
  -- still not.
  buffer-broadcast_all :
      (v : A) (vs : List A) (ch : Chan) (a : Alerts A)
      → buffer ch (broadcast_all (v ∷ vs) a).listeners
        ≡ map_option (offer v) (buffer ch a.listeners)
  unfolding broadcast_all broadcast
  buffer-broadcast_all v [] ch a = buffer-offer v ch a.listeners
  buffer-broadcast_all v (w ∷ vs) ch a =
      buffer-broadcast_all w vs ch (broadcast v a)
      ∙ ap (map_option (offer w)) (buffer-offer v ch a.listeners)
      ∙ kept (buffer ch a.listeners)
    where
      kept :
          (o : Option (Option A))
          → map_option (offer w) (map_option (offer v) o) ≡ map_option (offer v) o
      kept none = refl
      kept (some none) = refl
      kept (some (some x)) = refl

  -- For an open refresh trigger that has not subscribed, the order of its goroutine's start and of
  -- `Deregister` matters. If the goroutine starts first, its channel is unsubscribed. If `Deregister`
  -- comes first, the channel that the goroutine then subscribes stays a listener, and to deregister
  -- the trigger again changes nothing.
  pub deregister_before_start :
      (t : Trigger) (a : Alerts A)
      → t.closed ≡ false
      → t.kind ≡ machine_info_refresh_trigger none
      → (buffer a.next (deregister_refresh (start_goroutine (t, a))).1.listeners ≡ none)
        × (buffer a.next (start_goroutine (deregister_refresh (t, a))).1.listeners ≡ some none)
        × (deregister_refresh (start_goroutine (deregister_refresh (t, a)))
            ≡ start_goroutine (deregister_refresh (t, a)))
  unfolding start_goroutine deregister_refresh deregister buffer
  deregister_before_start t a c k =
      (ground (arith, buffer-delete_listener a.next a.next a.listeners), ground arith, ground arith)
