-- ===== src/Engine/Refresh.antt =====
-- automation-engine/datarefresh.go against the daemons that it calls: the engine, server/server.go and
-- the daemon's middleware and handler together.
pub mod Answers
use mechanicaldinosaurs.Base.{
  ℕ, Bytes, codes, equal, ◌≡◌, refl, ◌∙◌, ◌⊎◌, inl, inr, true, false, Option, none, some, List, [],
  ◌∷◌, ◌++◌,
}
use mechanicaldinosaurs.Base.Header.{header_value}
use mechanicaldinosaurs.Rpc.{Response, call}
use mechanicaldinosaurs.Rpc.Info.{Info}
use mechanicaldinosaurs.Daemon.Auth.{
  Auth, Caller, Request, no_authorization, daemon_locked, middleware, serve, serve_locked,
  refuse_all,
}
use mechanicaldinosaurs.Daemon.Api.{
  ApiRequest, get_info, Host, ApiCodecs, serve_http, sent, deliver,
}
use mechanicaldinosaurs.Daemon.Api.Calls.{client_request}
use mechanicaldinosaurs.Engine.Alerts.{Machine}

-- The daemon of a machine when it is called: what it reads, its authorization, its state, and how it
-- sees the engine.
pub record Node (S F : Type 0) : Type 0 where
  pub host : Host S F
  pub auth : Auth
  pub state : S
  pub engine : Caller

-- The outcome of a call as the engine keeps it.
abbrev pub answer_of {ℓ κ} : {E : Type ℓ} {A : Type κ} → E ⊎ A → Option A
answer_of (inl e) = none
answer_of (inr a) = some a

module _ {S F : Type 0} (codecs : ApiCodecs F) (router : Bytes → Bytes → Option ApiRequest)
    (not_found : Response) (node : Machine → Option (Node S F)) where
  -- What a daemon makes of the request of the engine, with the secret of the table.
  unfoldable pub ask_node : Node S F → Bytes → Bytes → Auth × S × (Bytes ⊎ Response)
  ask_node n secret body =
      deliver (λ q. serve_http n.host codecs router not_found q n.auth n.state)
        (client_request get_info n.engine secret body) n.auth n.state

  -- The exchange with a machine: its daemon can be reached or not.
  unfoldable pub ask_daemon : Machine → Bytes → Bytes ⊎ Response
  unfolding ask_node
  ask_daemon m body = elim (node m) [
    | none ↦ inl (codes "connection refused")
    | some n ↦ (ask_node n m.secret body).2
  ]

  -- The call in the loop of `performDataRefresh`.
  unfoldable pub call_machine : Machine → Option (Info F)
  unfolding ask_daemon
  call_machine m = answer_of (call codecs.info (ask_daemon m) tt)

  pub ask_node-locked :
      (n : Node S F) (secret h body : Bytes)
      → n.auth.locked ≡ true
      → header_value (codes "Bearer " ++ secret) ≡ some h
      → (ask_node n secret body).2 ≡ inr (sent daemon_locked)
  unfolding ask_node client_request deliver serve_http middleware
  ask_node-locked n secret h body l e = rw (client_request, e) (rw l refl)

  pub ask_node-unsent :
      (n : Node S F) (secret body : Bytes)
      → header_value (codes "Bearer " ++ secret) ≡ none
      → (ask_node n secret body).2 ≡ inl (codes "invalid header field value")
  unfolding ask_node client_request deliver
  ask_node-unsent n secret body e = rw (client_request, e) refl

  pub ask_node-empty :
      (n : Node S F) (secret h body : Bytes)
      → n.auth.locked ≡ false
      → header_value (codes "Bearer " ++ secret) ≡ some h
      → equal h [] ≡ true
      → (ask_node n secret body).2 ≡ inr (sent no_authorization)
  unfolding ask_node client_request deliver serve_http middleware
  ask_node-empty n secret h body l e f = rw (client_request, e) (rw (l, f) refl)

  -- A wrong authorization is refused, locks the daemon, and leaves its host as it was.
  pub ask_node-stale :
      (n : Node S F) (secret h body : Bytes)
      → n.auth.locked ≡ false
      → header_value (codes "Bearer " ++ secret) ≡ some h
      → equal h [] ≡ false
      → equal (codes "Bearer " ++ n.auth.secret) h ≡ false
      → ((ask_node n secret body).2 ≡ inr (sent daemon_locked))
        × ((ask_node n secret body).0.locked ≡ true)
        × ((ask_node n secret body).1 ≡ n.state)
  unfolding ask_node client_request deliver serve_http middleware
  ask_node-stale n secret h body l e f g = rw (client_request, e) (rw (l, f, g) (refl, refl, refl))

  -- A refresh reaches a daemon that was not locked, with an authorization that is not its own when it
  -- arrives, for a secret that has changed: the daemon is locked. It refuses this request and every
  -- later one, whoever makes it and with whatever authorization, and its host stays as it was.
  pub refresh-locks :
      (n : Node S F) (secret : Bytes) (c : ℕ) (h body : Bytes) (later : List (Request S Response))
      → n.auth.locked ≡ false
      → header_value (codes "Bearer " ++ secret) ≡ some (c ∷ h)
      → equal (codes "Bearer " ++ n.auth.secret) (c ∷ h) ≡ false
      → ((ask_node n secret body).2 ≡ inr (sent daemon_locked))
        × ((serve later (ask_node n secret body).0 (ask_node n secret body).1).2 ≡ refuse_all later)
        × ((serve later (ask_node n secret body).0 (ask_node n secret body).1).1 ≡ n.state)
  refresh-locks n secret c h body later l e g =
      let (refused, locked, kept) =
        ask_node-stale n secret (c ∷ h) body l e (unfold equal in refl) g in
      let (unchanged, replies, logged) =
        serve_locked later (ask_node n secret body).0 (ask_node n secret body).1 locked in
      (refused, replies, unchanged ∙ kept)
