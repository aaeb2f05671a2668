-- ===== src/Engine/Refresh/Answers.antt =====
-- automation-engine/datarefresh.go: what the engine reads of the daemons, and finds when it looks a field
-- of them up.
use mechanicaldinosaurs.Base.{
  Bytes, codes, Option-cases, equal, if◌then◌else◌, join, Lacks, Bool-cases, ◌≡◌, refl, sym, subst,
  ap, ◌∙◌, ◌⊎◌, inl, inr, Bool, true, false, Option, none, some, List, [], ◌∷◌, ◌++◌,
}
use mathlib.Core.Path.{fun_ext}
use mechanicaldinosaurs.Base.Header.{header_value}
use mechanicaldinosaurs.Rpc.{Response, call, handle}
use mechanicaldinosaurs.Rpc.Info.{Info}
use mechanicaldinosaurs.Rpc.RoundTrip.{IsFaithful, answer, call-handle}
use mechanicaldinosaurs.Daemon.Auth.{no_authorization, daemon_locked, middleware}
use mechanicaldinosaurs.Daemon.Api.{
  ApiRequest, get_info, ApiCodecs, serve_http, serve_api, sent, deliver,
}
use mechanicaldinosaurs.Daemon.Api.Calls.{
  FindsRegistered, find_route-registered, client_request, Is500-status,
}
use mechanicaldinosaurs.Daemon.Routes.{plain, handle_with}
use mechanicaldinosaurs.Daemon.Routes.Statuses.{plain-Is500}
use mechanicaldinosaurs.Engine.Context.{get}
use mechanicaldinosaurs.Engine.Alerts.{Machine, machine_infos}
use mechanicaldinosaurs.Engine.Alerts.Readings.{
  refresh_context, last_answer, reading, get-refresh_context,
}
use mechanicaldinosaurs.Engine.Refresh.{
  Node, answer_of, ask_node, ask_daemon, call_machine, ask_node-locked, ask_node-unsent,
  ask_node-empty, ask_node-stale,
}

module _ {S F : Type 0} (codecs : ApiCodecs F) (router : Bytes → Bytes → Option ApiRequest)
    (not_found : Response) (node : Machine → Option (Node S F)) where
  -- What a daemon answers to a secret: it says what it reads if it is not locked and the authorization
  -- arrives as its own.
  abbrev pub expected_of : Node S F → Bytes → Option (Info F)
  expected_of n secret =
      if n.auth.locked then none else elim (header_value (codes "Bearer " ++ secret)) [
        | none ↦ none
        | some h ↦
            if equal h []
            then none
            else if equal (codes "Bearer " ++ n.auth.secret) h
            then answer_of (n.host.server_info n.state).1
            else none
      ]

  -- What a machine answers, if its daemon can be reached.
  abbrev pub expected_answer : Machine → Option (Info F)
  expected_answer m = elim (node m) [ none ↦ none | some n ↦ expected_of n m.secret ]

  -- The coding keeps what the daemons say.
  abbrev pub InfoKept : Type 0
  InfoKept =
      (m : Machine) (n : Node S F)
      → node m ≡ some n
      → IsFaithful codecs.info tt (plain (n.host.server_info n.state)).1

  -- The call where every body gets one response of the status 401 or 423, or none.
  called_refused :
      (exchange : Bytes → Bytes ⊎ Response) (x : Bytes ⊎ Response)
      → ((body : Bytes) → exchange body ≡ x)
      → answer_of (call codecs.info (λ body. x) tt) ≡ none
      → answer_of (call codecs.info exchange tt) ≡ none
  called_refused exchange x h r =
      subst (λ e. answer_of (call codecs.info e tt) ≡ none) (sym (fun_ext h)) r

  plain-answer :
      (x : S × (Bytes ⊎ Info F)) → answer_of (answer codecs.info (plain x).1) ≡ answer_of x.1
  plain-answer (s, inl message) = refl
  plain-answer (s, inr i) = refl

  module _ (finds : FindsRegistered router) where
    ask_node-handled :
        (n : Node S F) (secret h body : Bytes)
        → n.auth.locked ≡ false
        → header_value (codes "Bearer " ++ secret) ≡ some h
        → equal h [] ≡ false
        → equal (codes "Bearer " ++ n.auth.secret) h ≡ true
        → (ask_node codecs router not_found node n secret body).2
          ≡ inr (handle codecs.info (λ q. (plain (n.host.server_info n.state)).1) body)
    unfolding ask_node client_request deliver sent serve_http middleware serve_api handle_with
    ask_node-handled n secret h body l e f g =
        rw (client_request, e)
          (rw (l, f, g) (rw (finds _ _ get_info (find_route-registered get_info)) refl))

    called_admitted :
        (n : Node S F) (secret h : Bytes)
        → IsFaithful codecs.info tt (plain (n.host.server_info n.state)).1
        → n.auth.locked ≡ false
        → header_value (codes "Bearer " ++ secret) ≡ some h
        → equal h [] ≡ false
        → equal (codes "Bearer " ++ n.auth.secret) h ≡ true
        → answer_of
            (call codecs.info (λ body. (ask_node codecs router not_found node n secret body).2) tt)
          ≡ answer_of (n.host.server_info n.state).1
    called_admitted n secret h k l e f g =
        let x = plain (n.host.server_info n.state) in
        ap (λ exchange. answer_of (call codecs.info exchange tt))
          (fun_ext (λ body. ask_node-handled n secret h body l e f g))
        ∙ ap answer_of (
            call-handle codecs.info (λ q. x.1) tt k
              (λ e. Is500-status codecs.info x e (plain-Is500 (n.host.server_info n.state))))
        ∙ plain-answer (n.host.server_info n.state)

    module _ (n : Node S F) (secret : Bytes)
        (k : IsFaithful codecs.info tt (plain (n.host.server_info n.state)).1) where
      IsUnread : (x : Bytes ⊎ Response) → Type 0
      IsUnread x =
          ((body : Bytes) → (ask_node codecs router not_found node n secret body).2 ≡ x)
          → answer_of (
              call codecs.info (λ body. (ask_node codecs router not_found node n secret body).2) tt)
            ≡ none

      unsent : (message : Bytes) → IsUnread (inl message)
      unfolding IsUnread call
      unsent message h = called_refused _ (inl message) h refl

      locked_out : IsUnread (inr (sent daemon_locked))
      unfolding IsUnread call sent
      locked_out h = called_refused _ (inr (sent daemon_locked)) h refl

      without_authorization : IsUnread (inr (sent no_authorization))
      unfolding IsUnread call sent
      without_authorization h = called_refused _ (inr (sent no_authorization)) h refl

      none_both : (b : Bool) → ◌≡◌ {A = Option (Info F)} (if b then none else none) none
      none_both true = refl
      none_both false = refl

      asked-expected :
          answer_of
            (call codecs.info (λ body. (ask_node codecs router not_found node n secret body).2) tt)
          ≡ expected_of n secret
      unfolding IsUnread
      asked-expected = elim (Option-cases (header_value (codes "Bearer " ++ secret))) [
        | inl e ↦
            let want : expected_of n secret ≡ none = rw e (none_both n.auth.locked) in
            unsent (codes "invalid header field value")
              (λ body. ask_node-unsent codecs router not_found node n secret body e)
            ∙ sym want
        | inr (h, e) ↦ elim (Bool-cases n.auth.locked) [
          | inl l ↦
              let want : expected_of n secret ≡ none = rw l refl in
              locked_out (λ body. ask_node-locked codecs router not_found node n secret h body l e)
              ∙ sym want
          | inr l ↦ elim (Bool-cases (equal h [])) [
            | inl f ↦
                let want : expected_of n secret ≡ none = rw (l, e, f) refl in
                without_authorization
                  (λ body. ask_node-empty codecs router not_found node n secret h body l e f)
                ∙ sym want
            | inr f ↦ elim (Bool-cases (equal (codes "Bearer " ++ n.auth.secret) h)) [
              | inl g ↦
                  let want : expected_of n secret ≡ answer_of (n.host.server_info n.state).1 =
                    rw (l, e, f, g) refl in
                  called_admitted n secret h k l e f g ∙ sym want
              | inr g ↦
                  let want : expected_of n secret ≡ none = rw (l, e, f, g) refl in
                  locked_out (λ body.
                    (ask_node-stale codecs router not_found node n secret h body l e f g).0)
                  ∙ sym want
            ]
          ]
        ]
      ]

    call_machine-expected :
        (m : Machine) → InfoKept → call_machine codecs router not_found node m ≡ expected_answer m
    unfolding call_machine
    call_machine-expected m k = elim (Option-cases (node m)) [
      | inl e ↦
          let want : expected_answer m ≡ none = rw (expected_answer, e) refl in
          rw (call_machine, ask_daemon, e) (unfold call in refl) ∙ sym want
      | inr (n, e) ↦
          let want : expected_answer m ≡ expected_of n m.secret = rw (expected_answer, e) refl in
          rw (call_machine, ask_daemon, e) (asked-expected n m.secret (k m n e)) ∙ sym want
    ]

  -- From the daemons to what a condition compares: after a refresh, the lookup of a field of a machine
  -- gives what the daemon of the last machine of that name has read, if that daemon is reached, is not
  -- locked, and is sent its secret; and finds nothing for any other machine, where the daemon could
  -- not read, and for a field that daemons do not report; if the name and the field hold no dot, the
  -- coding keeps what the daemons say, and echo's router finds what is registered.
  pub get-refreshed :
      (ms : List Machine) (name field : Bytes)
      → FindsRegistered router
      → InfoKept
      → Lacks b'.' name
      → Lacks b'.' field
      → get
          (refresh_context (machine_infos (call_machine codecs router not_found node) ms []))
          (join (codes "machines_info" ∷ name ∷ field ∷ []) (codes "."))
        ≡ reading (last_answer expected_answer ms name) field
  get-refreshed ms name field finds f n d =
      get-refresh_context (call_machine codecs router not_found node) ms name field n d
      ∙ ap (λ answers. reading (last_answer answers ms name) field)
          (fun_ext (λ m. call_machine-expected finds m f))
