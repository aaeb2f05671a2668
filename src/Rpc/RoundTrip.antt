-- ===== src/Rpc/RoundTrip.antt =====
-- A call that reaches its handler.
use mechanicaldinosaurs.Base.{
  Option-cases, Sum-cases, ◌≡◌, subst, ap, ◌≢◌, ◌⊎◌, inl, inr, some, arith,
}
use mechanicaldinosaurs.Rpc.{
  HandlerError, CallError, remote_error, Codec, error_text, error_status, handle, read_result, call,
}

-- The outcome of a handler is kept by the coding: its result, or the message of its error. A result of
-- the empty struct has one value.
abbrev pub OutcomeKept : {Req Res : Type 0} → Codec Req Res → HandlerError ⊎ Res → Type 0
OutcomeKept codec (inr a) =
    (codec.decode_result (codec.encode_result a) ≡ some a)
    × ((b : _) → codec.empty_result ≡ some b → b ≡ a)
OutcomeKept codec (inl e) =
    codec.decode_errors (codec.encode_error (error_text codec e)) ≡ some (some (error_text codec e))

-- What the coding must keep in one call: what it carries, and its outcome.
pub record IsFaithful {Req Res : Type 0} (codec : Codec Req Res) (r : Req)
    (outcome : HandlerError ⊎ Res) : Type 0 where
  pub request : codec.decode_request (codec.encode_request r) ≡ some r
  pub kept : OutcomeKept codec outcome

module _ {Req Res : Type 0} (codec : Codec Req Res) where
  -- The result of a handler as its caller sees it.
  abbrev pub answer : HandlerError ⊎ Res → CallError ⊎ Res
  answer (inr a) = inr a
  answer (inl e) = inl (remote_error (error_text codec e))

  read_result-decoded :
      (a : Res)
      → ((b : Res) → codec.empty_result ≡ some b → b ≡ a)
      → read_result codec codec.empty_result (some a) ≡ inr a
  unfolding read_result
  read_result-decoded a f = elim (Option-cases codec.empty_result) [
    | inl n ↦ rw n
    | inr (b, n) ↦ rw n (ap inr (f b n))
  ]

  -- A call whose coding keeps it, and whose exchange is the registered function, gives the result of
  -- the handler, and of an error its message, if no error of the handler claims the status 200.
  pub call-handle :
      (handler : Req → HandlerError ⊎ Res) (r : Req)
      → IsFaithful codec r (handler r)
      → ((e : HandlerError) → handler r ≡ inl e → error_status codec e ≢ 200)
      → call codec (λ body. inr (handle codec handler body)) r ≡ answer (handler r)
  unfolding call handle
  call-handle handler r f s = elim (Sum-cases (handler r)) [
    | inr (a, h) ↦
        let (result, empty) = subst (OutcomeKept codec) h f.kept in
        rw (f.request, handle) (rw h (rw result (read_result-decoded a empty)))
    | inl (e, h) ↦
        let message = subst (OutcomeKept codec) h f.kept in
        rw (f.request, handle) (rw h (rw message (ground (arith, s e h))))
  ]
