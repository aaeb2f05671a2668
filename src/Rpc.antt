-- ===== src/Rpc.antt =====
-- server/server.go: `Handle`, which wraps each operation of a daemon, and `Call`, which calls it.
-- JSON and the HTTP client are parameters.
pub mod Info
pub mod RoundTrip
use mechanicaldinosaurs.Base.{
  ℕ, Bytes, codes, ◌==◌, if◌then◌else◌, ◌⊎◌, inl, inr, not, Option, none, some,
}

-- The errors that a handler may return: the package's own `ErrorResponse`, echo's `HTTPError`, and
-- any other error, each with its message.
pub data HandlerError : Type 0 where
  error_response : ℕ → Bytes → HandlerError
  http_error : ℕ → Bytes → HandlerError
  plain_error : Bytes → HandlerError

pub record Response : Type 0 where
  pub status : ℕ
  pub body : Bytes

-- The errors of `Call`.
pub data CallError : Type 0 where
  request_failed : Bytes → CallError
  invalid_error_response : ℕ → CallError
  no_error_message : ℕ → CallError
  remote_error : Bytes → CallError
  invalid_result : CallError

-- The JSON of the requests and of the results, where `decode` gives none for a body that it refuses;
-- the object {"error": message}, and the field "error" of an object of strings, if it has one;
-- `Error()` of an `HTTPError`; and the zero result if the result type is the empty struct.
pub record Codec (Req Res : Type 0) : Type 0 where
  pub encode_request : Req → Bytes
  pub decode_request : Bytes → Option Req
  pub encode_result : Res → Bytes
  pub decode_result : Bytes → Option Res
  pub encode_error : Bytes → Bytes
  pub decode_errors : Bytes → Option (Option Bytes)
  pub http_error_text : ℕ → Bytes → Bytes
  pub empty_result : Option Res

module _ {Req Res : Type 0} (codec : Codec Req Res) where
  open codec use {
    encode_request, decode_request, encode_result, decode_result, encode_error, decode_errors,
    http_error_text, empty_result,
  }

  -- `err.Error()`.
  unfoldable pub error_text : HandlerError → Bytes
  error_text (error_response status message) = message
  error_text (http_error status message) = http_error_text status message
  error_text (plain_error message) = message

  -- The status that `Handle` sends for an error: only an `ErrorResponse` has its own.
  unfoldable pub error_status : HandlerError → ℕ
  error_status (error_response status message) = status
  error_status _ = 500

  -- The function that `Handle` registers, on the body of a request.
  unfoldable pub handle : (Req → HandlerError ⊎ Res) → Bytes → Response
  unfolding error_text error_status
  handle handler body = elim (decode_request body) [
    | none ↦ record { status = 400; body = encode_error (codes "invalid request body") }
    | some r ↦ elim (handler r) [
      | inr a ↦ record { status = 200; body = encode_result a }
      | inl e ↦ record { status = error_status e; body = encode_error (error_text e) }
    ]
  ]

  -- The last part of `Call`: a result of the empty struct is not decoded.
  read_result : Option Res → Option Res → CallError ⊎ Res
  read_result (some a) decoded = inr a
  read_result none (some a) = inr a
  read_result none none = inl invalid_result

  read_error : ℕ → Option (Option Bytes) → CallError
  read_error status none = invalid_error_response status
  read_error status (some none) = no_error_message status
  read_error status (some (some message)) = remote_error message

  -- `Call`, over the exchange of the request's body for a response, or an error of the client.
  unfoldable pub call : (Bytes → Bytes ⊎ Response) → Req → CallError ⊎ Res
  unfolding read_result read_error
  call exchange r = elim (exchange (encode_request r)) [
    | inl e ↦ inl (request_failed e)
    | inr response ↦
        if not (response.status == 200)
        then inl (read_error response.status (decode_errors response.body))
        else read_result empty_result (decode_result response.body)
  ]
