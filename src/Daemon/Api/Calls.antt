-- ===== src/Daemon/Api/Calls.antt =====
-- server/server.go, `Call`, against a daemon: what is called is what answers.
use mechanicaldinosaurs.Base.{
  Bytes, codes, equal_iff, Sum-cases, ◌≡◌, refl, ap, ◌∙◌, ◌≢◌, ◌⊎◌, inl, inr, true, false, Option,
  none, some, List, [], ◌++◌, arith,
}
use mathlib.Core.Path.{fun_ext}
use mechanicaldinosaurs.Base.Header.{header_value, ArrivesWhole}
use mechanicaldinosaurs.Rpc.{
  HandlerError, error_response, http_error, plain_error, Response, Codec, error_status, handle,
  call,
}
use mechanicaldinosaurs.Rpc.RoundTrip.{IsFaithful, answer, call-handle}
use mechanicaldinosaurs.Daemon.Auth.{Auth, Caller, middleware}
use mechanicaldinosaurs.Daemon.Ports.{Connection, ports_services}
use mechanicaldinosaurs.Daemon.Tunnels.{tunnel_entries}
use mechanicaldinosaurs.Daemon.Routes.{
  VmRoute, vm_available, list_vms, boot_files, create_vm, get_vm, start_vm, stop_vm, restart_vm,
  update_vm, delete_vm, download_iso, VmRequest, plain, handle_with, available_handler,
  list_handler, files_handler, create_handler, get_handler, start_handler, stop_handler,
  restart_handler, update_handler, delete_handler, iso_handler, vm_route, serve_vm,
}
use mechanicaldinosaurs.Daemon.Routes.Statuses.{
  Is500, plain-Is500, checked-Is500, files_handler-Is500, create_handler-Is500, get_handler-Is500,
}
use mechanicaldinosaurs.Daemon.Api.{
  ApiRequest, vm, get_info, get_ports_services, get_tunnel_token, RequestType, ResultType,
  request_info, registered, find_route, Host, ApiCodecs, HttpRequest, info_handler, ports_handler,
  tunnels_handler, serve_api, serve_http, sent, deliver,
}

-- No two of the requests have one method and one path.
pub find_route-registered :
    (r : ApiRequest) → find_route (request_info r).method (request_info r).path registered ≡ some r
unfolding find_route registered
find_route-registered (vm vm_available) = refl
find_route-registered (vm list_vms) = refl
find_route-registered (vm boot_files) = refl
find_route-registered (vm create_vm) = refl
find_route-registered (vm get_vm) = refl
find_route-registered (vm start_vm) = refl
find_route-registered (vm stop_vm) = refl
find_route-registered (vm restart_vm) = refl
find_route-registered (vm update_vm) = refl
find_route-registered (vm delete_vm) = refl
find_route-registered (vm download_iso) = refl
find_route-registered get_info = refl
find_route-registered get_ports_services = refl
find_route-registered get_tunnel_token = refl

-- What the code relies on of echo's router: what is registered under a method and a path without
-- parameters is found under them.
abbrev pub FindsRegistered : (Bytes → Bytes → Option ApiRequest) → Type 0
FindsRegistered router =
    (method path : Bytes) (r : ApiRequest)
    → find_route method path registered ≡ some r
    → router method path ≡ some r

-- The request of `Call` as it arrives, or none if net/http does not send it.
unfoldable pub client_request : ApiRequest → Caller → Bytes → Bytes → Option HttpRequest
unfolding request_info
client_request r caller secret body = elim (header_value (codes "Bearer " ++ secret)) [
  | none ↦ none
  | some authorization ↦ some (record {
    caller = caller;
    method = (request_info r).method;
    path = (request_info r).path;
    query = λ key. [];
    authorization = authorization;
    body = body;
  })
]

module _ {S F : Type 0} (host : Host S F) (codecs : ApiCodecs F) where
  -- The coding of a request.
  abbrev pub api_codec : (r : ApiRequest) → Codec (RequestType r) (ResultType F r)
  api_codec (vm vm_available) = codecs.vms.nothing
  api_codec (vm list_vms) = codecs.vms.machines
  api_codec (vm boot_files) = codecs.vms.files
  api_codec (vm create_vm) = codecs.vms.config
  api_codec (vm get_vm) = codecs.vms.machine
  api_codec (vm start_vm) = codecs.vms.target
  api_codec (vm stop_vm) = codecs.vms.target
  api_codec (vm restart_vm) = codecs.vms.target
  api_codec (vm update_vm) = codecs.vms.update
  api_codec (vm delete_vm) = codecs.vms.target
  api_codec (vm download_iso) = codecs.vms.iso
  api_codec get_info = codecs.info
  api_codec get_ports_services = codecs.ports
  api_codec get_tunnel_token = codecs.tunnels

  -- A request for a virtual machine with no query and this body.
  abbrev bare : VmRoute → Bytes → VmRequest
  bare route body = record { route = route; query = λ key. []; body = body }

  -- What a request calls.
  unfoldable pub api_handler :
      (r : ApiRequest) → RequestType r → S → S × (HandlerError ⊎ ResultType F r)
  unfolding files_handler get_handler stop_handler restart_handler info_handler ports_handler
      tunnels_handler
  api_handler (vm vm_available) = available_handler host.operations codecs.vms
  api_handler (vm list_vms) = list_handler host.operations codecs.vms
  api_handler (vm boot_files) = files_handler host.operations codecs.vms
  api_handler (vm create_vm) = create_handler host.operations codecs.vms
  api_handler (vm get_vm) = get_handler host.operations codecs.vms (bare get_vm [])
  api_handler (vm start_vm) = start_handler host.operations codecs.vms
  api_handler (vm stop_vm) = stop_handler host.operations codecs.vms (bare stop_vm [])
  api_handler (vm restart_vm) = restart_handler host.operations codecs.vms (bare restart_vm [])
  api_handler (vm update_vm) = update_handler host.operations codecs.vms
  api_handler (vm delete_vm) = delete_handler host.operations codecs.vms
  api_handler (vm download_iso) = iso_handler host.operations codecs.vms
  api_handler get_info = info_handler host codecs
  api_handler get_ports_services = ports_handler host codecs
  api_handler get_tunnel_token = tunnels_handler host codecs

  -- A route of the virtual machines needs a host that can run them.
  abbrev pub IsServed : ApiRequest → Type 0
  IsServed (vm route) = host.available ≡ true
  IsServed _ = Unit

  serve_api-handler :
      (r : ApiRequest) (body : Bytes) (s : S)
      → IsServed r
      → serve_api host codecs r (λ key. []) body s
        ≡ handle_with (api_codec r) (api_handler r) body s
  unfolding serve_api serve_vm vm_route api_handler
  serve_api-handler (vm route) body s h =
      elim route
        as (λ v.
          serve_api host codecs (vm v) (λ key. []) body s
          ≡ handle_with (api_codec (vm v)) (api_handler (vm v)) body s) [
            | vm_available ↦ rw h refl
            | list_vms ↦ rw h refl
            | boot_files ↦ rw h refl
            | create_vm ↦ rw h refl
            | get_vm ↦ rw h refl
            | start_vm ↦ rw h refl
            | stop_vm ↦ rw h refl
            | restart_vm ↦ rw h refl
            | update_vm ↦ rw h refl
            | delete_vm ↦ rw h refl
            | download_iso ↦ rw h refl
          ]
  serve_api-handler get_info body s h = refl
  serve_api-handler get_ports_services body s h = refl
  serve_api-handler get_tunnel_token body s h = refl

  ports_handler-Is500 : (q : Unit {0}) (s : S) → Is500 (ports_handler host codecs q s)
  unfolding ports_handler
  ports_handler-Is500 q s = listed (host.connections s)
    where
      listed :
          (r : S × (Bytes ⊎ List Connection))
          → Is500 (
            (plain r).0,
            elim (plain r).1 [
              | inl e ↦ inl e
              | inr cs ↦ inr (ports_services (host.processes s) cs)
            ],
          )
      listed (t, inl message) = tt
      listed (t, inr cs) = tt

  tunnels_handler-Is500 : (q : Unit {0}) (s : S) → Is500 (tunnels_handler host codecs q s)
  unfolding tunnels_handler tunnel_entries
  tunnels_handler-Is500 q s = elim (Sum-cases (host.tunnel_host s).home) [
    | inl (message, e) ↦ rw (e, tunnel_entries) tt
    | inr (dir, e) ↦ rw (e, tunnel_entries) tt
  ]

  api_handler-Is500 : (r : ApiRequest) (q : RequestType r) (s : S) → Is500 (api_handler r q s)
  unfolding api_handler stop_handler restart_handler
  api_handler-Is500 (vm vm_available) q s = tt
  api_handler-Is500 (vm list_vms) q s = plain-Is500 (host.operations.list_vms s)
  api_handler-Is500 (vm boot_files) q s = files_handler-Is500 host.operations codecs.vms q s
  api_handler-Is500 (vm create_vm) q s = create_handler-Is500 host.operations codecs.vms q s
  api_handler-Is500 (vm get_vm) q s =
      get_handler-Is500 host.operations codecs.vms (bare get_vm []) q s
  api_handler-Is500 (vm start_vm) q s = checked-Is500 (host.operations.start_vm q.name s)
  api_handler-Is500 (vm stop_vm) q s = checked-Is500 (host.operations.stop_vm q.name _ s)
  api_handler-Is500 (vm restart_vm) q s = checked-Is500 (host.operations.restart_vm q.name _ s)
  api_handler-Is500 (vm update_vm) q s = checked-Is500 (host.operations.update_vm q s)
  api_handler-Is500 (vm delete_vm) q s = checked-Is500 (host.operations.delete_vm q.name s)
  api_handler-Is500 (vm download_iso) q s = checked-Is500 (host.operations.download_iso q s)
  api_handler-Is500 get_info q s = plain-Is500 (host.server_info s)
  api_handler-Is500 get_ports_services q s = ports_handler-Is500 q s
  api_handler-Is500 get_tunnel_token q s = tunnels_handler-Is500 q s

pub Is500-status :
    {S Req Res : Type 0} (codec : Codec Req Res) (x : S × (HandlerError ⊎ Res)) (e : HandlerError)
    → Is500 x
    → x.1 ≡ inl e
    → error_status codec e ≢ 200
unfolding error_status
Is500-status codec (s, inl (plain_error message)) e h q = ground (arith, q)
Is500-status codec (s, inl (http_error status message)) e h q = ground (arith, q)
Is500-status codec (s, inl (error_response status message)) e h q = absurd h
Is500-status codec (s, inr a) e h q = λ _. cc

module _ {S F : Type 0} (host : Host S F) (codecs : ApiCodecs F)
    (router : Bytes → Bytes → Option ApiRequest) (not_found : Response) (caller : Caller)
    (auth : Auth) (s : S) where
  -- A daemon that was given the request of a client.
  abbrev pub daemon : ApiRequest → Bytes → Auth × S × (Bytes ⊎ Response)
  daemon r body =
      deliver (λ q. serve_http host codecs router not_found q auth s)
        (client_request r caller auth.secret body) auth s

  module _ (static : FindsRegistered router) (unlocked : auth.locked ≡ false)
      (whole : ArrivesWhole auth.secret) (r : ApiRequest) (served : IsServed host codecs r) where
    daemon-handler :
        (body : Bytes)
        → let after = handle_with (api_codec host codecs r) (api_handler host codecs r) body s in
          daemon r body ≡ (auth, after.0, inr after.1)
    unfolding serve_http client_request middleware deliver sent
    daemon-handler body =
        rw (client_request, whole)
          (rw (unlocked, (equal_iff auth.secret auth.secret).1 refl)
            (rw (static _ _ r (find_route-registered r))
              (rw (serve_api-handler host codecs r body s served) refl)))

    -- A call of any request of the API that reaches an unlocked daemon with its secret gives its
    -- caller the result of the handler of that request, or the message of its error, leaves the host
    -- as that handler does, and does not lock the daemon; if the authorization with the secret
    -- arrives as it was set, the coding keeps what this call carries and what its handler gives,
    -- echo's router finds what is registered under a method and a path, and a request for the virtual
    -- machines meets a host that can run them. The handler is given no query, since a call sends none.
    pub call-daemon :
        (q : RequestType r)
        → IsFaithful (api_codec host codecs r) q (api_handler host codecs r q s).1
        → (call (api_codec host codecs r) (λ body. (daemon r body).2) q
            ≡ answer (api_codec host codecs r) (api_handler host codecs r q s).1)
          × ((daemon r ((api_codec host codecs r).encode_request q)).1
              ≡ (api_handler host codecs r q s).0)
          × ((daemon r ((api_codec host codecs r).encode_request q)).0 ≡ auth)
    unfolding handle_with
    call-daemon q f =
        let codec = api_codec host codecs r in
        let handler = api_handler host codecs r in
        let handled : (body : Bytes)
            → (daemon r body).2 ≡ inr (handle codec (λ q. (handler q s).1) body) =
          λ body. ap (λ d. d.2) (daemon-handler body) in
        (
          ap (λ exchange. call codec exchange q) (fun_ext handled)
              ∙ call-handle codec (λ q. (handler q s).1) q f
                  (λ e. Is500-status codec (handler q s) e (api_handler-Is500 host codecs r q s)),
          ap (λ d. d.1) (daemon-handler (codec.encode_request q))
              ∙ ap (λ o. elim o [ none ↦ s | some x ↦ (handler x s).0 ]) f.request,
          ap (λ d. d.0) (daemon-handler (codec.encode_request q)),
        )
