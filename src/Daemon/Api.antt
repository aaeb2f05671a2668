-- ===== src/Daemon/Api.antt =====
-- server/server.go and daemon/server.go: the table of the requests with the types that they carry, the
-- routes that `main` registers, and a daemon as an HTTP server. Echo's router is a parameter.
pub mod Calls
use mechanicaldinosaurs.Base.{
  Bytes, codes, equal, if◌then◌else◌, ◌&&◌, ◌⊎◌, inl, inr, Bool, Option, none, some, List, [], ◌∷◌,
}
use mechanicaldinosaurs.Rpc.{HandlerError, Response, Codec}
use mechanicaldinosaurs.Rpc.Info.{Info}
use mechanicaldinosaurs.Daemon.Auth.{
  Auth, Caller, Reply, answered, no_authorization, daemon_locked, middleware,
}
use mechanicaldinosaurs.Daemon.Iso.{IsoRequest}
use mechanicaldinosaurs.Daemon.Ports.{Connection, Processes, PortNames, ports_services}
use mechanicaldinosaurs.Daemon.Tunnels.{TunnelEntry, TunnelHost, tunnel_entries}
use mechanicaldinosaurs.Daemon.Vms.Config.{VmConfig}
use mechanicaldinosaurs.Daemon.Vms.Queries.{Vm}
use mechanicaldinosaurs.Daemon.Routes.{
  TargetRequest, UpdateRequest, VmOperations, VmCodecs, VmRoute, vm_available, list_vms, boot_files,
  create_vm, get_vm, start_vm, stop_vm, restart_vm, update_vm, delete_vm, download_iso, plain,
  handle_with, serve_vm,
}

-- `StaticRequestInfo`, without its two type parameters.
pub record StaticRequestInfo : Type 0 where
  pub method : Bytes
  pub path : Bytes

-- The variables of that type.
pub data ApiRequest : Type 0 where
  vm : VmRoute → ApiRequest
  get_info get_ports_services get_tunnel_token : ApiRequest

-- The types of what a request carries and of its result.
abbrev pub RequestType : ApiRequest → Type 0
RequestType (vm create_vm) = VmConfig
RequestType (vm start_vm) = TargetRequest
RequestType (vm stop_vm) = TargetRequest
RequestType (vm restart_vm) = TargetRequest
RequestType (vm delete_vm) = TargetRequest
RequestType (vm update_vm) = UpdateRequest
RequestType (vm download_iso) = IsoRequest
RequestType _ = Unit {0}

abbrev pub ResultType : Type 0 → ApiRequest → Type 0
ResultType F (vm list_vms) = List Vm
ResultType F (vm boot_files) = List Bytes
ResultType F (vm get_vm) = Vm
ResultType F get_info = Info F
ResultType F get_ports_services = PortNames
ResultType F get_tunnel_token = List TunnelEntry
ResultType F _ = Unit {0}

abbrev get : Bytes → StaticRequestInfo
get path = record { method = codes "GET"; path = path }

abbrev post : Bytes → StaticRequestInfo
post path = record { method = codes "POST"; path = path }

-- The methods and the paths.
unfoldable pub request_info : ApiRequest → StaticRequestInfo
request_info get_info = get (codes "/api/info")
request_info (vm vm_available) = get (codes "/api/vms/available")
request_info (vm list_vms) = get (codes "/api/vms/list")
request_info (vm boot_files) = get (codes "/api/vms/boot-files")
request_info (vm create_vm) = post (codes "/api/vms/create")
request_info (vm get_vm) = get (codes "/api/vms/get")
request_info (vm start_vm) = post (codes "/api/vms/start")
request_info (vm stop_vm) = post (codes "/api/vms/stop")
request_info (vm restart_vm) = post (codes "/api/vms/restart")
request_info (vm delete_vm) = post (codes "/api/vms/delete")
request_info (vm download_iso) = post (codes "/api/vms/download-iso")
request_info (vm update_vm) = record { method = codes "PATCH"; path = codes "/api/vms/update" }
request_info get_tunnel_token = get (codes "/api/tunnels/ids-and-tokens")
request_info get_ports_services = get (codes "/api/ports-services")

-- What `main` registers by `server.Handle`, in its order.
pub registered : List ApiRequest
registered =
    get_info
    ∷ get_ports_services
    ∷ vm vm_available
    ∷ vm list_vms
    ∷ vm boot_files
    ∷ vm create_vm
    ∷ vm get_vm
    ∷ vm start_vm
    ∷ vm stop_vm
    ∷ vm restart_vm
    ∷ vm update_vm
    ∷ vm delete_vm
    ∷ vm download_iso
    ∷ get_tunnel_token
    ∷ []

-- The first of them with a method and a path.
pub find_route : Bytes → Bytes → List ApiRequest → Option ApiRequest
unfolding request_info equal
find_route method path [] = none
find_route method path (r ∷ rs) =
    if equal (request_info r).method method && equal (request_info r).path path
    then some r
    else find_route method path rs

-- What the handlers of `main` read, on the state S of the host; an error is its message. The other
-- processes of the host name its ports.
pub record Host (S F : Type 0) : Type 0 where
  pub server_info : S → S × (Bytes ⊎ Info F)
  pub connections : S → S × (Bytes ⊎ List Connection)
  pub processes : S → Processes
  pub tunnel_host : S → TunnelHost
  pub operations : VmOperations S
  pub available : Bool

pub record ApiCodecs (F : Type 0) : Type 0 where
  pub vms : VmCodecs
  pub info : Codec (Unit {0}) (Info F)
  pub ports : Codec (Unit {0}) PortNames
  pub tunnels : Codec (Unit {0}) (List TunnelEntry)

-- An HTTP request as far as the daemon reads it.
pub record HttpRequest : Type 0 where
  pub method : Bytes
  pub path : Bytes
  pub query : Bytes → Bytes
  pub caller : Caller
  pub authorization : Bytes
  pub body : Bytes

module _ {S F : Type 0} (host : Host S F) (codecs : ApiCodecs F) where
  -- The handlers that `main` registers itself.
  unfoldable pub info_handler : Unit {0} → S → S × (HandlerError ⊎ Info F)
  info_handler _ s = plain (host.server_info s)

  ports_handler : Unit {0} → S → S × (HandlerError ⊎ PortNames)
  ports_handler _ s =
      let (s', found) = plain (host.connections s) in
      (s', elim found [ inl e ↦ inl e | inr cs ↦ inr (ports_services (host.processes s) cs) ])

  tunnels_handler : Unit {0} → S → S × (HandlerError ⊎ List TunnelEntry)
  tunnels_handler _ s = (s, tunnel_entries (host.tunnel_host s))

  -- The function that is registered for a request, on the query and the body.
  unfoldable pub serve_api : ApiRequest → (Bytes → Bytes) → Bytes → S → S × Response
  unfolding info_handler ports_handler tunnels_handler
  serve_api get_info query body s = handle_with codecs.info info_handler body s
  serve_api get_ports_services query body s = handle_with codecs.ports ports_handler body s
  serve_api get_tunnel_token query body s = handle_with codecs.tunnels tunnels_handler body s
  serve_api (vm route) query body s =
      serve_vm host.operations codecs.vms host.available
        (record { route = route; query = query; body = body }) s

  -- A request to the daemon: the group's middleware round what the router finds.
  unfoldable pub serve_http :
      (Bytes → Bytes → Option ApiRequest)
      → Response
      → HttpRequest
      → Auth
      → S
      → Auth × S × Reply Response
  unfolding serve_api middleware
  serve_http router not_found r auth s =
      middleware
        (λ t. elim (router r.method r.path) [
          | some request ↦ serve_api request r.query r.body t
          | none ↦ (t, not_found)
        ])
        r.caller r.authorization auth s

-- The response that the client gets.
unfoldable pub sent : Reply Response → Response
sent (answered response) = response
sent no_authorization = record { status = 401; body = codes "no authorization" }
sent daemon_locked = record { status = 423; body = codes "the daemon has been locked." }

-- A request that net/http sends or refuses to send, and the error or the response that its client gets.
unfoldable pub deliver :
    {S : Type 0}
    → (HttpRequest → Auth × S × Reply Response)
    → Option HttpRequest
    → Auth
    → S
    → Auth × S × (Bytes ⊎ Response)
unfolding sent
deliver serve none auth s = (auth, s, inl (codes "invalid header field value"))
deliver serve (some request) auth s =
    let (auth', s', reply) = serve request in (auth', s', inr (sent reply))
