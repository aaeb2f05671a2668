-- ===== src/Daemon/Routes.antt =====
-- daemon/server.go: the routes of the virtual machines, behind the middleware that asks whether the
-- host can run them. The operations of daemon/vms are an interface.
pub mod Display
pub mod Invariants
pub mod Operations
pub mod Statuses
use mechanicaldinosaurs.Base.{
  ℕ, Bytes, codes, equal, if◌then◌else◌, ◌⊎◌, inl, inr, Bool, true, not, Option, none, some, List,
  [], ◌∷◌,
}
use mechanicaldinosaurs.Rpc.{HandlerError, http_error, plain_error, Response, Codec, handle}
use mechanicaldinosaurs.Daemon.Vms.Config.{VmConfig}
use mechanicaldinosaurs.Daemon.Vms.Queries.{Vm}
use mechanicaldinosaurs.Daemon.Iso.{IsoRequest}

-- `VMTargetReq`.
pub record TargetRequest : Type 0 where
  pub name : Bytes

-- `UpdateVMReq`.
pub record UpdateRequest : Type 0 where
  pub name : Bytes
  pub vcpus : ℕ
  pub memory_mib : ℕ
  pub storage_gib : ℕ

-- What the handlers call, on the state S of the host; an error is its message. A directory is read
-- as the names of its entries, each with whether it is a directory.
pub record VmOperations (S : Type 0) : Type 0 where
  pub list_vms : S → S × (Bytes ⊎ List Vm)
  pub read_boot_files : S → S × (Bytes ⊎ List (Bytes × Bool))
  pub create_vm : VmConfig → S → S × (Bytes ⊎ ℕ)
  pub get_vm : Bytes → S → S × (Bytes ⊎ Vm)
  pub start_vm : Bytes → S → S × Option Bytes
  pub stop_vm : Bytes → Bool → S → S × Option Bytes
  pub restart_vm : Bytes → Bool → S → S × Option Bytes
  pub update_vm : UpdateRequest → S → S × Option Bytes
  pub delete_vm : Bytes → S → S × Option Bytes
  pub download_iso : IsoRequest → S → S × Option Bytes

-- The codings of the routes' requests and results.
pub record VmCodecs : Type 0 where
  pub nothing : Codec (Unit {0}) (Unit {0})
  pub machines : Codec (Unit {0}) (List Vm)
  pub files : Codec (Unit {0}) (List Bytes)
  pub machine : Codec (Unit {0}) Vm
  pub config : Codec VmConfig (Unit {0})
  pub target : Codec TargetRequest (Unit {0})
  pub update : Codec UpdateRequest (Unit {0})
  pub iso : Codec IsoRequest (Unit {0})

pub data VmRoute : Type 0 where
  vm_available list_vms boot_files create_vm get_vm start_vm stop_vm restart_vm update_vm : VmRoute
  delete_vm download_iso : VmRoute

-- A request: its route, the query parameter of a name, and its body.
pub record VmRequest : Type 0 where
  pub route : VmRoute
  pub query : Bytes → Bytes
  pub body : Bytes

abbrev pub plain {ℓ κ} : {S : Type ℓ} {A : Type κ} → S × (Bytes ⊎ A) → S × (HandlerError ⊎ A)
plain (s, inl message) = (s, inl (plain_error message))
plain (s, inr a) = (s, inr a)

abbrev checked {ℓ} : {S : Type ℓ} → S × Option Bytes → S × (HandlerError ⊎ Unit {0})
checked (s, none) = (s, inr tt)
checked (s, some message) = (s, inl (plain_error message))

-- The loop over the entries of the directory of boot files.
pub file_names : List (Bytes × Bool) → List Bytes
file_names [] = []
file_names ((name, is_dir) ∷ entries) =
    let names = file_names entries in if is_dir then names else name ∷ names

-- `Handle` round a handler that changes the state; a body that is refused changes nothing.
unfoldable pub handle_with :
    {S Req Res : Type 0}
    → Codec Req Res
    → (Req → S → S × (HandlerError ⊎ Res))
    → Bytes
    → S
    → S × Response
unfolding handle
handle_with codec handler body s = (
  elim (codec.decode_request body) [ none ↦ s | some r ↦ (handler r s).0 ],
  handle codec (λ r. (handler r s).1) body,
)

module _ {S : Type 0} (operations : VmOperations S) (codecs : VmCodecs) where
  -- `c.QueryParam("force") == "true"`.
  unfoldable pub is_forceful : VmRequest → Bool
  unfolding equal
  is_forceful r = equal (r.query (codes "force")) (codes "true")

  -- The handlers, one for each request.
  abbrev pub available_handler : Unit {0} → S → S × (HandlerError ⊎ Unit {0})
  available_handler _ s = (s, inr tt)

  abbrev pub list_handler : Unit {0} → S → S × (HandlerError ⊎ List Vm)
  list_handler _ s = plain (operations.list_vms s)

  unfoldable pub files_handler : Unit {0} → S → S × (HandlerError ⊎ List Bytes)
  unfolding file_names
  files_handler _ s =
      let (s', found) = plain (operations.read_boot_files s) in
      (s', elim found [ inl e ↦ inl e | inr entries ↦ inr (file_names entries) ])

  abbrev pub create_handler : VmConfig → S → S × (HandlerError ⊎ Unit {0})
  create_handler config s =
      let (s', created) = plain (operations.create_vm config s) in
      (s', elim created [ inl e ↦ inl e | inr _ ↦ inr tt ])

  unfoldable pub get_handler : VmRequest → Unit {0} → S → S × (HandlerError ⊎ Vm)
  unfolding equal
  get_handler r _ s =
      let name = r.query (codes "name") in
      if equal name []
      then (s, inl (http_error 400 (codes "missing query parameter: name")))
      else plain (operations.get_vm name s)

  abbrev pub start_handler : TargetRequest → S → S × (HandlerError ⊎ Unit {0})
  start_handler target s = checked (operations.start_vm target.name s)

  unfoldable pub stop_handler : VmRequest → TargetRequest → S → S × (HandlerError ⊎ Unit {0})
  unfolding is_forceful
  stop_handler r target s = checked (operations.stop_vm target.name (not (is_forceful r)) s)

  unfoldable pub restart_handler : VmRequest → TargetRequest → S → S × (HandlerError ⊎ Unit {0})
  unfolding is_forceful
  restart_handler r target s = checked (operations.restart_vm target.name (not (is_forceful r)) s)

  abbrev pub update_handler : UpdateRequest → S → S × (HandlerError ⊎ Unit {0})
  update_handler u s = checked (operations.update_vm u s)

  abbrev pub delete_handler : TargetRequest → S → S × (HandlerError ⊎ Unit {0})
  delete_handler target s = checked (operations.delete_vm target.name s)

  abbrev pub iso_handler : IsoRequest → S → S × (HandlerError ⊎ Unit {0})
  iso_handler i s = checked (operations.download_iso i s)

  -- The routes of `registerVMRoutes`.
  unfoldable pub vm_route : VmRequest → S → S × Response
  unfolding handle_with files_handler get_handler stop_handler restart_handler
  vm_route r s = elim r.route [
    | vm_available ↦ handle_with codecs.nothing available_handler r.body s
    | list_vms ↦ handle_with codecs.machines list_handler r.body s
    | boot_files ↦ handle_with codecs.files files_handler r.body s
    | create_vm ↦ handle_with codecs.config create_handler r.body s
    | get_vm ↦ handle_with codecs.machine (get_handler r) r.body s
    | start_vm ↦ handle_with codecs.target start_handler r.body s
    | stop_vm ↦ handle_with codecs.target (stop_handler r) r.body s
    | restart_vm ↦ handle_with codecs.target (restart_handler r) r.body s
    | update_vm ↦ handle_with codecs.update update_handler r.body s
    | delete_vm ↦ handle_with codecs.target delete_handler r.body s
    | download_iso ↦ handle_with codecs.iso iso_handler r.body s
  ]

  -- The group of the routes, with what `Available` said when the daemon started.
  unfoldable pub serve_vm : Bool → VmRequest → S → S × Response
  unfolding vm_route
  serve_vm available r s =
      if not available
      then (
        s,
        record {
          status = 503;
          body = codecs.nothing.encode_error (codes "vm functionality not available on this host");
        },
      )
      else vm_route r s

  -- Requests one after the other, each on the state that the last one left.
  unfoldable pub serve_vms : Bool → List VmRequest → S → S × List Response
  unfolding serve_vm
  serve_vms available [] s = (s, [])
  serve_vms available (r ∷ rs) s =
      let (s', response) = serve_vm available r s in
      let (s'', responses) = serve_vms available rs s' in (s'', response ∷ responses)
