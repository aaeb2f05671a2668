-- ===== src/Daemon/Routes/Invariants.antt =====
-- daemon/server.go: what the requests to the routes of the virtual machines leave as it was.
use mechanicaldinosaurs.Base.{
  Bytes, codes, equal, Bool-cases, Option-cases, ◌⊎◌, inl, inr, Bool, true, false, Option, none,
  some, List, [], ◌∷◌,
}
use mechanicaldinosaurs.Rpc.{HandlerError, Codec}
use mechanicaldinosaurs.Daemon.Vms.Config.{VmConfig}
use mechanicaldinosaurs.Daemon.Iso.{IsoRequest}
use mechanicaldinosaurs.Daemon.Routes.{
  VmOperations, VmCodecs, VmRequest, UpdateRequest, vm_available, list_vms, boot_files, create_vm,
  get_vm, start_vm, stop_vm, restart_vm, update_vm, delete_vm, download_iso, plain, checked,
  handle_with, available_handler, list_handler, files_handler, create_handler, get_handler,
  start_handler, stop_handler, restart_handler, update_handler, delete_handler, iso_handler,
  vm_route, serve_vm, serve_vms,
}

-- A property of the state that every operation keeps.
pub record Keep {S : Type 0} (operations : VmOperations S) (P : S → Type 0) : Type 0 where
  pub list_kept : (s : S) → P s → P (operations.list_vms s).0
  pub files_kept : (s : S) → P s → P (operations.read_boot_files s).0
  pub create_kept : (config : VmConfig) (s : S) → P s → P (operations.create_vm config s).0
  pub get_kept : (name : Bytes) (s : S) → P s → P (operations.get_vm name s).0
  pub start_kept : (name : Bytes) (s : S) → P s → P (operations.start_vm name s).0
  pub stop_kept :
      (name : Bytes) (graceful : Bool) (s : S) → P s → P (operations.stop_vm name graceful s).0
  pub restart_kept :
      (name : Bytes) (graceful : Bool) (s : S) → P s → P (operations.restart_vm name graceful s).0
  pub update_kept : (u : UpdateRequest) (s : S) → P s → P (operations.update_vm u s).0
  pub delete_kept : (name : Bytes) (s : S) → P s → P (operations.delete_vm name s).0
  pub iso_kept : (i : IsoRequest) (s : S) → P s → P (operations.download_iso i s).0

module _ {S : Type 0} (P : S → Type 0) where
  plain-kept : {A : Type 0} (r : S × (Bytes ⊎ A)) → P r.0 → P (plain r).0
  plain-kept (s, inl message) h = h
  plain-kept (s, inr a) h = h

  checked-kept : (r : S × Option Bytes) → P r.0 → P (checked r).0
  checked-kept (s, none) h = h
  checked-kept (s, some message) h = h

  handle_with-kept :
      {Req Res : Type 0} (codec : Codec Req Res) (handler : Req → S → S × (HandlerError ⊎ Res))
      (body : Bytes) (s : S)
      → ((q : Req) → P (handler q s).0)
      → P s
      → P (handle_with codec handler body s).0
  unfolding handle_with
  handle_with-kept codec handler body s h k = elim (Option-cases (codec.decode_request body)) [
    | inl n ↦ rw (handle_with, n) k
    | inr (q, n) ↦ rw (handle_with, n) (h q)
  ]

module _ {S : Type 0} (operations : VmOperations S) (codecs : VmCodecs) (P : S → Type 0)
    (keep : Keep operations P) where
  get_handler-kept :
      (r : VmRequest) (q : Unit {0}) (s : S) → P s → P (get_handler operations codecs r q s).0
  unfolding get_handler
  get_handler-kept r q s h = elim (Bool-cases (equal (r.query (codes "name")) [])) [
    | inl e ↦ rw (get_handler, e) h
    | inr e ↦
        rw (get_handler, e)
          (plain-kept P (operations.get_vm (r.query (codes "name")) s) (keep.get_kept _ s h))
  ]

  vm_route-kept : (r : VmRequest) (s : S) → P s → P (vm_route operations codecs r s).0
  unfolding vm_route files_handler stop_handler restart_handler
  vm_route-kept r s h =
      elim r.route as (λ x. P (vm_route operations codecs (record r { route = x }) s).0) [
        | vm_available ↦
            handle_with-kept P codecs.nothing (available_handler operations codecs) r.body s
              (λ q. h) h
        | list_vms ↦
            handle_with-kept P codecs.machines (list_handler operations codecs) r.body s
              (λ q. plain-kept P (operations.list_vms s) (keep.list_kept s h)) h
        | boot_files ↦
            handle_with-kept P codecs.files (files_handler operations codecs) r.body s
              (λ q. plain-kept P (operations.read_boot_files s) (keep.files_kept s h)) h
        | create_vm ↦
            handle_with-kept P codecs.config (create_handler operations codecs) r.body s
              (λ q. plain-kept P (operations.create_vm q s) (keep.create_kept q s h)) h
        | get_vm ↦
            handle_with-kept P codecs.machine (get_handler operations codecs r) r.body s
              (λ q. get_handler-kept r q s h) h
        | start_vm ↦
            handle_with-kept P codecs.target (start_handler operations codecs) r.body s
              (λ q. checked-kept P (operations.start_vm q.name s) (keep.start_kept q.name s h)) h
        | stop_vm ↦
            handle_with-kept P codecs.target (stop_handler operations codecs r) r.body s
              (λ q. checked-kept P (operations.stop_vm q.name _ s) (keep.stop_kept q.name _ s h)) h
        | restart_vm ↦
            handle_with-kept P codecs.target (restart_handler operations codecs r) r.body s
              (λ q.
                checked-kept P (operations.restart_vm q.name _ s) (keep.restart_kept q.name _ s h))
              h
        | update_vm ↦
            handle_with-kept P codecs.update (update_handler operations codecs) r.body s
              (λ q. checked-kept P (operations.update_vm q s) (keep.update_kept q s h)) h
        | delete_vm ↦
            handle_with-kept P codecs.target (delete_handler operations codecs) r.body s
              (λ q. checked-kept P (operations.delete_vm q.name s) (keep.delete_kept q.name s h)) h
        | download_iso ↦
            handle_with-kept P codecs.iso (iso_handler operations codecs) r.body s
              (λ q. checked-kept P (operations.download_iso q s) (keep.iso_kept q s h)) h
      ]

  -- A property that every operation keeps is kept by every sequence of requests.
  pub serve_vms-kept :
      (available : Bool) (rs : List VmRequest) (s : S)
      → P s
      → P (serve_vms operations codecs available rs s).0
  unfolding serve_vms serve_vm
  serve_vms-kept available [] s h = h
  serve_vms-kept false (r ∷ rs) s h = serve_vms-kept false rs s h
  serve_vms-kept true (r ∷ rs) s h = serve_vms-kept true rs _ (vm_route-kept r s h)
