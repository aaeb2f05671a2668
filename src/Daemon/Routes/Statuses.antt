-- ===== src/Daemon/Routes/Statuses.antt =====
-- daemon/server.go: the statuses of the routes of the virtual machines.
use mechanicaldinosaurs.Base.{
  ℕ, Bytes, codes, equal, Bool-cases, ◌≡◌, ◌⊎◌, inl, inr, Bool, true, false, Option, none, some,
  List, [],
}
use mechanicaldinosaurs.Rpc.{HandlerError, http_error, plain_error, Response}
use mechanicaldinosaurs.Daemon.Vms.Config.{VmConfig}
use mechanicaldinosaurs.Daemon.Routes.{
  VmOperations, VmCodecs, VmRoute, VmRequest, vm_available, list_vms, boot_files, create_vm, get_vm,
  start_vm, stop_vm, restart_vm, update_vm, delete_vm, download_iso, plain, checked, file_names,
  files_handler, create_handler, get_handler,
}

-- A result with an error of status 500.
abbrev pub Is500 : {S A : Type 0} → S × (HandlerError ⊎ A) → Type 0
Is500 (s, inl (plain_error message)) = Unit {0}
Is500 (s, inl (http_error status message)) = Unit {0}
Is500 (s, inl _) = ⊥
Is500 (s, inr a) = Unit {0}

-- Whether `Bind` refuses the body.
abbrev is_none {ℓ} : {A : Type ℓ} → Option A → Bool
is_none none = true
is_none (some a) = false

abbrev pub is_refused : VmCodecs → VmRoute → Bytes → Bool
is_refused codecs vm_available body = is_none (codecs.nothing.decode_request body)
is_refused codecs list_vms body = is_none (codecs.machines.decode_request body)
is_refused codecs boot_files body = is_none (codecs.files.decode_request body)
is_refused codecs create_vm body = is_none (codecs.config.decode_request body)
is_refused codecs get_vm body = is_none (codecs.machine.decode_request body)
is_refused codecs start_vm body = is_none (codecs.target.decode_request body)
is_refused codecs stop_vm body = is_none (codecs.target.decode_request body)
is_refused codecs restart_vm body = is_none (codecs.target.decode_request body)
is_refused codecs update_vm body = is_none (codecs.update.decode_request body)
is_refused codecs delete_vm body = is_none (codecs.target.decode_request body)
is_refused codecs download_iso body = is_none (codecs.iso.decode_request body)

-- The response of a route that is reached: a body that is refused has the status 400, and then nothing
-- has changed; any other has 200 or 500.
abbrev pub IsHandled : {S : Type 0} → Bool → S → S × Response → Type 0
IsHandled true s r = (r.1.status ≡ 400) × (r.0 ≡ s)
IsHandled false s r = (r.1.status ≡ 200) ⊎ (r.1.status ≡ 500)

module _ {S : Type 0} where
  pub plain-Is500 : {A : Type 0} (r : S × (Bytes ⊎ A)) → Is500 (plain r)
  plain-Is500 (s, inl message) = tt
  plain-Is500 (s, inr a) = tt

  pub checked-Is500 : (r : S × Option Bytes) → Is500 (checked r)
  checked-Is500 (s, none) = tt
  checked-Is500 (s, some message) = tt

module _ {S : Type 0} (operations : VmOperations S) (codecs : VmCodecs) where
  pub files_handler-Is500 : (q : Unit {0}) (s : S) → Is500 (files_handler operations codecs q s)
  unfolding files_handler
  files_handler-Is500 q s = files (operations.read_boot_files s)
    where
      files :
          (r : S × (Bytes ⊎ List (Bytes × Bool)))
          → Is500 (
            (plain r).0,
            elim (plain r).1 [ inl e ↦ inl e | inr entries ↦ inr (file_names entries) ],
          )
      files (t, inl message) = tt
      files (t, inr entries) = tt

  pub create_handler-Is500 :
      (config : VmConfig) (s : S) → Is500 (create_handler operations codecs config s)
  create_handler-Is500 config s = created (operations.create_vm config s)
    where
      created :
          (r : S × (Bytes ⊎ ℕ))
          → Is500 ((plain r).0, elim (plain r).1 [ inl e ↦ inl e | inr _ ↦ inr (tt {0}) ])
      created (t, inl message) = tt
      created (t, inr n) = tt

  pub get_handler-Is500 :
      (r : VmRequest) (q : Unit {0}) (s : S) → Is500 (get_handler operations codecs r q s)
  unfolding get_handler
  get_handler-Is500 r q s = elim (Bool-cases (equal (r.query (codes "name")) [])) [
    | inl e ↦ rw (get_handler, e) tt
    | inr e ↦ rw (get_handler, e) (plain-Is500 (operations.get_vm (r.query (codes "name")) s))
  ]
