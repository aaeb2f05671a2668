-- ===== src/Daemon/Routes/Operations.antt =====
-- daemon/server.go and daemon/vms: the routes over the operations on libvirt.
pub mod Connections
use mechanicaldinosaurs.Base.{
  ℕ, Bytes, codes, ◌⊎◌, inl, inr, Bool, Option, none, some, List, [], ◌∷◌,
}
use mechanicaldinosaurs.Base.FilePath.{join_path}
use mechanicaldinosaurs.Daemon.Vms.Config.{VmConfig}
use mechanicaldinosaurs.Daemon.Vms.Create.{VmHost, Calls, CreateError, create_vm}
use mechanicaldinosaurs.Daemon.Vms.Create.Disks.{disk_path}
use mechanicaldinosaurs.Daemon.Vms.Lifecycle.{
  Libvirt, World, VmError, start_vm, stop_vm, restart_vm, update_vm, delete_vm,
}
use mechanicaldinosaurs.Daemon.Vms.Queries.{QemuImg, Descriptions, get_vm, list_vms}
use mechanicaldinosaurs.Daemon.Iso.{IsoError, Url, Downloads, download_iso}
use mechanicaldinosaurs.Daemon.Routes.{VmOperations}

-- The host of a daemon: the clients it calls, its data directory and its architecture, and
-- `Error()` of the errors. `vm_host` and `put_vm_host` are what belongs to the name of a machine, the
-- connections apart; `calls` is how qemu-img, libvirt and the file system answer.
pub record Backend (S : Type 0) : Type 0 where
  pub libvirt : Libvirt S
  pub descriptions : Descriptions S
  pub qemu_img : QemuImg
  pub downloads : Downloads S
  pub parse_url : Bytes → Option Url
  pub read_dir : Bytes → S → S × (Bytes ⊎ List (Bytes × Bool))
  pub vm_host : Bytes → S → VmHost
  pub put_vm_host : Bytes → VmHost → S → S
  pub calls : S → Calls
  pub max_vcpu : ℕ
  pub create_text : CreateError → Bytes
  pub data_dir : Bytes
  pub arch : Bytes
  pub vm_text : VmError → Bytes
  pub iso_text : IsoError → Bytes

abbrev pub with_text {ℓ κ} :
    {S : Type ℓ} {A : Type κ} → (VmError → Bytes) → S × (VmError ⊎ A) → S × (Bytes ⊎ A)
with_text text r = (r.0, elim r.1 [ inl e ↦ inl (text e) | inr a ↦ inr a ])

abbrev pub failure {ℓ} :
    {S : Type ℓ} → (VmError → Bytes) → S × (VmError ⊎ Unit {0}) → S × Option Bytes
failure text r = (r.0, elim r.1 [ inl e ↦ some (text e) | inr _ ↦ none ])

-- A call that does not concern the connections.
abbrev pub on_host {ℓ} : {S : Type 0} {A : Type ℓ} → (S → S × A) → World S → World S × A
on_host call w = let r = call w.host in (record w { host = r.0 }, r.1)

abbrev iso_failure {ℓ} : {S : Type ℓ} → (IsoError → Bytes) → S × Option IsoError → S × Option Bytes
iso_failure text r = (r.0, elim r.1 [ none ↦ none | some e ↦ some (text e) ])

-- `CreateVM` on the state of the host.
unfoldable pub create_on : {S : Type 0} → Backend S → VmConfig → World S → World S × (Bytes ⊎ ℕ)
unfolding create_vm
create_on b config w =
    let found = b.vm_host config.name w.host in
    let r =
      create_vm (b.calls w.host) b.max_vcpu config
        (record found { opened = w.opened; domains = w.domains }) in
    (
      record {
        host = b.put_vm_host config.name r.0 w.host;
        opened = r.0.opened;
        domains = r.0.domains;
      },
      elim r.1 [ inl e ↦ inl (b.create_text e) | inr port ↦ inr port ],
    )

-- The operations that the routes call.
unfoldable pub vm_operations : {S : Type 0} → Backend S → VmOperations (World S)
unfolding create_on list_vms get_vm start_vm stop_vm restart_vm update_vm delete_vm download_iso
vm_operations b = record {
  list_vms = λ w. with_text b.vm_text (list_vms b.libvirt b.descriptions b.qemu_img w);
  read_boot_files = on_host (b.read_dir (join_path (b.data_dir ∷ codes "boot_files" ∷ [])));
  create_vm = create_on b;
  get_vm = λ name. λ w. with_text b.vm_text (get_vm b.libvirt b.descriptions b.qemu_img name w);
  start_vm = λ name. λ w. failure b.vm_text (start_vm b.libvirt name w);
  stop_vm = λ name. λ graceful. λ w. failure b.vm_text (stop_vm b.libvirt name graceful w);
  restart_vm = λ name. λ graceful. λ w. failure b.vm_text (restart_vm b.libvirt name graceful w);
  update_vm =
      λ u. λ w. failure b.vm_text (update_vm b.libvirt u.name u.vcpus u.memory_mib u.storage_gib w);
  delete_vm =
      λ name. λ w. failure b.vm_text (delete_vm b.libvirt name (disk_path b.data_dir name) w);
  download_iso = λ i.
      on_host
        (λ s. iso_failure b.iso_text (download_iso b.downloads b.parse_url b.arch b.data_dir i s));
}
