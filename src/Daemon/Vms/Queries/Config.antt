-- ===== src/Daemon/Vms/Queries/Config.antt =====
-- daemon/vms/create.go and vms.go together: the configuration that is read back of a created machine.
use mechanicaldinosaurs.Base.{
  ℕ, ℤ, pos, ◌*◌, ◌/◌, ◌%◌, ◌^◌, ◌<◌, Bytes, codes, equal, ◌≡◌, refl, sym, ap, ◌∙◌, ◌≢◌, ◌⊎◌, inl,
  inr, false, none, some, [], ◌∷◌, arith,
}
use mechanicaldinosaurs.Base.FilePath.{base, IsFileName}
use mechanicaldinosaurs.Base.FilePath.Names.{base-join_path}
use mechanicaldinosaurs.Daemon.Vms.Config.{
  VmConfig, validate_config, validate_config_iff, validate_config-Lacks,
}
use mechanicaldinosaurs.Daemon.Vms.Create.Disks.{
  iso_path, disk_path, disk-IsFileName, base-disk_path,
}
use mechanicaldinosaurs.Daemon.Vms.Xml.{Domain, Memory, Disk, Graphics}
use mechanicaldinosaurs.Daemon.Vms.Queries.{
  QemuImg, get_disk_size, gib, memory_mib, find_disks, find_graphics, config_from_xml,
}

-- An amount of memory in MiB, as libvirt may report it.
abbrev pub IsMemory : ℕ → Memory → Type 0
IsMemory mib m =
    ((m.unit ≡ codes "KiB") × (m.value ≡ pos (mib * 1024)))
    ⊎ ((m.unit ≡ codes "MiB") × (m.value ≡ pos mib))

pub record IsFileDisk (format source : Bytes) (order : ℕ) (d : Disk) : Type 0 where
  pub file : d.type_ ≡ codes "file"
  pub format_same : d.driver.type_ ≡ format
  pub source_same : d.source_file ≡ source
  pub order_same : d.boot_order ≡ pos order

-- What libvirt says of the domain that the text of a configuration defines: its name, processors and
-- memory, the three disks in their order, and the graphics.
pub record Describes (c : VmConfig) (disk_path iso_path drivers_path graphics : Bytes) (d : Domain)
    : Type 0 where
  pub name : d.name ≡ c.name
  pub vcpus : d.vcpu.value ≡ pos c.vcpus
  pub memory : IsMemory c.memory_mib d.memory
  pub primary : Disk
  pub iso : Disk
  pub drivers : Disk
  pub disks : d.devices.disks ≡ primary ∷ iso ∷ drivers ∷ []
  pub primary_is : IsFileDisk (codes "qcow2") disk_path 1 primary
  pub iso_is : IsFileDisk (codes "raw") iso_path 2 iso
  pub drivers_is : IsFileDisk (codes "raw") drivers_path 0 drivers
  pub display : Graphics
  pub displays : d.devices.graphics ≡ display ∷ []
  pub display_is : display.type_ ≡ graphics

memory_mib-IsMemory :
    (mib : ℕ) (m : Memory) → mib < 2 ^ 53 → IsMemory mib m → memory_mib m ≡ some mib
unfolding memory_mib
memory_mib-IsMemory mib m b (inl (u, v)) = rw (u, v) (ap some (omega arith))
memory_mib-IsMemory mib m b (inr (u, v)) = rw (u, v) (ap some (omega arith))

find_disks-Describes :
    {c : VmConfig} {disk_path iso_path drivers_path graphics : Bytes} {d : Domain}
    → Describes c disk_path iso_path drivers_path graphics d
    → find_disks d.devices.disks ([], []) ≡ (iso_path, disk_path)
unfolding find_disks
find_disks-Describes t =
    let p = t.primary_is in
    let i = t.iso_is in
    let v = t.drivers_is in
    rw
      (
        t.disks, p.file, p.format_same, p.source_same, i.file, i.format_same, i.order_same,
        i.source_same, v.file, v.format_same, v.order_same,
      )
      refl

find_graphics-Describes :
    {c : VmConfig} {disk_path iso_path drivers_path graphics : Bytes} {d : Domain}
    → (graphics ≡ codes "vnc") ⊎ (graphics ≡ codes "spice")
    → Describes c disk_path iso_path drivers_path graphics d
    → find_graphics d.devices.graphics ≡ graphics
unfolding find_graphics
find_graphics-Describes (inl e) t = rw (t.displays, t.display_is, e) refl
find_graphics-Describes (inr e) t = rw (t.displays, t.display_is, e) refl

empty-ne : (s : Bytes) → s ≢ [] → equal s [] ≡ false
unfolding equal
empty-ne [] n = absurd (n refl)
empty-ne (c ∷ s) n = refl

base-nil : base [] ≡ codes "."
unfolding base
base-nil = refl

disk_there :
    (max_vcpu : ℕ) (config : VmConfig) (b : ℕ) (data_dir : Bytes)
    → validate_config max_vcpu config ≡ none
    → disk_path (b ∷ data_dir) config.name ≢ []
disk_there max_vcpu config b data_dir h e =
    (disk-IsFileName config.name (validate_config-Lacks max_vcpu config h)).not_dot
      (sym (base-disk_path max_vcpu config b data_dir h) ∙ ap base e ∙ base-nil)

-- The configuration that is read back from libvirt's description of the machine of an accepted
-- configuration is the configuration, but for the network bridge, which is lost, and for the graphics
-- type, which is the one that was chosen; if the boot file is a plain file name, the data directory
-- is set, and qemu-img gives the disk the size that it was created with.
pub config_from_xml-Describes :
    (max_vcpu : ℕ) (config : VmConfig) (b : ℕ) (data_dir drivers_path graphics : Bytes)
    (qemu_img : QemuImg) (actual : ℤ) (d : Domain)
    → max_vcpu < 2 ^ 64
    → validate_config max_vcpu config ≡ none
    → IsFileName config.boot_file
    → (graphics ≡ codes "vnc") ⊎ (graphics ≡ codes "spice")
    → get_disk_size qemu_img (disk_path (b ∷ data_dir) config.name)
      ≡ some (actual, pos (config.disk_gib * gib))
    → Describes config
        (disk_path (b ∷ data_dir) config.name)
        (iso_path (b ∷ data_dir) config.boot_file)
        drivers_path
        graphics
        d
    → config_from_xml qemu_img (some d)
      ≡ inr (record config { network_bridge = []; graphics_type = graphics }, actual)
unfolding config_from_xml
config_from_xml-Describes max_vcpu config b data_dir drivers_path graphics qemu_img actual d m v f g
      z t =
    let valid = (validate_config_iff max_vcpu config).0 v in
    let iso = iso_path (b ∷ data_dir) config.boot_file in
    let boot : base iso ≡ config.boot_file =
      base-join_path b data_dir (codes "boot_files") config.boot_file f in
    let iso_there : equal iso [] ≡ false =
      empty-ne iso (λ e. f.not_dot (sym boot ∙ ap base e ∙ base-nil)) in
    let there =
      empty-ne (disk_path (b ∷ data_dir) config.name) (disk_there max_vcpu config b data_dir v) in
    let memory =
      memory_mib-IsMemory config.memory_mib d.memory (omega (arith, valid.memory_bounded))
        t.memory in
    let vcpus : config.vcpus % 2 ^ 64 ≡ config.vcpus = omega (arith, valid.vcpus_exist) in
    let disk : (config.disk_gib * gib / gib) % 2 ^ 64 ≡ config.disk_gib =
      omega (arith, valid.disk_bounded) in
    rw (memory, find_disks-Describes t, iso_there, there, z, config_from_xml)
      (rw (t.name, t.vcpus, vcpus, disk, find_disks-Describes t, boot, find_graphics-Describes g t)
        refl)
