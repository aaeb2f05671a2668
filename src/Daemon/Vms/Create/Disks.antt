-- ===== src/Daemon/Vms/Create/Disks.antt =====
-- daemon/vms/create.go, `CreateVM`: the paths of the boot file and of the disk of a machine.
use mathlib.Core.List.{append_cancel_right}
use mechanicaldinosaurs.Base.{
  ℕ, ◌≢◌, ◌↔◌, Bytes, codes, Lacks, ◌≡◌, sym, ap, ◌∙◌, length-append, none, [], ◌∷◌, ◌++◌, arith,
  All-append,
}
use mechanicaldinosaurs.Base.FilePath.{is_abs, resolve, render, join_path, base, IsFileName}
use mechanicaldinosaurs.Base.FilePath.Names.{resolve-join_path, base-join_path, long-IsFileName}
use mechanicaldinosaurs.Daemon.Vms.Config.{VmConfig, validate_config, validate_config-Lacks}

-- The path of the boot file, in the data directory.
abbrev pub iso_path : Bytes → Bytes → Bytes
iso_path data_dir boot_file = join_path (data_dir ∷ codes "boot_files" ∷ boot_file ∷ [])

-- The path of the disk of a machine, in the data directory.
abbrev pub disk_path : Bytes → Bytes → Bytes
disk_path data_dir name = join_path (data_dir ∷ codes "disks" ∷ (name ++ codes ".qcow2") ∷ [])

pub disk-IsFileName : (name : Bytes) → Lacks b'/' name → IsFileName (name ++ codes ".qcow2")
disk-IsFileName name l =
    long-IsFileName (name ++ codes ".qcow2")
      (All-append (λ c. c ≢ b'/') name (codes ".qcow2") l (ground arith))
      (omega (arith, length-append name (codes ".qcow2")))

pub base-disk_path :
    (max_vcpu : ℕ) (config : VmConfig) (c : ℕ) (data_dir : Bytes)
    → validate_config max_vcpu config ≡ none
    → base (disk_path (c ∷ data_dir) config.name) ≡ config.name ++ codes ".qcow2"
base-disk_path max_vcpu config c data_dir h =
    base-join_path c data_dir (codes "disks") _
      (disk-IsFileName config.name (validate_config-Lacks max_vcpu config h))

-- The disk of an accepted configuration is directly in the directory of the disks, which its name
-- cannot leave, and two accepted configurations have the same disk just if they have the same name; if
-- the data directory is set.
pub disk_path-inside :
    (max_vcpu : ℕ) (config other : VmConfig) (c : ℕ) (data_dir : Bytes)
    → validate_config max_vcpu config ≡ none
    → validate_config max_vcpu other ≡ none
    → (disk_path (c ∷ data_dir) config.name
        ≡ render (record {
          rooted = is_abs (c ∷ data_dir);
          parts =
              (resolve ((c ∷ data_dir) ++ codes "/disks")).parts
              ++ (config.name ++ codes ".qcow2") ∷ [];
        }))
      × ((disk_path (c ∷ data_dir) config.name ≡ disk_path (c ∷ data_dir) other.name)
          ↔ (config.name ≡ other.name))
disk_path-inside max_vcpu config other c data_dir h k = (
  resolve-join_path c data_dir (codes "disks") _
      (disk-IsFileName config.name (validate_config-Lacks max_vcpu config h)),
  (
    λ e. append_cancel_right config.name other.name (codes ".qcow2") (
        sym (base-disk_path max_vcpu config c data_dir h)
        ∙ ap base e
        ∙ base-disk_path max_vcpu other c data_dir k),
    λ e. ap (disk_path (c ∷ data_dir)) e,
  ),
)
