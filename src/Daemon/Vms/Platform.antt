-- ===== src/Daemon/Vms/Platform.antt =====
-- daemon/vms/vms.go, `Available`: whether a host can run virtual machines.
use mechanicaldinosaurs.Base.{
  Bytes, codes, equal, contains, if◌then◌else◌, Bool, false, not, ◌&&◌, ◌||◌, Option, none, some,
  List, [], ◌∷◌,
}

-- `Available`, on what it reads: the architecture, the text of /proc/cpuinfo, whether /dev/kvm is
-- there, whether libvirt can be connected, and the directory of drivers, each with whether it is a
-- directory.
pub record Platform : Type 0 where
  pub arch : Bytes
  pub cpuinfo : Option Bytes
  pub has_kvm : Bool
  pub connects : Bool
  pub drivers : Option (List (Bytes × Bool))

has_driver : Bytes → List (Bytes × Bool) → Bool
unfolding equal
has_driver name [] = false
has_driver name ((n, is_dir) ∷ entries) = (not is_dir && equal n name) || has_driver name entries

supports_virtualization : Platform → Bool
unfolding equal contains
supports_virtualization p =
    if equal p.arch (codes "amd64")
    then elim p.cpuinfo [
      | none ↦ false
      | some text ↦ contains text (codes "vmx") || contains text (codes "svm")
    ]
    else equal p.arch (codes "arm64")

unfoldable pub is_available : Platform → Bool
unfolding supports_virtualization has_driver
is_available p =
    supports_virtualization p
    && (p.has_kvm
        && (p.connects && elim p.drivers [
          | none ↦ false
          | some entries ↦ has_driver (codes "virtio-win.iso") entries
        ]))
