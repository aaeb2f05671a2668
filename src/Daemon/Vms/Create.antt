-- ===== src/Daemon/Vms/Create.antt =====
-- daemon/vms/create.go, `CreateVM`: the disk, the domain and what a failure leaves behind.
pub mod Connections
pub mod Disks
pub mod Leftovers
use mechanicaldinosaurs.Base.{
  ℕ, ◌+◌, Bytes, codes, equal, if◌then◌else◌, ◌⊎◌, inl, inr, Bool, true, false, not, ◌&&◌, ◌||◌,
  Option, none, some, [],
}
use mechanicaldinosaurs.Daemon.Vms.Config.{VmConfig, validate_config}

-- An image with nothing written to it, and one of a machine that has run.
pub data Disk : Type 0 where
  blank used : Disk

-- What belongs to the name of the machine: its disk, its domain, and the file with its XML; and the
-- numbers of open connections and of domains that libvirt has given out.
pub record VmHost : Type 0 where
  pub disk : Option Disk
  pub domain : Bool
  pub xml_file : Bool
  pub opened : ℕ
  pub domains : ℕ

-- The calls outside: the boot file, `createDisk` by the size, libvirt's calls, `os.Remove`, and the
-- port of the description of the domain. `define` is given the configuration that the XML is built
-- from.
pub record Calls : Type 0 where
  pub boot_file_exists : Bytes → Bool
  pub create_disk : ℕ → Option Disk → Option Disk × Bool
  pub write_xml : Bool
  pub connects : Bool
  pub define : VmConfig → Bool
  pub starts : Bool
  pub undefines : Bool
  pub removes : Bool
  pub port : Option ℕ

pub data CreateError : Type 0 where
  invalid_config boot_file_missing create_disk_failed invalid_graphics_type : CreateError
  connect_failed define_failed start_failed no_port : CreateError

-- The graphics type of the XML, or none if it is refused.
pub graphics_of : Bytes → Option Bytes
unfolding equal
graphics_of graphics =
    if equal graphics []
    then some (codes "spice")
    else if not (equal graphics (codes "spice")) && not (equal graphics (codes "vnc"))
    then none
    else some graphics

module _ (calls : Calls) where
  open calls use {
    boot_file_exists, create_disk, write_xml, connects, define, starts, undefines, removes, port,
  }

  -- From the start of the domain on: a domain that does not start is undefined and its disk removed,
  -- and the results of both calls are not looked at.
  start_domain : VmHost → VmHost × (CreateError ⊎ ℕ)
  start_domain h =
      if not starts
      then (
        record h {
          domain = if undefines then false else h.domain;
          disk = if removes then none else h.disk;
        },
        inl start_failed,
      )
      else elim port [ none ↦ (h, inl no_port) | some n ↦ (h, inr n) ]

  -- From the connection to libvirt on. The deferred close leaves the connection open once a domain is
  -- defined, since the domain is never freed.
  define_domain : VmConfig → VmHost → VmHost × (CreateError ⊎ ℕ)
  unfolding start_domain
  define_domain config h =
      let written = record h { xml_file = write_xml || h.xml_file } in
      let defined = record written {
        domain = true;
        opened = h.opened + 1;
        domains = h.domains + 1;
      } in
      if not connects
      then (h, inl connect_failed)
      else if not (define config)
      then (written, inl define_failed)
      else start_domain defined

  -- `CreateVM`, with the number of processors of the host.
  unfoldable pub create_vm : ℕ → VmConfig → VmHost → VmHost × (CreateError ⊎ ℕ)
  unfolding define_domain graphics_of
  create_vm max_vcpu config h =
      let created = create_disk config.disk_gib h.disk in
      let with_disk = record h { disk = created.0 } in
      elim (validate_config max_vcpu config) [
        | some e ↦ (h, inl invalid_config)
        | none ↦
            if not (boot_file_exists config.boot_file)
            then (h, inl boot_file_missing)
            else if not created.1
            then (with_disk, inl create_disk_failed)
            else elim (graphics_of config.graphics_type) [
              | none ↦ (with_disk, inl invalid_graphics_type)
              | some graphics ↦ define_domain (record config { graphics_type = graphics }) with_disk
            ]
      ]
