-- ===== src/Daemon/Vms/Queries.antt =====
-- daemon/vms/vms.go: what a domain's description says of its machine, and the queries over libvirt.
pub mod Config
pub mod Connections
pub mod Display
pub mod Reports
use mechanicaldinosaurs.Base.{
  ℕ, ℤ, pos, negsuc, zero, suc, ◌==◌, ◌+◌, ◌-◌, ◌*◌, ◌/◌, ◌%◌, ◌^◌, Bytes, codes, equal,
  if◌then◌else◌, length, is_positive, ◌⊎◌, inl, inr, Bool, false, ◌&&◌, ◌||◌, Option, none, some,
  List, [], ◌∷◌,
}
use mechanicaldinosaurs.Base.FilePath.{base}
use mechanicaldinosaurs.Daemon.Vms.Config.{VmConfig}
use mechanicaldinosaurs.Daemon.Vms.Xml.{Domain, Memory, Disk, Graphics}
use mechanicaldinosaurs.Daemon.Vms.Lifecycle.{
  Libvirt, World, VmError, connect_failed, stats_failed, list_failed, description_failed,
  config_failed, M, and_then, throw, give, attempt, close, with_domain, get_vm_status,
}

-- `uint(x)` of an int or int64, and the division of an int64, which goes to zero.
abbrev pub to_uint : ℤ → ℕ
to_uint (pos n) = n % 2 ^ 64
to_uint (negsuc n) = 2 ^ 64 - 1 - n % 2 ^ 64

abbrev neg : ℕ → ℤ
neg n = elim n [ zero ↦ pos 0 | suc k ↦ negsuc k ]

abbrev pub quot : ℤ → ℕ → ℤ
quot (pos n) k = pos (n / k)
quot (negsuc n) k = neg (suc n / k)

abbrev pub gib : ℕ
gib = 1024 * 1024 * 1024

pub data QueryError : Type 0 where
  bad_xml missing_disks no_disk_size no_graphics : QueryError
  unexpected_unit : Bytes → QueryError

-- The memory of a domain in MiB, in the arithmetic of uint.
pub memory_mib : Memory → Option ℕ
unfolding equal
memory_mib m =
    if equal m.unit (codes "KiB")
    then some (to_uint m.value / 1024)
    else if equal m.unit (codes "MiB")
    then some (to_uint m.value)
    else if equal m.unit (codes "GiB")
    then some ((to_uint m.value * 1024) % 2 ^ 64)
    else none

abbrev is_boot_iso : Disk → Bool
is_boot_iso d =
    equal d.type_ (codes "file")
    && (equal d.driver.type_ (codes "raw")
        && (elim d.boot_order [ pos n ↦ n == 2 | negsuc n ↦ false ]))

abbrev is_primary : Disk → Bool
is_primary d = equal d.type_ (codes "file") && equal d.driver.type_ (codes "qcow2")

-- The loop over the disks: the sources of `bootISO` and `primaryDisk`, the last of each.
pub find_disks : List Disk → Bytes × Bytes → Bytes × Bytes
unfolding equal
find_disks [] found = found
find_disks (d ∷ ds) found = find_disks ds (
    if is_boot_iso d
    then (d.source_file, found.1)
    else if is_primary d
    then (found.0, d.source_file)
    else found)

pub find_graphics : List Graphics → Bytes
unfolding equal
find_graphics [] = []
find_graphics (g ∷ gs) =
    if equal g.type_ (codes "vnc") || equal g.type_ (codes "spice")
    then g.type_
    else find_graphics gs

-- `qemu-img info` for a path: its output, or none if it fails; and the virtual and the actual size
-- that encoding/json reads from an output, or none if it is no JSON.
pub record QemuImg : Type 0 where
  pub info : Bytes → Option Bytes
  pub read_info : Bytes → Option (ℤ × ℤ)

-- `GetDiskSize`: the actual and the virtual size, or none for an error.
abbrev swapped : ℤ × ℤ → ℤ × ℤ
swapped (virtual, actual) = (actual, virtual)

unfoldable pub get_disk_size : QemuImg → Bytes → Option (ℤ × ℤ)
get_disk_size qemu_img path = elim (qemu_img.info path) [
  | none ↦ none
  | some output ↦ elim (qemu_img.read_info output) [ none ↦ none | some info ↦ some (swapped info) ]
]

-- `GetConfigFromXML` on the description that was read, or none if it is no XML of a domain.
unfoldable pub config_from_xml : QemuImg → Option Domain → QueryError ⊎ (VmConfig × ℤ)
unfolding memory_mib find_disks find_graphics equal get_disk_size
config_from_xml qemu_img none = inl bad_xml
config_from_xml qemu_img (some d) = elim (memory_mib d.memory) [
  | none ↦ inl (unexpected_unit d.memory.unit)
  | some memory ↦
      let found = find_disks d.devices.disks ([], []) in
      if equal found.0 [] || equal found.1 []
      then inl missing_disks
      else elim (get_disk_size qemu_img found.1) [
        | none ↦ inl no_disk_size
        | some (actual, virtual) ↦ inr (
          record {
            name = d.name;
            vcpus = to_uint d.vcpu.value;
            memory_mib = memory;
            boot_file = base found.0;
            disk_gib = to_uint (quot virtual gib);
            network_bridge = [];
            graphics_type = find_graphics d.devices.graphics;
          },
          actual,
        )
      ]
]

-- `vncPortFromXML`.
find_port : List Graphics → QueryError ⊎ ℤ
find_port [] = inl no_graphics
find_port (g ∷ gs) = if is_positive g.port then inr g.port else find_port gs

unfoldable pub vnc_port_from_xml : Option Domain → QueryError ⊎ ℤ
unfolding find_port
vnc_port_from_xml none = inl bad_xml
vnc_port_from_xml (some d) = find_port d.devices.graphics

-- The tags of the memory statistics.
pub data StatTag : Type 0 where
  stat_unused stat_available stat_other : StatTag

-- The loop over the statistics: the last unused memory in KiB.
pub unused_memory : List (StatTag × ℕ) → ℕ → ℕ
unused_memory [] unused = unused
unused_memory ((stat_unused, value) ∷ stats) unused = unused_memory stats value
unused_memory ((_, value) ∷ stats) unused = unused_memory stats unused

-- `server.VM`.
pub record Vm : Type 0 where
  pub config : VmConfig
  pub status : Bytes
  pub memory_used_mib : ℕ
  pub disk_used_gib : ℕ

-- `cfg.MemoryMiB - uint(unusedMemKiB/1024)`, in the arithmetic of uint.
abbrev pub memory_used : ℕ → ℕ → ℕ
memory_used memory unused = (memory + 2 ^ 64 - (unused / 1024) % 2 ^ 64) % 2 ^ 64

-- The calls on a domain, by its name or its handle; `get_xml` gives what encoding/xml reads, or none
-- if that fails.
pub record Descriptions (S : Type 0) : Type 0 where
  pub list_domains : S → S × Option (List Bytes)
  pub get_name : Bytes → S → S × Option Bytes
  pub get_xml : Bytes → S → S × Option (Option Domain)
  pub set_stats_period : Bytes → S → S × Bool
  pub memory_stats : Bytes → S → S × Option (List (StatTag × ℕ))

module _ {S : Type 0} (libvirt : Libvirt S) (descriptions : Descriptions S)
    (qemu_img : QemuImg) where
  open descriptions use {list_domains, get_name, get_xml, set_stats_period, memory_stats}

  -- A call that gives a value, or the error.
  pub ask : {A : Type 0} → (S → S × Option A) → VmError → M S A
  ask call e w =
      let r = call w.host in (record w { host = r.0 }, elim r.1 [ none ↦ inl e | some a ↦ inr a ])

  -- The memory statistics, which are asked for only if the machine runs.
  pub unused_kib : Bytes → Bytes → M S ℕ
  unfolding equal unused_memory ask
  unused_kib name status =
      if equal status (codes "running")
      then and_then (attempt (set_stats_period name) stats_failed) (λ _.
        and_then (ask (memory_stats name) stats_failed) (λ stats. give (unused_memory stats 0)))
      else give 0

  unfoldable pub report : Bytes → ℕ → Option Domain → M S Vm
  unfolding config_from_xml
  report status unused d = elim (config_from_xml qemu_img d) [
    | inl e ↦ throw config_failed
    | inr (config, actual) ↦ give (record {
      config = config;
      status = status;
      memory_used_mib = memory_used config.memory_mib unused;
      disk_used_gib = to_uint (quot actual gib);
    })
  ]

  -- `GetVM` behind the connection and the lookup.
  pub vm_body : Bytes → M S Vm
  unfolding unused_kib report ask
  vm_body name = and_then (get_vm_status libvirt name) (λ status.
      and_then (unused_kib name status)
        (λ unused. and_then (ask (get_xml name) description_failed) (report status unused)))

  unfoldable pub get_vm : Bytes → M S Vm
  unfolding vm_body
  get_vm name = with_domain libvirt name (vm_body name)

  -- One domain of `ListVMs`, which does not ask for the memory.
  pub listed_vm : Bytes → M S Vm
  unfolding report ask
  listed_vm handle = and_then (ask (get_name handle) description_failed) (λ name.
      and_then (get_vm_status libvirt name) (λ status.
        and_then (ask (get_xml handle) description_failed)
          (λ d. and_then (report status 0 d) (λ vm. give (record vm { memory_used_mib = 0 })))))

  abbrev keep : VmError ⊎ Vm → List Vm → List Vm
  keep (inl e) vms = vms
  keep (inr vm) vms = vm ∷ vms

  -- The loop of `ListVMs`: a domain with an error is passed over.
  pub listed_vms : List Bytes → World S → World S × List Vm
  unfolding listed_vm
  listed_vms [] w = (w, [])
  listed_vms (handle ∷ handles) w =
      let r = listed_vm handle w in let rest = listed_vms handles r.0 in (rest.0, keep r.1 rest.1)

  -- A new connection, and the deferred close round the rest, which tells how many domains it has got
  -- from the connection.
  pub with_connection : {A : Type 0} → M S (ℕ × A) → M S A
  unfolding close
  with_connection body w =
      let connected = libvirt.new_connect w.host in
      let r = body (record w { host = connected.0; opened = w.opened + 1 }) in
      if connected.1
      then elim r.1 [ inl e ↦ (close 0 r.0, inl e) | inr (n, a) ↦ (close n r.0, inr a) ]
      else (record w { host = connected.0 }, inl connect_failed)

  -- `ListVMs` behind the connection.
  pub list_body : M S (ℕ × List Vm)
  unfolding listed_vms ask
  list_body = and_then (ask list_domains list_failed) (λ handles. λ w.
      let n = length handles in
      let r = listed_vms handles (record w { domains = w.domains + n }) in (r.0, inr (n, r.1)))

  -- `ListVMs`.
  unfoldable pub list_vms : M S (List Vm)
  unfolding with_connection list_body
  list_vms = with_connection list_body
