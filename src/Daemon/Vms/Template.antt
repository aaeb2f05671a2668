-- ===== src/Daemon/Vms/Template.antt =====
-- daemon/vms/create.go, `buildDomainXML`: the text of a domain, from a format whose verbs stand
-- between the segments below.
pub mod Markup
pub mod Numbers
use mechanicaldinosaurs.Base.{
  ℕ, zero, suc, ◌+◌, ◌/◌, ◌%◌, Bytes, codes, concat, equal, ltb, if◌then◌else◌, List, [], ◌∷◌, ◌++◌,
}
use mechanicaldinosaurs.Daemon.Vms.Config.{VmConfig}

-- `fmt.Sprintf` for a format with one verb between each two segments and a text for each verb.
unfoldable pub sprintf : List Bytes → List Bytes → Bytes
sprintf [] args = []
sprintf (s ∷ segments) [] = s
sprintf (s ∷ segments) (a ∷ args) = s ++ (a ++ sprintf segments args)

-- "%d" of a uint; the fuel is more than the number of digits.
pub decimal_from : ℕ → ℕ → Bytes → Bytes
decimal_from zero n out = out
decimal_from (suc fuel) n out =
    let digits = (b'0' + n % 10) ∷ out in
    let rest = decimal_from fuel (n / 10) digits in if ltb n 10 then digits else rest

unfoldable pub decimal : ℕ → Bytes
unfolding decimal_from
decimal n = decimal_from (suc n) n []

start_segment : Bytes
start_segment = codes "\n<domain type='kvm'>\n  <name>"

memory_segment : Bytes
memory_segment = codes "</name>\n  <memory unit='MiB'>"

current_memory_segment : Bytes
current_memory_segment = codes "</memory>\n  <currentMemory unit='MiB'>"

vcpu_segment : Bytes
vcpu_segment = codes "</currentMemory>\n  <vcpu placement='static'>"

arch_segment : Bytes
arch_segment = codes "</vcpu>\n\n  <os>\n    <type arch='"

machine_segment : Bytes
machine_segment = codes "' machine='"

firmware_segment : Bytes
firmware_segment = codes "'>hvm</type>\n\t"

features_segment : Bytes
features_segment = concat (
    codes "\n    <bootmenu enable='yes'/>\n  </os>\n\n  <features>\n"
    ∷ codes "    <acpi/>  <!-- lets the guest OS respond to shutdown signals -->\n\t"
    ∷ [])

devices_segment : Bytes
devices_segment = concat (
    codes "\n  </features>\n\n"
    ∷ codes "  <cpu mode='host-passthrough'/>  <!-- best performance; guest sees real CPU -->\n"
    ∷ codes "\n  <clock offset='utc'>\n    <timer name='rtc' tickpolicy='catchup'/>\n"
    ∷ codes "    <timer name='pit' tickpolicy='delay'/>\n"
    ∷ codes "    <timer name='hpet' present='no'/>\n  </clock>\n\n"
    ∷ codes "  <on_poweroff>destroy</on_poweroff>\n  <on_reboot>restart</on_reboot>\n"
    ∷ codes "  <on_crash>destroy</on_crash>\n\n  <devices>\n"
    ∷ codes "\t<controller type='usb' index='0' model='qemu-xhci'>\n    </controller>\n"
    ∷ codes "\t<input type='keyboard' bus='usb'/>\n\t<input type='mouse' bus='usb'/>\n"
    ∷ codes "\n    <!-- Primary disk (persistent, writable) -->\n"
    ∷ codes "    <disk type='file' device='disk'>\n"
    ∷ codes "      <driver name='qemu' type='qcow2' cache='writeback'/>\n"
    ∷ codes "      <source file='"
    ∷ [])

disk_target_segment : Bytes
disk_target_segment = codes "'/>\n      <target dev='"

disk_bus_segment : Bytes
disk_bus_segment = codes "a' bus='"

boot_disk_segment : Bytes
boot_disk_segment = concat (
    codes "'/>\n\t  <boot order='1'/>\n    </disk>\n\n    <!-- Boot ISO -->\n"
    ∷ codes "    <disk type='file' device='"
    ∷ [])

boot_source_segment : Bytes
boot_source_segment = codes "'>\n      <driver name='qemu' type='raw'/>\n      <source file='"

boot_target_segment : Bytes
boot_target_segment = codes "'/>\n      <target dev='"

boot_bus_segment : Bytes
boot_bus_segment = codes "b' bus='"

drivers_segment : Bytes
drivers_segment = concat (
    codes "'/>\n      <readonly/>\n\t  <boot order='2'/>\n    </disk>\n\n"
    ∷ codes "\t<!-- Virtio Windows Drivers -->\n\t<disk type='file' device='cdrom'>\n"
    ∷ codes "  \t\t<driver name='qemu' type='raw'/>\n  \t\t<source file='"
    ∷ [])

graphics_segment : Bytes
graphics_segment = concat (
    codes "'/>\n  \t\t<target dev='sdc' bus='sata'/>\n  \t\t<readonly/>\n\t</disk>\n"
    ∷ codes "\n    <!-- Networking via NAT bridge -->\n    <interface type='network'>\n"
    ∷ codes "      <source network='default'/>\n      <model type='virtio'/>\n"
    ∷ codes "    </interface>\n\n    <graphics type='"
    ∷ [])

end_segment : Bytes
end_segment = concat (
    codes "' autoport='yes'>\n      <listen type='address' address='127.0.0.1'/>\n"
    ∷ codes "\t  <image compression='off'/>\n    </graphics>\n\t<sound model='ich9'/>\n"
    ∷ codes "    <video>\n"
    ∷ codes "      <model type='virtio' vram='16384'/>  <!-- vga is broadly compatible -->\n"
    ∷ codes "    </video>\n\n"
    ∷ codes "    <!-- tablet input fixes mouse cursor alignment in VNC -->\n"
    ∷ codes "    <input type='tablet' bus='usb'/>\n\n"
    ∷ codes "    <!-- guest agent channel for graceful shutdown -->\n"
    ∷ codes "    <channel type='unix'>\n"
    ∷ codes "      <target type='virtio' name='org.qemu.guest_agent.0'/>\n"
    ∷ codes "    </channel>\n\n"
    ∷ codes "    <memballoon model='virtio'/>  <!-- allows runtime memory adjustment -->\n"
    ∷ codes "  </devices>\n</domain>"
    ∷ [])

arm_firmware : Bytes
arm_firmware = concat (
    codes "<loader readonly='yes' type='pflash'>/usr/share/AAVMF/AAVMF_CODE.fd</loader>\n"
    ∷ codes
        "  \t<nvram template='/usr/share/AAVMF/AAVMF_VARS.fd'>/var/lib/libvirt/qemu/nvram/yogurt_VARS.fd</nvram>"
    ∷ [])

-- What differs by the architecture of the host.
pub record Machine : Type 0 where
  pub libvirt_arch : Bytes
  pub machine_type : Bytes
  pub firmware : Bytes
  pub extra_features : Bytes
  pub disk_dev_prefix : Bytes
  pub disk_bus : Bytes
  pub boot_disk_device : Bytes

abbrev libvirt_arch_of : Bytes → Bytes
libvirt_arch_of arch =
    if equal arch (codes "amd64")
    then codes "x86_64"
    else if equal arch (codes "arm64")
    then codes "aarch64"
    else []

abbrev machine_type_of : Bytes → Bytes
machine_type_of arch =
    if equal arch (codes "amd64")
    then codes "q35"
    else if equal arch (codes "arm64")
    then codes "virt"
    else []

unfoldable pub machine_of : Bytes → Machine
unfolding equal arm_firmware concat
machine_of arch =
    if equal arch (codes "arm64")
    then record {
      libvirt_arch = libvirt_arch_of arch;
      machine_type = machine_type_of arch;
      firmware = arm_firmware;
      extra_features = codes "<gic version='2'/>";
      disk_dev_prefix = codes "vd";
      disk_bus = codes "virtio";
      boot_disk_device = codes "disk";
    }
    else record {
      libvirt_arch = libvirt_arch_of arch;
      machine_type = machine_type_of arch;
      firmware = [];
      extra_features = codes "<apic/>";
      disk_dev_prefix = codes "sd";
      disk_bus = codes "sata";
      boot_disk_device = codes "cdrom";
    }

pub segments : List Bytes
segments =
    start_segment ∷ memory_segment ∷ current_memory_segment ∷ vcpu_segment ∷ arch_segment
    ∷ machine_segment ∷ firmware_segment ∷ features_segment ∷ devices_segment ∷ disk_target_segment
    ∷ disk_bus_segment ∷ boot_disk_segment ∷ boot_source_segment ∷ boot_target_segment
    ∷ boot_bus_segment ∷ drivers_segment ∷ graphics_segment ∷ end_segment ∷ []

-- The texts for the verbs, in their order; `drivers` is the path of the Windows drivers.
unfoldable pub arguments : Machine → VmConfig → Bytes → Bytes → Bytes → Bytes → List Bytes
unfolding decimal
arguments m c iso_path disk_path drivers graphics =
    c.name
    ∷ decimal c.memory_mib
    ∷ decimal c.memory_mib
    ∷ decimal c.vcpus
    ∷ m.libvirt_arch
    ∷ m.machine_type
    ∷ m.firmware
    ∷ m.extra_features
    ∷ disk_path
    ∷ m.disk_dev_prefix
    ∷ m.disk_bus
    ∷ m.boot_disk_device
    ∷ iso_path
    ∷ m.disk_dev_prefix
    ∷ m.disk_bus
    ∷ drivers
    ∷ graphics
    ∷ []

pub build_domain_xml : Bytes → VmConfig → Bytes → Bytes → Bytes → Bytes → Bytes
build_domain_xml arch c iso_path disk_path drivers graphics =
    sprintf segments (arguments (machine_of arch) c iso_path disk_path drivers graphics)
