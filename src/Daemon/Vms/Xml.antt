-- ===== src/Daemon/Vms/Xml.antt =====
-- daemon/vms/xml.go: the description of a domain, as encoding/xml reads it. A pointer to an empty
-- struct says whether the element is there.
use mechanicaldinosaurs.Base.{ℤ, Bytes, Bool, List}

pub record Memory : Type 0 where
  pub unit : Bytes
  pub value : ℤ

pub record Vcpu : Type 0 where
  pub placement : Bytes
  pub value : ℤ

pub record OsType : Type 0 where
  pub arch : Bytes
  pub machine : Bytes
  pub value : Bytes

pub record Os : Type 0 where
  pub type_ : OsType
  pub boot : List Bytes
  pub boot_menu : Bytes

pub record Features : Type 0 where
  pub acpi : Bool
  pub apic : Bool

pub record Timer : Type 0 where
  pub name : Bytes
  pub tick_policy : Bytes
  pub present : Bytes

pub record Clock : Type 0 where
  pub offset : Bytes
  pub timers : List Timer

pub record DiskDriver : Type 0 where
  pub name : Bytes
  pub type_ : Bytes
  pub cache : Bytes

pub record DiskTarget : Type 0 where
  pub dev : Bytes
  pub bus : Bytes

pub record Disk : Type 0 where
  pub type_ : Bytes
  pub device : Bytes
  pub driver : DiskDriver
  pub source_file : Bytes
  pub target : DiskTarget
  pub boot_order : ℤ
  pub read_only : Bool

pub record Interface : Type 0 where
  pub type_ : Bytes
  pub source_network : Bytes
  pub model_type : Bytes

pub record GraphicListen : Type 0 where
  pub type_ : Bytes
  pub address : Bytes

pub record Graphics : Type 0 where
  pub type_ : Bytes
  pub port : ℤ
  pub auto_port : Bytes
  pub listen : Bytes
  pub listens : List GraphicListen

pub record VideoModel : Type 0 where
  pub type_ : Bytes
  pub vram : ℤ

pub record Input : Type 0 where
  pub type_ : Bytes
  pub bus : Bytes

pub record Channel : Type 0 where
  pub type_ : Bytes
  pub target_type : Bytes
  pub target_name : Bytes

pub record Devices : Type 0 where
  pub disks : List Disk
  pub interfaces : List Interface
  pub graphics : List Graphics
  pub video : VideoModel
  pub inputs : List Input
  pub channels : List Channel
  pub mem_balloon : Bytes

pub record Domain : Type 0 where
  pub type_ : Bytes
  pub name : Bytes
  pub memory : Memory
  pub current_memory : Memory
  pub vcpu : Vcpu
  pub os : Os
  pub features : Features
  pub cpu_mode : Bytes
  pub clock : Clock
  pub on_poweroff : Bytes
  pub on_reboot : Bytes
  pub on_crash : Bytes
  pub devices : Devices
