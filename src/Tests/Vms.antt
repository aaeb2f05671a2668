-- ===== src/Tests/Vms.antt =====
-- The virtual machines of a daemon at concrete inputs.
use mechanicaldinosaurs.Base.{
  ℕ, pos, ◌+◌, ◌≤◌, ◌*◌, ◌/◌, Bytes, codes, ◌≡◌, refl, ◌↔◌, inl, inr, true, false, none, some, [],
  ◌∷◌, ◌++◌, arith,
}
use mechanicaldinosaurs.Base.FilePath.{base, IsFileName, resolve, render, join_path}
use mechanicaldinosaurs.Daemon.Vms.Config.{VmConfig, validate_config}
use mechanicaldinosaurs.Daemon.Vms.Create.Disks.{iso_path, disk_path, disk_path-inside}
use mechanicaldinosaurs.Daemon.Vms.Lifecycle.{give}
use mechanicaldinosaurs.Tests.Routes.{running_domains, no_descriptions}
use mechanicaldinosaurs.Daemon.Vms.Xml.{Domain, Disk, Graphics}
use mechanicaldinosaurs.Daemon.Vms.Queries.{
  QemuImg, get_disk_size, gib, config_from_xml, memory_used, report, Vm,
}
use mechanicaldinosaurs.Daemon.Vms.Queries.Config.{config_from_xml-Describes}
use mechanicaldinosaurs.Daemon.Vms.Queries.Reports.{report_bounds}
use mechanicaldinosaurs.Daemon.Vms.Template.Markup.{
  Inputs, count, text_for, free_markup, build_domain_xml-markup,
}

abbrev web : VmConfig
web = record {
  name = codes "web-1";
  vcpus = 2;
  memory_mib = 2048;
  boot_file = codes "debian.iso";
  disk_gib = 20;
  network_bridge = codes "br0";
  graphics_type = codes "vnc";
}

abbrev db : VmConfig
db = record web { name = codes "db"; vcpus = 4 }

web_accepted : validate_config 8 web ≡ none
unfolding validate_config
web_accepted = refl

db_accepted : validate_config 8 db ≡ none
unfolding validate_config
db_accepted = refl

debian-IsFileName : IsFileName (codes "debian.iso")
debian-IsFileName = record { no_slash = ground arith; not_empty = cc; not_dot = cc; not_dots = cc }

disk_path_web : disk_path (codes "/data") (codes "web-1") ≡ codes "/data/disks/web-1.qcow2"
unfolding join_path
disk_path_web = refl

disk_path-inside_example :
    (disk_path (codes "/data") (codes "web-1")
      ≡ render (record {
        rooted = true;
        parts = (resolve (codes "/data/disks")).parts ++ codes "web-1.qcow2" ∷ [];
      }))
    × ((disk_path (codes "/data") (codes "web-1") ≡ disk_path (codes "/data") (codes "db"))
        ↔ (codes "web-1" ≡ codes "db"))
disk_path-inside_example = disk_path-inside 8 web db b'/' (codes "data") web_accepted db_accepted

abbrev file_disk : Bytes → Bytes → ℕ → Disk
file_disk format source order = record {
  type_ = codes "file";
  device = codes "disk";
  driver = record { name = codes "qemu"; type_ = format; cache = [] };
  source_file = source;
  target = record { dev = codes "sda"; bus = codes "sata" };
  boot_order = pos order;
  read_only = false;
}

abbrev display : Graphics
display = record {
  type_ = codes "vnc";
  port = pos 5900;
  auto_port = codes "yes";
  listen = [];
  listens = [];
}

abbrev web_domain : Domain
web_domain = record {
  type_ = codes "kvm";
  name = codes "web-1";
  memory = record { unit = codes "KiB"; value = pos 2_097_152 };
  current_memory = record { unit = codes "KiB"; value = pos 2_097_152 };
  vcpu = record { placement = codes "static"; value = pos 2 };
  os = record {
    type_ = record { arch = codes "x86_64"; machine = codes "q35"; value = codes "hvm" };
    boot = [];
    boot_menu = codes "yes";
  };
  features = record { acpi = true; apic = true };
  cpu_mode = codes "host-passthrough";
  clock = record { offset = codes "utc"; timers = [] };
  on_poweroff = codes "destroy";
  on_reboot = codes "restart";
  on_crash = codes "destroy";
  devices = record {
    disks =
        file_disk (codes "qcow2") (disk_path (codes "/data") (codes "web-1")) 1
        ∷ file_disk (codes "raw") (iso_path (codes "/data") (codes "debian.iso")) 2
        ∷ file_disk (codes "raw") (codes "/drivers.iso") 0
        ∷ [];
    interfaces = [];
    graphics = display ∷ [];
    video = record { type_ = codes "qxl"; vram = pos 65536 };
    inputs = [];
    channels = [];
    mem_balloon = codes "virtio";
  };
}

abbrev web_image : QemuImg
web_image = record {
  info = λ path. some path;
  read_info = λ output. some (pos (20 * gib), pos 4096);
}

config_from_xml-Describes_example :
    config_from_xml web_image (some web_domain)
    ≡ inr (record web { network_bridge = []; graphics_type = codes "vnc" }, pos 4096)
config_from_xml-Describes_example =
    config_from_xml-Describes 8 web b'/' (codes "data") (codes "/drivers.iso") (codes "vnc")
      web_image (pos 4096) web_domain (omega arith) web_accepted debian-IsFileName (inl refl)
      (unfold get_disk_size in refl)
      (record {
        name = refl;
        vcpus = refl;
        memory = inl (refl, refl);
        primary = file_disk (codes "qcow2") (disk_path (codes "/data") (codes "web-1")) 1;
        iso = file_disk (codes "raw") (iso_path (codes "/data") (codes "debian.iso")) 2;
        drivers = file_disk (codes "raw") (codes "/drivers.iso") 0;
        disks = refl;
        primary_is = record {
          file = refl;
          format_same = refl;
          source_same = refl;
          order_same = refl;
        };
        iso_is = record { file = refl; format_same = refl; source_same = refl; order_same = refl };
        drivers_is = record {
          file = refl;
          format_same = refl;
          source_same = refl;
          order_same = refl;
        };
        display = display;
        displays = refl;
        display_is = refl;
      })

abbrev web_report : Vm
web_report = record {
  config = record web { network_bridge = []; graphics_type = codes "vnc" };
  status = codes "running";
  memory_used_mib = 1536;
  disk_used_gib = 0;
}

report_web :
    (report running_domains no_descriptions web_image
      (codes "running")
      524_288
      (some web_domain)
      (record { host = 0; opened = 1; domains = 0 })).1
    ≡ inr web_report
unfolding report config_from_xml join_path give base
report_web = refl

report_bounds_example : (1536 ≤ 2048) ↔ (524_288 / 1024 ≤ 2048)
report_bounds_example =
    report_bounds running_domains no_descriptions web_image (codes "running") 524_288
      (some web_domain) (record { host = 0; opened = 1; domains = 0 }) web_report (omega arith)
      report_web

-- A guest that reports more unused memory than it was given.
memory_used_wraps : memory_used 1024 2_097_152 ≡ 18_446_744_073_709_550_592
memory_used_wraps = refl

abbrev inputs : VmConfig → Inputs
inputs config = record {
  config = config;
  iso_path = codes "/data/boot_files/debian.iso";
  disk_path = codes "/data/disks/a.qcow2";
  drivers = codes "/drivers.iso";
  graphics = codes "vnc";
}

build_domain_xml-markup_example :
    count b'<' (text_for (codes "amd64") (inputs web)) + free_markup b'<' (inputs db)
    ≡ count b'<' (text_for (codes "amd64") (inputs db)) + free_markup b'<' (inputs web)
build_domain_xml-markup_example =
    build_domain_xml-markup b'<' 8 (codes "amd64") (inputs web) (inputs db) refl web_accepted
      db_accepted
