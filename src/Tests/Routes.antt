-- ===== src/Tests/Routes.antt =====
-- The routes of a daemon, its downloads and its tunnels at concrete inputs.
use mechanicaldinosaurs.Base.{
  ◌<◌, ◌≤◌, ℕ, ◌+◌, Bytes, codes, concat, equal, ◌≡◌, refl, ◌⊎◌, inr, true, false, Option, none,
  some, List, [], ◌∷◌, ◌++◌, arith,
}
use mechanicaldinosaurs.Base.FilePath.{resolve, render}
use mechanicaldinosaurs.Rpc.{Codec}
use mechanicaldinosaurs.Daemon.Vms.Create.{VmHost, Calls, blank}
use mechanicaldinosaurs.Daemon.Vms.Create.Disks.{iso_path}
use mechanicaldinosaurs.Daemon.Vms.Lifecycle.{
  Libvirt, World, domain_running, and_then, get_vm_status,
}
use mechanicaldinosaurs.Daemon.Vms.Queries.{Descriptions}
use mechanicaldinosaurs.Daemon.Iso.{IsoRequest, Url, Downloads, iso_name}
use mechanicaldinosaurs.Daemon.Iso.Copying.{contents, copy_run, begun, copy_run-removed}
use mechanicaldinosaurs.Daemon.Iso.Paths.{iso_path-inside}
use mechanicaldinosaurs.Daemon.Routes.{
  VmCodecs, VmRequest, VmRoute, list_vms, create_vm, delete_vm, serve_vm,
}
use mechanicaldinosaurs.Daemon.Routes.Operations.{Backend, vm_operations}
use mechanicaldinosaurs.Daemon.Routes.Operations.Connections.{calls-Kept}
use mechanicaldinosaurs.Daemon.Routes.Display.{VmCall, api_call, display_call, serve_calls}
use mechanicaldinosaurs.Daemon.Vms.Queries.Display.{Display}
use mechanicaldinosaurs.Daemon.Shell.{
  WindowSize, Pty, resize, ShellEvent, message, output, shell_ended, handle_terminal,
}
use mechanicaldinosaurs.Daemon.Shell.Interleaved.{Sees, handle_terminal-Sees}
use mechanicaldinosaurs.Daemon.Tunnels.{tunnel_ids}

-- A client that counts its connections; its domains run.
abbrev pub running_domains : Libvirt ℕ
running_domains = record {
  new_connect = λ n. (n + 1, true);
  lookup_domain = λ name n. (n, true);
  create = λ name n. (n, true);
  shutdown = λ name n. (n, true);
  destroy = λ name n. (n, true);
  reboot = λ name n. (n, true);
  set_memory = λ name kib n. (n, true);
  set_vcpus = λ name vcpus n. (n, true);
  undefine_nvram = λ name n. (n, true);
  undefine = λ name n. (n, true);
  get_state = λ name n. (n, some domain_running);
  remove = λ path n. (n, true);
}

abbrev pub no_descriptions : Descriptions ℕ
no_descriptions = record {
  list_domains = λ n. (n, some (codes "1" ∷ codes "2" ∷ []));
  get_name = λ handle n. (n, some handle);
  get_xml = λ handle n. (n, none);
  set_stats_period = λ name n. (n, true);
  memory_stats = λ name n. (n, some []);
}

abbrev pub no_network : Downloads ℕ
no_network = record {
  open_file = λ path n. (n, true);
  http_get = λ url n. (n, false);
  remove = λ path n. n;
  start_copy = λ path n. n;
}

abbrev pub no_vm : VmHost
no_vm = record { disk = none; domain = false; xml_file = false; opened = 0; domains = 0 }

abbrev pub willing : Calls
willing = record {
  boot_file_exists = λ name. true;
  create_disk = λ size disk. (some blank, true);
  write_xml = true;
  connects = true;
  define = λ config. true;
  starts = true;
  undefines = true;
  removes = true;
  port = some 5900;
}

abbrev pub backend : Backend ℕ
backend = record {
  libvirt = running_domains;
  descriptions = no_descriptions;
  qemu_img = record { info = λ path. none; read_info = λ output. none };
  downloads = no_network;
  parse_url = λ url. none;
  read_dir = λ path n. (n, inr []);
  vm_host = λ name n. no_vm;
  put_vm_host = λ name h n. n;
  calls = λ n. willing;
  max_vcpu = 8;
  create_text = λ e. codes "error";
  data_dir = codes "/data";
  arch = codes "amd64";
  vm_text = λ e. codes "error";
  iso_text = λ e. codes "error";
}

-- A coding that reads one request out of every body.
abbrev pub fixed : {Req Res : Type 0} → Req → Codec Req Res
fixed r = record {
  encode_request = λ q. [];
  decode_request = λ body. some r;
  encode_result = λ a. codes "ok";
  decode_result = λ body. none;
  encode_error = λ message. message;
  decode_errors = λ body. none;
  http_error_text = λ status message. message;
  empty_result = none;
}

abbrev pub codecs : VmCodecs
codecs = record {
  nothing = fixed tt;
  machines = fixed tt;
  files = fixed tt;
  machine = fixed tt;
  config = fixed (record {
    name = codes "web-1";
    vcpus = 1;
    memory_mib = 512;
    boot_file = codes "debian-13.0.iso";
    disk_gib = 10;
    network_bridge = [];
    graphics_type = [];
  });
  target = fixed (record { name = codes "web-1" });
  update = fixed (record { name = codes "web-1"; vcpus = 1; memory_mib = 0; storage_gib = 0 });
  iso = fixed (record { url = []; os_name = codes "debian"; version = codes "13.0" });
}

abbrev asking : VmRoute → VmRequest
asking route = record { route = route; query = λ key. codes "web-1"; body = [] }

abbrev pub idle : World ℕ
idle = record { host = 0; opened = 3; domains = 0 }

-- The status of the list, and the connections that were made for it: one, and one for each machine.
list_request :
    ((serve_vm (vm_operations backend) codecs true (asking list_vms) idle).1.status ≡ 200)
    × ((serve_vm (vm_operations backend) codecs true (asking list_vms) idle).0.host ≡ 3)
unfolding serve_vm vm_operations and_then get_vm_status
list_request = (refl, refl)

abbrev no_display : Display ℕ
no_display = record { dial = λ port n. (n, false); copy = λ n. n }

abbrev calls : List VmCall
calls =
    api_call (asking list_vms)
    ∷ display_call (codes "web-1") true
    ∷ api_call (asking create_vm)
    ∷ api_call (asking delete_vm)
    ∷ []

calls-Kept_example :
    let v = (serve_calls backend no_display codecs true calls idle).0 in
    ((v.opened ≡ 3) × (v.domains ≡ 0)) ⊎ ((3 < v.opened) × (v.opened + 0 ≤ v.domains + 3))
calls-Kept_example = calls-Kept backend no_display codecs true calls idle

abbrev pieces : List Bytes
pieces = codes "ab" ∷ codes "cd" ∷ []

copy_run-removed_example : contents (copy_run 1 5 (begun (codes "old") pieces false)) ≡ none
copy_run-removed_example =
    copy_run-removed 1 5 (codes "old") pieces false (omega arith) (omega arith)

abbrev debian : IsoRequest
debian = record { url = []; os_name = codes "debian"; version = codes "13.0" }

abbrev no_url : Bytes → Option Url
no_url url = none

debian_name : iso_name no_url debian [] ≡ inr (codes "debian-13.0.iso")
unfolding iso_name
debian_name = refl

iso_path-inside_example :
    (iso_path (codes "/data") (codes "debian-13.0.iso")
      ≡ render (record {
        rooted = true;
        parts = (resolve (codes "/data/boot_files")).parts ++ codes "debian-13.0.iso" ∷ [];
      }))
    ⊎ ((equal (codes "debian") [] ≡ true)
        × ((codes "debian-13.0.iso" ≡ codes ".") ⊎ (codes "debian-13.0.iso" ≡ codes "..")))
iso_path-inside_example =
    iso_path-inside no_url debian [] (codes "debian-13.0.iso") b'/' (codes "data") debian_name
      (ground arith) (ground arith) (λ u h. ground (arith, h))

-- A message of one byte asks for a size of as many columns and rows.
abbrev one_byte : Bytes → Option WindowSize
one_byte [] = none
one_byte (c ∷ []) = some (record { cols = c; rows = c })
one_byte (c ∷ d ∷ s) = none

abbrev new_pty : Pty
new_pty = record { input = []; size = record { cols = 0; rows = 0 } }

abbrev shell_events : List ShellEvent
shell_events =
    message (some (codes "ls"), 2)
    ∷ output (some (codes "$ ")) true
    ∷ message (some (codes "P"), 1)
    ∷ shell_ended
    ∷ output none true
    ∷ output (some (codes "late")) true
    ∷ message (some (codes "\n\n"), 1)
    ∷ []

-- The shell has ended, and the client has not.
handle_terminal-Sees_example :
    Sees one_byte
      (handle_terminal one_byte true true shell_events new_pty)
      true
      false
      (record { input = codes "ls\n"; size = record { cols = 80; rows = 80 } })
      (codes "$ " ∷ [])
unfolding concat resize
handle_terminal-Sees_example = handle_terminal-Sees one_byte true true shell_events new_pty

tunnel_files :
    tunnel_ids
      ((codes "6ff42ae2.json", false) ∷ (codes "cert.pem", false) ∷ (codes "old.json", true) ∷ [])
    ≡ record { type_ = codes "id"; value = codes "6ff42ae2" } ∷ []
unfolding tunnel_ids equal
tunnel_files = refl
