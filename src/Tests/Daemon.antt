-- ===== src/Tests/Daemon.antt =====
-- The daemon at concrete inputs.
use mechanicaldinosaurs.Base.{
  ℕ, pos, negsuc, ◌+◌, Bytes, codes, equal, has_suffix, ◌==◌, if◌then◌else◌, ◌≡◌, refl, ◌↔◌, ◌⊎◌,
  inl, true, false, none, some, List, [], ◌∷◌,
}
use mechanicaldinosaurs.Daemon.Auth.{
  Auth, Caller, Request, answered, no_authorization, daemon_locked, attempt_message, lock_message,
  serve, serve-expected,
}
use mechanicaldinosaurs.Daemon.Ports.{Connection, Processes, ports_services}
use mechanicaldinosaurs.Daemon.Services.{
  Host, delete_service, effects, perform, run_operation, invalid_name,
}
use mechanicaldinosaurs.Daemon.Services.Names.{IsServiceName, run_operation-IsServiceName}
use mechanicaldinosaurs.Daemon.Vms.Config.{VmConfig, validate_config, IsValid, validate_config_iff}
use mechanicaldinosaurs.Daemon.Vms.Lifecycle.{Libvirt}
use mechanicaldinosaurs.Daemon.Vms.Create.{blank, used, VmHost, Calls, create_vm}
use mechanicaldinosaurs.Daemon.Vms.Create.Leftovers.{create_vm-left}

abbrev local : Caller
local = record { remote_addr = codes "::1"; real_ip = codes "::1"; log_works = true }

abbrev count : Bytes → Request ℕ ℕ
count authorization = record {
  caller = local;
  authorization = authorization;
  next = λ n. (n + 1, n);
}

abbrev requests : List (Request ℕ ℕ)
requests =
    count (codes "Bearer s") ∷ count [] ∷ count (codes "Bearer t") ∷ count (codes "Bearer s") ∷ []

abbrev daemon : Auth
daemon = record { secret = codes "s"; locked = false; log = codes "x" }

serve-expected_example :
    ((serve requests daemon 0).1 ≡ 1)
    × ((serve requests daemon 0).2
        ≡ answered 0 ∷ no_authorization ∷ daemon_locked ∷ daemon_locked ∷ [])
    × ((serve requests daemon 0).0.log
        ≡ codes
            "xlocked by ip ::1, forwarded: ::1. authorization given: Bearer tattempted use during lock from ip ::1, forwarded: ::1")
unfolding equal attempt_message lock_message
serve-expected_example = serve-expected requests daemon 0 refl

abbrev only_sshd : Processes
only_sshd (pos n) = if n == 7 then some (some (codes "sshd"), []) else none
only_sshd (negsuc n) = none

abbrev udp_socket : Connection
udp_socket = record { status = codes "NONE"; type_ = 2; port = 53; pid = pos 9 }

abbrev tcp_client : Connection
tcp_client = record { status = codes "ESTABLISHED"; type_ = 1; port = 40000; pid = pos 7 }

udp_left_out : ports_services only_sshd (udp_socket ∷ tcp_client ∷ []) ≡ (40000, codes "sshd") ∷ []
unfolding ports_services equal
udp_left_out = refl

abbrev obedient : Host
obedient effect = some []

run_operation_traversal :
    run_operation obedient delete_service (codes "../passwd.service") ≡ ([], inl invalid_name)
unfolding run_operation has_suffix
run_operation_traversal = refl

run_operation-IsServiceName_example :
    (IsServiceName (codes "nginx.service")
      × (run_operation obedient delete_service (codes "nginx.service")
          ≡ perform obedient (effects delete_service (codes "nginx.service")) []))
    ⊎ (run_operation obedient delete_service (codes "nginx.service") ≡ ([], inl invalid_name))
run_operation-IsServiceName_example =
    run_operation-IsServiceName obedient delete_service (codes "nginx.service")

abbrev small : VmConfig
small = record {
  name = codes "web-1";
  vcpus = 2;
  memory_mib = 2048;
  boot_file = codes "debian.iso";
  disk_gib = 20;
  network_bridge = codes "br0";
  graphics_type = codes "vnc";
}

validate_config_iff_example : (validate_config 8 small ≡ none) ↔ IsValid 8 small
validate_config_iff_example = validate_config_iff 8 small

-- A client whose domains are all missing.
abbrev no_domains : Libvirt ℕ
no_domains = record {
  new_connect = λ n. (n + 1, true);
  lookup_domain = λ name n. (n + 1, false);
  create = λ name n. (n, true);
  shutdown = λ name n. (n, true);
  destroy = λ name n. (n, true);
  reboot = λ name n. (n, true);
  set_memory = λ name kib n. (n, true);
  set_vcpus = λ name vcpus n. (n, true);
  undefine_nvram = λ name n. (n, true);
  undefine = λ name n. (n, true);
  get_state = λ name n. (n, none);
  remove = λ path n. (n, true);
}

-- A host whose libvirt refuses the name.
abbrev refusing : Calls
refusing = record {
  boot_file_exists = λ name. true;
  create_disk = λ size disk. (some blank, true);
  write_xml = true;
  connects = true;
  define = λ config. false;
  starts = true;
  undefines = true;
  removes = true;
  port = none;
}

abbrev running : VmHost
running = record { disk = some used; domain = true; xml_file = true; opened = 0; domains = 0 }

small_accepted : validate_config 8 small ≡ none
unfolding validate_config
small_accepted = refl

create_vm-left_example :
    ((create_vm refusing 8 small running).0.disk ≡ some blank)
    × (((create_vm refusing 8 small running).0.domain ≡ true)
        × ((create_vm refusing 8 small running).0.opened ≡ 0))
unfolding create_vm validate_config
create_vm-left_example = create_vm-left refusing 8 small running (λ size disk e. refl) refl refl
