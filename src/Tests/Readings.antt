-- ===== src/Tests/Readings.antt =====
-- The readings of machines at concrete inputs.
use mechanicaldinosaurs.Base.{
  trim_space, subst, ℕ, zero, suc, ℤ, pos, negsuc, Bytes, codes, equal, join, ok, length, take,
  drop, take-length, drop-length, ◌≡◌, refl, ap, ◌∙◌, inl, inr, Bool, true, false, Option, none,
  some, List, [], ◌∷◌, ◌++◌, arith,
}
use mechanicaldinosaurs.Base.Header.{header_value}
use mechanicaldinosaurs.Daemon.Routes.{plain}
use mechanicaldinosaurs.Rpc.{Codec, Response}
use mechanicaldinosaurs.Rpc.Info.{Info, info_map}
use mechanicaldinosaurs.Rpc.RoundTrip.{IsFaithful}
use mechanicaldinosaurs.Daemon.Auth.{Request, daemon_locked, serve}
use mechanicaldinosaurs.Daemon.Api.{ApiRequest, ApiCodecs, find_route, registered}
use mechanicaldinosaurs.Daemon.Routes.Operations.{vm_operations}
use mechanicaldinosaurs.Daemon.Vms.Lifecycle.{World}
use mechanicaldinosaurs.Engine.Context.{float64_value, map_index, get}
use mechanicaldinosaurs.Engine.Alerts.{Machine, machine_infos}
use mechanicaldinosaurs.Engine.Alerts.Readings.{refresh_context}
use mechanicaldinosaurs.Engine.Refresh.{Node, ask_node, call_machine, refresh-locks}
use mechanicaldinosaurs.Engine.Refresh.Answers.{get-refreshed}
use mechanicaldinosaurs.Tests.Routes.{backend, codecs, fixed, idle}

abbrev pineapple : Machine
pineapple = record {
  name = codes "pineapple";
  hostport = codes "10.0.0.2:8080";
  secret = codes "s";
}

-- A machine whose secret in the table is an old one.
abbrev stale : Machine
stale = record { name = codes "mango"; hostport = codes "10.0.0.3:8080"; secret = codes "t" }

abbrev warm : Info ℤ
warm = record {
  os = codes "linux";
  os_release = codes "13";
  hostname = codes "pineapple";
  uptime = 60;
  cpu = codes "N100";
  cpu_arch = codes "amd64";
  cpu_num = pos 4;
  cpu_usage = pos 12;
  cpu_temp = pos 81;
  memory_capacity = 1024;
  memory_used = 512;
  storage_capacity = 4096;
  storage_used = 1024;
  has_battery = false;
  battery = [];
}

-- A coding of the information: its fields one after the other, each behind its length.
frame : List Bytes → Bytes
frame [] = []
frame (t ∷ ts) = length t ∷ (t ++ frame ts)

unframe : ℕ → Bytes → List Bytes
unframe zero s = []
unframe (suc n) [] = []
unframe (suc n) (k ∷ s) = take k s ∷ unframe n (drop k s)

unframe-frame : (ts : List Bytes) → unframe (length ts) (frame ts) ≡ ts
unfolding frame unframe
unframe-frame [] = refl
unframe-frame (t ∷ ts) =
    rw (take-length t (frame ts), drop-length t (frame ts)) (ap (◌∷◌ t) (unframe-frame ts))

abbrev int_bytes : ℤ → Bytes
int_bytes (pos n) = 0 ∷ n ∷ []
int_bytes (negsuc n) = 1 ∷ n ∷ []

abbrev bytes_int : Bytes → ℤ
bytes_int (zero ∷ n ∷ s) = pos n
bytes_int (suc k ∷ n ∷ s) = negsuc n
bytes_int _ = pos 0

bytes_int-int_bytes : (z : ℤ) → bytes_int (int_bytes z) ≡ z
bytes_int-int_bytes (pos n) = refl
bytes_int-int_bytes (negsuc n) = refl

abbrev bytes_nat : Bytes → ℕ
bytes_nat [] = 0
bytes_nat (n ∷ s) = n

abbrev bool_bytes : Bool → Bytes
bool_bytes false = []
bool_bytes true = 1 ∷ []

abbrev bytes_bool : Bytes → Bool
bytes_bool [] = false
bytes_bool (n ∷ s) = true

bytes_bool-bool_bytes : (b : Bool) → bytes_bool (bool_bytes b) ≡ b
bytes_bool-bool_bytes false = refl
bytes_bool-bool_bytes true = refl

abbrev fields : Info ℤ → List Bytes
fields i =
    i.os
    ∷ i.os_release
    ∷ i.hostname
    ∷ (i.uptime ∷ [])
    ∷ i.cpu
    ∷ i.cpu_arch
    ∷ int_bytes i.cpu_num
    ∷ int_bytes i.cpu_usage
    ∷ int_bytes i.cpu_temp
    ∷ (i.memory_capacity ∷ [])
    ∷ (i.memory_used ∷ [])
    ∷ (i.storage_capacity ∷ [])
    ∷ (i.storage_used ∷ [])
    ∷ bool_bytes i.has_battery
    ∷ i.battery
    ∷ []

abbrev nth : ℕ → List Bytes → Bytes
nth n [] = []
nth zero (t ∷ ts) = t
nth (suc n) (t ∷ ts) = nth n ts

abbrev info_of : List Bytes → Info ℤ
info_of ts = record {
  os = nth 0 ts;
  os_release = nth 1 ts;
  hostname = nth 2 ts;
  uptime = bytes_nat (nth 3 ts);
  cpu = nth 4 ts;
  cpu_arch = nth 5 ts;
  cpu_num = bytes_int (nth 6 ts);
  cpu_usage = bytes_int (nth 7 ts);
  cpu_temp = bytes_int (nth 8 ts);
  memory_capacity = bytes_nat (nth 9 ts);
  memory_used = bytes_nat (nth 10 ts);
  storage_capacity = bytes_nat (nth 11 ts);
  storage_used = bytes_nat (nth 12 ts);
  has_battery = bytes_bool (nth 13 ts);
  battery = nth 14 ts;
}

info_of-fields : (i : Info ℤ) → info_of (fields i) ≡ i
info_of-fields i = ground (
  arith,
  bytes_int-int_bytes i.cpu_num,
  bytes_int-int_bytes i.cpu_usage,
  bytes_int-int_bytes i.cpu_temp,
  bytes_bool-bool_bytes i.has_battery,
)

abbrev info_codec : Codec (Unit {0}) (Info ℤ)
info_codec = record {
  encode_request = λ r. [];
  decode_request = λ body. some tt;
  encode_result = λ i. frame (fields i);
  decode_result = λ body. some (info_of (unframe 15 body));
  encode_error = λ message. message;
  decode_errors = λ body. some (some body);
  http_error_text = λ status message. message;
  empty_result = none;
}

info_codec-IsFaithful : IsFaithful info_codec tt (inr warm)
info_codec-IsFaithful = record {
  request = refl;
  kept = (
    ap (λ ts. some (info_of ts)) (unframe-frame (fields warm)) ∙ ap some (info_of-fields warm),
    λ b h. absurd cc,
  );
}

abbrev info_codecs : ApiCodecs ℤ
info_codecs = record { vms = codecs; info = info_codec; ports = fixed tt; tunnels = fixed tt }

-- The daemons: all read the same, and have one secret.
abbrev daemon : Node (World ℕ) ℤ
daemon = record {
  host = record {
    server_info = λ w. (w, inr warm);
    connections = λ w. (w, inr []);
    processes = λ w pid. none;
    tunnel_host = λ w. record { home = inl []; read_dir = λ dir. none; command = ([], false) };
    operations = vm_operations backend;
    available = true;
  };
  auth = record { secret = codes "s"; locked = false; log = [] };
  state = idle;
  engine = record { remote_addr = []; real_ip = []; log_works = false };
}

abbrev node : Machine → Option (Node (World ℕ) ℤ)
node m = some daemon

abbrev router : Bytes → Bytes → Option ApiRequest
router method path = find_route method path registered

abbrev not_found : Response
not_found = record { status = 404; body = [] }

get-refreshed_example :
    get
      (refresh_context (
        machine_infos (call_machine info_codecs router not_found node) (stale ∷ pineapple ∷ []) []))
      (codes "machines_info.pineapple.cpu_temp")
    ≡ ok (float64_value (pos 81))
unfolding join equal info_map map_index header_value trim_space
get-refreshed_example =
    get-refreshed info_codecs router not_found node (stale ∷ pineapple ∷ []) (codes "pineapple")
      (codes "cpu_temp") (λ method path r e. e)
      (λ m n e.
        subst
          (λ (k : Node (World ℕ) ℤ).
            IsFaithful info_codec tt (plain (k.host.server_info k.state)).1)
          (same e) info_codec-IsFaithful)
      (ground arith) (ground arith)
  where
    same : {a b : Node (World ℕ) ℤ} → some a ≡ some b → a ≡ b
    same e = cc

abbrev owner : Request (World ℕ) Response
owner = record {
  caller = record { remote_addr = []; real_ip = []; log_works = false };
  authorization = codes "Bearer s";
  next = λ w. (w, not_found);
}

refresh-locks_example :
    (serve
      (owner ∷ [])
      (ask_node info_codecs router not_found node daemon (codes "t") []).0
      (ask_node info_codecs router not_found node daemon (codes "t") []).1).2
    ≡ daemon_locked ∷ []
unfolding equal
refresh-locks_example =
    (refresh-locks info_codecs router not_found node daemon (codes "t") b'B' (codes "earer t") []
      (owner ∷ []) refl (unfold header_value trim_space in refl) refl).1
