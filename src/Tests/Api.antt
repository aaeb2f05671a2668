-- ===== src/Tests/Api.antt =====
-- A call to a daemon at a concrete input.
use mechanicaldinosaurs.Base.{
  ℕ, codes, ◌≡◌, refl, inl, inr, true, false, none, some, [], trim_space,
}
use mechanicaldinosaurs.Rpc.{Codec, call}
use mechanicaldinosaurs.Base.Header.{header_value}
use mechanicaldinosaurs.Daemon.Auth.{Auth}
use mechanicaldinosaurs.Daemon.Routes.{TargetRequest, start_vm}
use mechanicaldinosaurs.Daemon.Routes.Operations.{vm_operations}
use mechanicaldinosaurs.Daemon.Vms.Lifecycle.{World, attempt}
use mechanicaldinosaurs.Daemon.Api.{Host, ApiCodecs, vm, find_route, registered}
use mechanicaldinosaurs.Daemon.Api.Calls.{daemon, api_handler, call-daemon}
use mechanicaldinosaurs.Tests.Routes.{backend, codecs, fixed, idle}

abbrev host : Host (World ℕ) ℕ
host = record {
  server_info = λ w. (w, inl (codes "no info"));
  connections = λ w. (w, inr []);
  processes = λ w pid. none;
  tunnel_host = λ w. record { home = inl []; read_dir = λ dir. none; command = ([], false) };
  operations = vm_operations backend;
  available = true;
}

-- A target is its name, and there is nothing else to read.
abbrev names : Codec TargetRequest (Unit {0})
names = record {
  encode_request = λ r. r.name;
  decode_request = λ body. some (record { name = body });
  encode_result = λ a. codes "{}";
  decode_result = λ body. some tt;
  encode_error = λ message. message;
  decode_errors = λ body. some (some body);
  http_error_text = λ status message. message;
  empty_result = some tt;
}

abbrev api_codecs : ApiCodecs ℕ
api_codecs = record {
  vms = record codecs { target = names };
  info = fixed tt;
  ports = fixed tt;
  tunnels = fixed tt;
}

abbrev unlocked : Auth
unlocked = record { secret = codes "s"; locked = false; log = [] }

call-daemon_example :
    call names
      (λ body.
        (daemon host api_codecs
          (λ method path. find_route method path registered)
          (record { status = 404; body = [] })
          (record { remote_addr = []; real_ip = []; log_works = false })
          unlocked
          idle
          (vm start_vm)
          body).2)
      (record { name = codes "web-1" })
    ≡ inr tt
unfolding vm_operations api_handler attempt
call-daemon_example =
    (call-daemon host api_codecs (λ method path. find_route method path registered)
      (record { status = 404; body = [] })
      (record { remote_addr = []; real_ip = []; log_works = false }) unlocked idle
      (λ method path r e. e) refl (unfold header_value trim_space in refl) (vm start_vm) refl
      (record { name = codes "web-1" }) (record { request = refl; kept = (refl, λ b h. refl) })).0
