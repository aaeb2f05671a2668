-- ===== src/Tests/Proxy.antt =====
-- The proxy at concrete inputs.
use mechanicaldinosaurs.Base.{
  trim_space, ℕ, zero, suc, ◌+◌, ◌≤◌, Bytes, codes, equal, ◌++◌, ◌≡◌, refl, true, false, none, some,
  [], ◌∷◌, arith,
}
use mechanicaldinosaurs.Proxy.{
  Session, Table, newest_unclaimed, State, selected, forwarding, holding, select, claim, register,
  Steps, stay, then_step, initial, read_disconnect, with_connection, with_registered, with_table,
  claim_rows,
}
use mechanicaldinosaurs.Base.Header.{header_value}
use mechanicaldinosaurs.Daemon.Auth.{Auth, Caller, answered, middleware}
use mechanicaldinosaurs.Proxy.Forward.{
  Url, HttpRequest, Target, Http, set_header, get_header, redirected, written_target, first_request,
}
use mechanicaldinosaurs.Proxy.Forward.Answered.{first_request-answered}
use mechanicaldinosaurs.Proxy.Channels.{Steps-sends}
use mechanicaldinosaurs.Proxy.Claims.{two_claims}
use mechanicaldinosaurs.Proxy.Registered.{disconnect-closes}
use mechanicaldinosaurs.Proxy.Start.{start_proxy}

abbrev old : Session
old = record { session_id = codes "s1"; created_at = 10; claimed = false }

abbrev recent : Session
recent = record { session_id = codes "s2"; created_at = 20; claimed = false }

abbrev taken : Session
taken = record { session_id = codes "s3"; created_at = 30; claimed = true }

abbrev sessions : Table
sessions = old ∷ recent ∷ taken ∷ []

-- The states of the first connection, over a table whose newest session has the id.
abbrev selecting : Table → Bytes → State
selecting rows id =
    with_connection 0 (record ((initial rows).connections 0) { phase = selected; session = id })
      (initial rows)

abbrev claiming : Table → Bytes → State
claiming rows id = with_table (claim_rows id rows) (
    with_connection 0 (record ((selecting rows id).connections 0) { phase = holding })
      (selecting rows id))

abbrev registering : Table → Bytes → State
registering rows id = with_registered id (some 0) (
    with_connection 0 (record ((claiming rows id).connections 0) { phase = forwarding; copies = 2 })
      (claiming rows id))

session_forwarded :
    (rows : Table) (r : Session)
    → newest_unclaimed rows ≡ some r
    → Steps (initial rows) (registering rows r.session_id)
session_forwarded rows r n =
    then_step
      (then_step (then_step (stay (initial rows)) (select (initial rows) 0 r refl n))
        (claim (selecting rows r.session_id) 0 refl))
      (register (claiming rows r.session_id) 0 refl)

abbrev forwarding_s2 : State
forwarding_s2 = registering sessions (codes "s2")

Steps-sends_example :
    (forwarding_s2.connections 0).sends
      + (forwarding_s2.connections 0).copies
      + (forwarding_s2.connections 0).pending
    ≤ 3
Steps-sends_example =
    Steps-sends sessions 0 (session_forwarded sessions recent (unfold newest_unclaimed in refl))

two_claims_example :
    (t : State) × (Steps (initial sessions) t
      × (((t.connections 0).phase ≡ holding)
          × (((t.connections 1).phase ≡ holding)
              × (((t.connections 0).session ≡ codes "s2")
                  × ((t.connections 1).session ≡ codes "s2")))))
two_claims_example =
    two_claims (initial sessions) 0 1 recent (omega arith) refl refl
      (unfold newest_unclaimed in refl)

abbrev repeated : ℕ → ℕ → Bytes
repeated b zero = []
repeated b (suc n) = b ∷ repeated b n

abbrev key : Bytes
key = repeated b'k' 128

abbrev session : Bytes
session = repeated b's' 36

abbrev one_session : Session
one_session = record { session_id = session; created_at = 10; claimed = false }

abbrev forwarding_one : State
forwarding_one = registering (one_session ∷ []) session

disconnect-closes_example : read_disconnect key (key ++ (session ++ [])) ≡ some session
disconnect-closes_example =
    (disconnect-closes key session [] true true true (one_session ∷ []) forwarding_one 0
      (unfold start_proxy in refl) refl
      (session_forwarded (one_session ∷ []) one_session (unfold newest_unclaimed in refl))
      (unfold equal in refl)).0

-- A client that asks for another page, with an authorization of its own.
abbrev client_request : HttpRequest
client_request = record {
  method = codes "GET";
  url = record {
    scheme = [];
    opaque_ = [];
    raw_path = [];
    host = [];
    path = codes "/api/vms/delete";
    force_query = false;
    raw_query = [];
  };
  host = codes "proxy";
  request_uri = codes "/api/vms/delete";
  header = (codes "Authorization", codes "Basic x" ∷ []) ∷ [];
  body = [];
}

abbrev shell_url : Url
shell_url = record {
  scheme = codes "http";
  opaque_ = [];
  raw_path = [];
  host = codes "10.0.0.2:8080";
  path = codes "/api/shell";
  force_query = false;
  raw_query = codes "a=1";
}

abbrev http : Http
http = record {
  escaped_path = λ raw path. path;
  parse_url = λ s. some shell_url;
  read_request = λ s. some client_request;
  new_request = λ method url. none;
}

abbrev shell_target : Target
shell_target = record {
  proxy_url = codes "http://10.0.0.2:8080/api/shell?a=1";
  hostport = codes "10.0.0.2:8080";
  secret_key = codes "s";
  is_http = true;
}

abbrev forwarded : HttpRequest
forwarded = redirected shell_target shell_url client_request

abbrev nobody : Caller
nobody = record { remote_addr = []; real_ip = []; log_works = false }

abbrev unlocked : Auth
unlocked = record { secret = codes "s"; locked = false; log = [] }

first_request-answered_example :
    (middleware (λ (n : ℕ). (n + 1, n)) nobody (codes "Bearer s") unlocked 0
      ≡ (unlocked, 1, answered 0))
    × (written_target http forwarded ≡ codes "/api/shell?a=1")
unfolding redirected equal
first_request-answered_example =
    first_request-answered http shell_target (codes "GET /api/vms/delete") shell_url forwarded
      (λ (n : ℕ). (n + 1, n)) nobody unlocked 0 (codes "Bearer s") refl
      (unfold first_request redirected in refl) refl refl refl refl
      (unfold header_value trim_space in refl)
      (unfold get_header set_header header_value trim_space in refl)
