-- ===== src/Proxy/Start.antt =====
-- proxy/proxy.go, `main`: the start of the proxy.
use mechanicaldinosaurs.Base.{Bytes, ◌==◌, if◌then◌else◌, length, Bool, not, ◌≡◌, arith}

-- `log.Fatalf`, by the step that failed; or the two loops that accept, which never end.
pub data Start : Type 0 where
  bad_secret no_database no_listener no_disconnect_listener : Start
  accepting : Start

-- `main`, where the database is reached or not, and each of the ports can be listened on or not.
unfoldable pub start_proxy : Bytes → Bool → Bool → Bool → Start
start_proxy secret connects listens listens_disconnect =
    if not (length secret == 128)
    then bad_secret
    else if not connects
    then no_database
    else if not listens
    then no_listener
    else if not listens_disconnect
    then no_disconnect_listener
    else accepting

-- A proxy that runs has a secret of 128 bytes.
pub accepting-length :
    (secret : Bytes) (connects listens listens_disconnect : Bool)
    → start_proxy secret connects listens listens_disconnect ≡ accepting
    → length secret ≡ 128
unfolding start_proxy
accepting-length secret connects listens listens_disconnect h = ground arith
