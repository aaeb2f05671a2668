-- ===== src/Proxy/Forward.antt =====
-- proxy/proxy.go, `handleConnection`: the first request that is sent to the daemon.
pub mod Answered
use mechanicaldinosaurs.Base.{
  Bytes, codes, equal, has_prefix, if◌then◌else◌, not, ◌&&◌, ◌||◌, ◌⊎◌, inl, inr, Bool, Option,
  none, some, List, [], ◌∷◌, ◌++◌,
}

-- The header of a request: its canonical keys with their values.
abbrev pub Header : Type 0
Header = List (Bytes × List Bytes)

-- `Header.Set`, which puts one value in place of those of the key.
unfoldable pub set_header : Bytes → Bytes → Header → Header
unfolding equal
set_header key value [] = (key, value ∷ []) ∷ []
set_header key value ((k, vs) ∷ header) =
    let rest = set_header key value header in
    if equal k key then (k, value ∷ []) ∷ header else (k, vs) ∷ rest

-- `Header.Get`: the first value, or the empty text.
unfoldable pub get_header : Bytes → Header → Bytes
unfolding equal
get_header key [] = []
get_header key ((k, vs) ∷ header) =
    let rest = get_header key header in
    if equal k key then elim vs [ [] ↦ [] | v ∷ more ↦ v ] else rest

-- What `url.Parse` reads of an address; `opaque_` is `Opaque`, the rest of an address whose rest does
-- not begin with a slash, and `force_query` says that it ends in "?".
pub record Url : Type 0 where
  pub scheme : Bytes
  pub opaque_ : Bytes
  pub raw_path : Bytes
  pub host : Bytes
  pub path : Bytes
  pub force_query : Bool
  pub raw_query : Bytes

pub record HttpRequest : Type 0 where
  pub method : Bytes
  pub url : Url
  pub host : Bytes
  pub request_uri : Bytes
  pub header : Header
  pub body : Bytes

-- The session and its machine, as the query gives them.
pub record Target : Type 0 where
  pub proxy_url : Bytes
  pub hostport : Bytes
  pub secret_key : Bytes
  pub is_http : Bool

pub data ForwardError : Type 0 where
  url_not_parseable request_not_readable request_not_created : ForwardError

-- `url.Parse`, `URL.EscapedPath` on the raw path and the path, `http.ReadRequest` on what the client
-- sends, and `http.NewRequest` for an address.
pub record Http : Type 0 where
  pub escaped_path : Bytes → Bytes → Bytes
  pub parse_url : Bytes → Option Url
  pub read_request : Bytes → Option HttpRequest
  pub new_request : Bytes → Bytes → Option HttpRequest

-- The assignments to the request, which leave `Opaque`, `RawPath` and `ForceQuery` as they were.
unfoldable pub redirected : Target → Url → HttpRequest → HttpRequest
unfolding set_header
redirected t target r = record r {
  url = record {
    scheme = codes "http";
    opaque_ = r.url.opaque_;
    raw_path = r.url.raw_path;
    host = t.hostport;
    path = target.path;
    force_query = r.url.force_query;
    raw_query = target.raw_query;
  };
  host = t.hostport;
  request_uri = [];
  header = set_header (codes "Authorization") (codes "Bearer " ++ t.secret_key) r.header;
}

-- `URL.RequestURI`.
unfoldable pub request_uri_of : Http → Url → Bytes
unfolding equal has_prefix
request_uri_of http u =
    let path = http.escaped_path u.raw_path u.path in
    let query = if u.force_query || not (equal u.raw_query []) then b'?' ∷ u.raw_query else [] in
    if equal u.opaque_ []
    then (if equal path [] then codes "/" else path) ++ query
    else if has_prefix u.opaque_ (codes "//")
    then u.scheme ++ (codes ":" ++ (u.opaque_ ++ query))
    else u.opaque_ ++ query

-- What `req.Write` asks for in the first line.
unfoldable pub written_target : Http → HttpRequest → Bytes
unfolding equal request_uri_of
written_target http r =
    if equal r.method (codes "CONNECT") && equal r.url.path []
    then (if equal r.url.opaque_ [] then r.host else r.url.opaque_)
    else request_uri_of http r.url

-- The request that is written to the daemon, from what the client sends.
unfoldable pub first_request : Http → Target → Bytes → ForwardError ⊎ HttpRequest
unfolding redirected
first_request http t client = elim (http.parse_url t.proxy_url) [
  | none ↦ inl url_not_parseable
  | some target ↦
      if t.is_http
      then elim (http.read_request client) [
        | none ↦ inl request_not_readable
        | some r ↦ inr (redirected t target r)
      ]
      else elim (http.new_request (codes "GET") t.proxy_url) [
        | none ↦ inl request_not_created
        | some r ↦ inr (redirected t target r)
      ]
]
