-- ===== src/Proxy/Forward/Answered.antt =====
-- proxy/proxy.go and daemon/auth.go together: the first request of a client at the daemon.
use mechanicaldinosaurs.Base.{
  Bool, ◌&&◌, ◌||◌, not, true, if◌then◌else◌, Bytes, codes, equal, equal_self, Bool-cases,
  Option-cases, ◌≡◌, refl, sym, ap, ◌∙◌, inl, inr, false, some, [], ◌∷◌, ◌++◌, arith,
}
use mechanicaldinosaurs.Base.Header.{header_value, ArrivesWhole}
use mechanicaldinosaurs.Daemon.Auth.{Auth, Caller, answered, middleware}
use mechanicaldinosaurs.Proxy.Forward.{
  Header, set_header, get_header, Url, HttpRequest, Target, Http, redirected, request_uri_of,
  written_target, first_request,
}

get_header-set_header :
    (key value : Bytes) (header : Header) → get_header key (set_header key value header) ≡ value
unfolding get_header set_header
get_header-set_header key value [] = rw (get_header, equal_self key) refl
get_header-set_header key value ((k, vs) ∷ header) = elim (Bool-cases (equal k key)) [
  | inl e ↦ rw (e, get_header) (rw e refl)
  | inr e ↦ rw (e, get_header) (rw e (get_header-set_header key value header))
]

-- What the daemon's middleware makes of an authorization with its own secret.
middleware-secret :
    {S A : Type 0} (next : S → S × A) (caller : Caller) (auth : Auth) (s : S)
    → auth.locked ≡ false
    → middleware next caller (codes "Bearer " ++ auth.secret) auth s
      ≡ (auth, (next s).0, answered (next s).1)
unfolding middleware equal
middleware-secret next caller auth s l = ground (arith, equal_self (codes "Bearer " ++ auth.secret))

redirected_of :
    (http : Http) (t : Target) (client : Bytes) (u : Url) (r : HttpRequest)
    → http.parse_url t.proxy_url ≡ some u
    → first_request http t client ≡ inr r
    → (q : HttpRequest) × (redirected t u q ≡ r)
unfolding first_request
redirected_of http t client u r p h = elim (Bool-cases t.is_http) [
  | inl b ↦ elim (Option-cases (http.read_request client)) [
    | inl n ↦ absurd (ground (arith, rw (first_request, p, b, n) at h))
    | inr (q, n) ↦ (q, ground (arith, rw (first_request, p, b, n) at h))
  ]
  | inr b ↦ elim (Option-cases (http.new_request (codes "GET") t.proxy_url)) [
    | inl n ↦ absurd (ground (arith, rw (first_request, p, b, n) at h))
    | inr (q, n) ↦ (q, ground (arith, rw (first_request, p, b, n) at h))
  ]
]

-- The address of the session's path, in its escaped form, and query.
abbrev pub asked_target : Http → Bytes → Bool → Url → Bytes
asked_target http raw force u =
    let path = http.escaped_path raw u.path in
    (if equal path [] then codes "/" else path)
    ++ (if force || not (equal u.raw_query []) then b'?' ∷ u.raw_query else [])

written_target-redirected :
    (http : Http) (t : Target) (u : Url) (q : HttpRequest)
    → q.url.opaque_ ≡ []
    → equal u.path [] ≡ false
    → written_target http (redirected t u q) ≡ asked_target http q.url.raw_path q.url.force_query u
unfolding written_target redirected request_uri_of
written_target-redirected http t u q o p =
    rw (p, and_false (equal q.method (codes "CONNECT"))) (rw o (unfold equal in refl))
  where
    and_false : (b : Bool) → (b && false) ≡ false
    and_false true = refl
    and_false false = refl

-- The first request that reaches a daemon asks for the path, in some escaped form, and the query of
-- the session, is answered by its handler, and does not lock it, whatever the client sends, its
-- authorization and its path included; if the address that the client sends has no opaque part, the
-- session has a path, the daemon is not locked and has the secret of the machine, and the
-- authorization with the secret arrives as it was set. An empty query has its "?" if the client's
-- address ends in one.
pub first_request-answered :
    {S A : Type 0} (http : Http) (t : Target) (client : Bytes) (u : Url) (r : HttpRequest)
    (next : S → S × A) (caller : Caller) (auth : Auth) (s : S) (h : Bytes)
    → http.parse_url t.proxy_url ≡ some u
    → first_request http t client ≡ inr r
    → r.url.opaque_ ≡ []
    → equal u.path [] ≡ false
    → auth.locked ≡ false
    → t.secret_key ≡ auth.secret
    → ArrivesWhole auth.secret
    → header_value (get_header (codes "Authorization") r.header) ≡ some h
    → (middleware next caller h auth s ≡ (auth, (next s).0, answered (next s).1))
      × (written_target http r ≡ asked_target http r.url.raw_path r.url.force_query u)
first_request-answered http t client u r next caller auth s h p f o n l k whole arrives =
    let (q, same) = redirected_of http t client u r p f in
    let authorized : get_header (codes "Authorization") r.header ≡ codes "Bearer " ++ auth.secret =
      ap (λ x. get_header (codes "Authorization") x.header) (sym same)
      ∙ unfold redirected in
        get_header-set_header (codes "Authorization") (codes "Bearer " ++ t.secret_key) q.header
        ∙ ap (λ x. codes "Bearer " ++ x) k in
    let own : h ≡ codes "Bearer " ++ auth.secret =
      some_value (sym arrives ∙ ap header_value authorized ∙ whole) in
    let opaque_same : q.url.opaque_ ≡ [] =
      unfold redirected in (ap (λ x. x.url.opaque_) same ∙ o) in
    let asked_same : asked_target http q.url.raw_path q.url.force_query u
        ≡ asked_target http r.url.raw_path r.url.force_query u =
      unfold redirected in
      ap (λ (x : HttpRequest). asked_target http x.url.raw_path x.url.force_query u) same in
    (
      ap (λ x. middleware next caller x auth s) own ∙ middleware-secret next caller auth s l,
      ap (written_target http) (sym same)
          ∙ written_target-redirected http t u q opaque_same n
          ∙ asked_same,
    )
  where
    some_value : {a b : Bytes} → some a ≡ some b → a ≡ b
    some_value e = cc
