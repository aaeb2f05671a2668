-- ===== src/Daemon/Auth.antt =====
-- daemon/auth.go: the middleware of the daemon, its lock and the file of its log.
use mechanicaldinosaurs.Base.{
  ℕ, Bytes, codes, equal, if◌then◌else◌, Bool-cases, ◌≡◌, refl, sym, inl, inr, ◌||◌, append_assoc,
  append-nil, Bool, true, false, not, Option, none, some, List, [], ◌∷◌, ◌++◌, arith,
}

-- What a request gets: the handler's answer, or one of the two refusals.
pub data Reply {ℓ} (A : Type ℓ) : Type ℓ where
  answered : A → Reply A
  no_authorization : Reply A
  daemon_locked : Reply A

-- The HTTP status of a refusal: 401 and 423.
abbrev pub refusal_status {ℓ} : {A : Type ℓ} → Reply A → Option ℕ
refusal_status (answered a) = none
refusal_status no_authorization = some 401
refusal_status daemon_locked = some 423

-- The fields of `Auth`, and what the file md-daemon-auth.log holds.
pub record Auth : Type 0 where
  pub secret : Bytes
  pub locked : Bool
  pub log : Bytes

-- Who makes a request: `RemoteAddr`, `c.RealIP()`, and whether the file of the log can be opened and
-- written then.
pub record Caller : Type 0 where
  pub remote_addr : Bytes
  pub real_ip : Bytes
  pub log_works : Bool

-- `writeLog`. A write to the nil file of a failed open is an error, which is only reported.
abbrev pub write_log : Bool → Bytes → Bytes → Bytes
write_log works msg log = if works then log ++ msg else log

-- The two messages.
unfoldable pub attempt_message : Caller → Bytes
attempt_message c =
    codes "attempted use during lock from ip "
    ++ (c.remote_addr ++ (codes ", forwarded: " ++ c.real_ip))

unfoldable pub lock_message : Caller → Bytes → Bytes
lock_message c authorization =
    codes "locked by ip "
    ++ (c.remote_addr
        ++ (codes ", forwarded: "
            ++ (c.real_ip ++ (codes ". authorization given: " ++ authorization))))

-- `Middleware` round a handler that answers with a new state S of the host.
unfoldable pub middleware {ℓ κ} :
    {S : Type κ} {A : Type ℓ} → (S → S × A) → Caller → Bytes → Auth → S → Auth × S × Reply A
unfolding equal
middleware next caller authorization auth s =
    if auth.locked
    then (
      record auth { log = write_log caller.log_works (attempt_message caller) auth.log },
      s,
      daemon_locked,
    )
    else if equal authorization []
    then (auth, s, no_authorization)
    else if not (equal (codes "Bearer " ++ auth.secret) authorization)
    then (
      record auth {
        locked = true;
        log = write_log caller.log_works (lock_message caller authorization) auth.log;
      },
      s,
      daemon_locked,
    )
    else let (s', a) = next s in (auth, s', answered a)

-- One request: its caller, its authorization and its handler.
pub record Request (S A : Type 0) : Type 0 where
  pub caller : Caller
  pub authorization : Bytes
  pub next : S → S × A

module _ {S A : Type 0} where
  unfoldable pub serve : List (Request S A) → Auth → S → Auth × S × List (Reply A)
  serve [] auth s = (auth, s, [])
  serve (r ∷ rs) auth s =
      let (auth', s', reply) = middleware r.next r.caller r.authorization auth s in
      let (auth'', s'', replies) = serve rs auth' s' in (auth'', s'', reply ∷ replies)

  -- What a request is, by its authorization alone.
  abbrev pub is_authorized : Bytes → Request S A → Bool
  is_authorized secret r = equal (codes "Bearer " ++ secret) r.authorization

  abbrev pub is_anonymous : Request S A → Bool
  is_anonymous r = equal r.authorization []

  -- The specification: until the first wrong authorization, requests with the secret are answered
  -- by their handlers and those with none are refused; from then on all are refused.
  abbrev pub refuse_all : List (Request S A) → List (Reply A)
  refuse_all [] = []
  refuse_all (r ∷ rs) = daemon_locked ∷ refuse_all rs

  abbrev pub expected : Bytes → List (Request S A) → S → S × List (Reply A)
  expected secret [] s = (s, [])
  expected secret (r ∷ rs) s =
      let handled = r.next s in
      let after = expected secret rs handled.0 in
      let skipped = expected secret rs s in
      if is_anonymous r
      then (skipped.0, no_authorization ∷ skipped.1)
      else if is_authorized secret r
      then (after.0, answered handled.1 ∷ after.1)
      else (s, refuse_all (r ∷ rs))

  -- What of it is written to the log: an entry for the request that locks the daemon, and one for
  -- each request after it, whoever makes it.
  abbrev entry : Request S A → Bytes → Bytes
  entry r msg = if r.caller.log_works then msg else []

  abbrev pub attempts : List (Request S A) → Bytes
  attempts [] = []
  attempts (r ∷ rs) = entry r (attempt_message r.caller) ++ attempts rs

  abbrev pub entries : Bytes → List (Request S A) → Bytes
  entries secret [] = []
  entries secret (r ∷ rs) =
      let rest = entries secret rs in
      if is_anonymous r || is_authorized secret r
      then rest
      else entry r (lock_message r.caller r.authorization) ++ attempts rs

  write_log-entry :
      (r : Request S A) (msg log more : Bytes)
      → write_log r.caller.log_works msg log ++ more ≡ log ++ (entry r msg ++ more)
  write_log-entry r msg log more = elim (Bool-cases r.caller.log_works) [
    | inl e ↦ rw e (append_assoc log msg more)
    | inr e ↦ rw e refl
  ]

  pub serve_locked :
      (rs : List (Request S A)) (auth : Auth) (s : S)
      → auth.locked ≡ true
      → ((serve rs auth s).1 ≡ s)
        × ((serve rs auth s).2 ≡ refuse_all rs)
        × ((serve rs auth s).0.log ≡ auth.log ++ attempts rs)
  unfolding serve middleware
  serve_locked [] auth s h = (refl, refl, sym (append-nil auth.log))
  serve_locked (r ∷ rs) auth s h =
      let logged : Auth = record auth {
        log = write_log r.caller.log_works (attempt_message r.caller) auth.log;
      } in
      ground (
        arith,
        serve_locked rs logged s h,
        write_log-entry r (attempt_message r.caller) auth.log (attempts rs),
      )

  -- The state of the host, the replies and the log of an unlocked daemon are those of the
  -- specification: only requests with the secret reach their handlers, a request with no
  -- authorization changes nothing, and the first wrong authorization refuses itself and every later
  -- request; that one and the later ones are logged, where the file can be written, and no others,
  -- one entry right behind the other.
  pub serve-expected :
      (rs : List (Request S A)) (auth : Auth) (s : S)
      → auth.locked ≡ false
      → ((serve rs auth s).1 ≡ (expected auth.secret rs s).0)
        × ((serve rs auth s).2 ≡ (expected auth.secret rs s).1)
        × ((serve rs auth s).0.log ≡ auth.log ++ entries auth.secret rs)
  unfolding serve middleware
  serve-expected [] auth s h = (refl, refl, sym (append-nil auth.log))
  serve-expected (r ∷ rs) auth s h =
      let locked : Auth = record auth {
        locked = true;
        log = write_log r.caller.log_works (lock_message r.caller r.authorization) auth.log;
      } in
      ground (
        arith,
        serve_locked rs locked s refl,
        write_log-entry r (lock_message r.caller r.authorization) auth.log (attempts rs),
        serve-expected rs auth (r.next s).0 h,
        serve-expected rs auth s h,
      )
