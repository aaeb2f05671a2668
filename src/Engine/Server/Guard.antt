-- ===== src/Engine/Server/Guard.antt =====
-- automation-engine/server.go: the middleware of the API, with its lock.
use mechanicaldinosaurs.Base.{
  Bytes, codes, equal, if◌then◌else◌, ◌≡◌, refl, Bool, true, false, not, List, [], ◌∷◌, ◌++◌, map,
  arith,
}
use mechanicaldinosaurs.Engine.Context.{Platform}
use mechanicaldinosaurs.Engine.Server.{Env, Request, Reply, unauthorized, State, handle}

pub record Call (F : Type 0) : Type 0 where
  pub env : Env
  pub authorization : Bytes
  pub request : Request F

-- The variable `locked` of `serve`, and the state of the handlers.
pub record Served (F : Type 0) : Type 0 where
  pub locked : Bool
  pub state : State F

abbrev pub is_nonempty {ℓ} : {A : Type ℓ} → List A → Bool
is_nonempty [] = false
is_nonempty (x ∷ xs) = true

module _ {F : Type 0} (p : Platform F) (secret : Bytes) where
  abbrev pub is_authorized : Call F → Bool
  is_authorized c = equal c.authorization (codes "Bearer " ++ secret)

  -- The middleware round the handler of a request.
  unfoldable pub guarded : Call F → Served F → Served F × Reply
  guarded c v =
      if v.locked
      then (v, unauthorized)
      else if not (is_authorized c)
      then (record v { locked = true }, unauthorized)
      else let (s, reply) = handle p c.env c.request v.state in (record v { state = s }, reply)

  -- The calls one after the other, with the replies in their order.
  unfoldable pub serve : List (Call F) → Served F → Served F × List Reply
  unfolding guarded
  serve [] v = (v, [])
  serve (c ∷ cs) v =
      let (v', reply) = guarded c v in let (w, replies) = serve cs v' in (w, reply ∷ replies)

  -- The handlers with no guard.
  abbrev pub serve_open : List (Call F) → State F → State F × List Reply
  serve_open [] s = (s, [])
  serve_open (c ∷ cs) s =
      let (s', reply) = handle p c.env c.request s in
      let (t, replies) = serve_open cs s' in (t, reply ∷ replies)

  -- The calls before the first that is not authorized, and the others.
  abbrev pub admitted : List (Call F) → List (Call F)
  admitted [] = []
  admitted (c ∷ cs) = let rest = admitted cs in if is_authorized c then c ∷ rest else []

  abbrev pub refused : List (Call F) → List (Call F)
  refused [] = []
  refused (c ∷ cs) = let rest = refused cs in if is_authorized c then rest else c ∷ cs

  abbrev pub all_unauthorized : List (Call F) → List Reply
  all_unauthorized cs = map (λ _. unauthorized) cs

  serve_locked :
      (cs : List (Call F)) (v : Served F) → v.locked ≡ true → serve cs v ≡ (v, all_unauthorized cs)
  unfolding serve
  serve_locked [] v h = refl
  serve_locked (c ∷ cs) v h = ground (arith, serve_locked cs v h)

  -- From an unlocked start, the calls before the first with a wrong authorization are handled, and
  -- no others: the engine's state is the one that they leave, every call from the first wrong one
  -- on is answered 401, right authorization or not, and the lock is set exactly if there is one.
  pub serve-admitted :
      (cs : List (Call F)) (v : Served F)
      → v.locked ≡ false
      → ((serve cs v).0.state ≡ (serve_open (admitted cs) v.state).0)
        × ((serve cs v).1 ≡ (serve_open (admitted cs) v.state).1 ++ all_unauthorized (refused cs))
        × ((serve cs v).0.locked ≡ is_nonempty (refused cs))
  unfolding serve
  serve-admitted [] v h = (refl, refl, h)
  serve-admitted (c ∷ cs) v h = ground (
    arith,
    serve_locked cs (record v { locked = true }) refl,
    serve-admitted cs (record v { state = (handle p c.env c.request v.state).0 }) h,
  )
