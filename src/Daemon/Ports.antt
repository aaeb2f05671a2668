-- ===== src/Daemon/Ports.antt =====
-- daemon/server.go, the handler of the ports: which process is named for each port.
use mechanicaldinosaurs.Base.{
  ℕ, ℤ, Bytes, codes, equal, equal_iff, ◌==◌, if◌then◌else◌, Bool-cases, is_positive, ◌≡◌, refl,
  sym, ◌∙◌, subst, inl, inr, Bool, true, false, not, ◌&&◌, ◌||◌, Option, none, some, List, [], ◌∷◌,
  arith,
}

-- A connection of `net.Connections("all")`; type 2 is a datagram socket.
pub record Connection : Type 0 where
  pub status : Bytes
  pub type_ : ℕ
  pub port : ℕ
  pub pid : ℤ

-- `process.NewProcess` with the results of `Name` and `Cmdline`: none is a process that has ended.
abbrev pub Processes : Type 0
Processes = ℤ → Option (Option Bytes × Bytes)

-- The key "proto:port" of `seen`, by its parts: whether the protocol is udp, and the port.
abbrev Key : Type 0
Key = Bool × ℕ

abbrev same_key : Key → Key → Bool
same_key (u, p) (v, q) = (if u then v else not v) && p == q

unfoldable pub is_seen : Key → List Key → Bool
is_seen k [] = false
is_seen k (j ∷ seen) = same_key j k || is_seen k seen

-- The map from ports to names.
abbrev pub PortNames : Type 0
PortNames = List (ℕ × Bytes)

unfoldable pub put_port : ℕ → Bytes → PortNames → PortNames
put_port port name [] = (port, name) ∷ []
put_port port name ((p, n) ∷ res) =
    if p == port then (p, name) ∷ res else (p, n) ∷ put_port port name res

unfoldable pub port_name : ℕ → PortNames → Option Bytes
port_name port [] = none
port_name port ((p, n) ∷ res) = if p == port then some n else port_name port res

-- The condition of the first `continue`.
abbrev pub is_skipped : Connection → Bool
is_skipped c =
    not (equal c.status (codes "LISTEN")) && (c.type_ == 2 && equal c.status (codes "NONE"))

none-ne-listen :
    (status : Bytes) → equal status (codes "NONE") ≡ true → equal status (codes "LISTEN") ≡ false
none-ne-listen status h =
    subst (λ s. equal s (codes "LISTEN") ≡ false) (sym ((equal_iff status (codes "NONE")).0 h))
      (unfold equal in refl)

module _ (processes : Processes) where
  unfoldable pub cmd_name : ℤ → Bytes
  cmd_name pid = elim (processes pid) [
    | none ↦ codes "Unknown (Terminated)"
    | some (some name, cmdline) ↦ name
    | some (none, cmdline) ↦ cmdline
  ]

  -- The loop over the connections, with `seen` and `res`.
  unfoldable pub list_ports : List Connection → List Key → PortNames → PortNames
  unfolding is_seen put_port cmd_name
  list_ports [] seen res = res
  list_ports (c ∷ cs) seen res =
      let key : Key = (c.type_ == 2, c.port) in
      let skipped = list_ports cs seen res in
      let placeholder = list_ports cs (key ∷ seen) res in
      let named = list_ports cs (key ∷ seen) (put_port c.port (cmd_name c.pid) res) in
      if is_skipped c
      then skipped
      else if is_seen key seen
      then skipped
      else if not (is_positive c.pid)
      then placeholder
      else named

  -- The handler, on the connections that were read.
  unfoldable pub ports_services : List Connection → PortNames
  unfolding list_ports
  ports_services cs = list_ports cs [] []

  -- The connections that are not datagram sockets of status NONE.
  abbrev pub without_udp : List Connection → List Connection
  without_udp [] = []
  without_udp (c ∷ cs) =
      let rest = without_udp cs in
      if c.type_ == 2 && equal c.status (codes "NONE") then rest else c ∷ rest

  list_ports-without_udp :
      (cs : List Connection) (seen : List Key) (res : PortNames)
      → list_ports cs seen res ≡ list_ports (without_udp cs) seen res
  unfolding list_ports
  list_ports-without_udp [] seen res = refl
  list_ports-without_udp (c ∷ cs) seen res =
      let key : Key = (c.type_ == 2, c.port) in
      ground (
        arith,
        none-ne-listen c.status,
        list_ports-without_udp cs seen res,
        list_ports-without_udp cs (key ∷ seen) res,
        list_ports-without_udp cs (key ∷ seen) (put_port c.port (cmd_name c.pid) res),
      )

  -- A datagram socket of status NONE is never reported: the handler answers as if it were not
  -- there.
  ports_services-without_udp :
      (cs : List Connection) → ports_services cs ≡ ports_services (without_udp cs)
  unfolding ports_services
  ports_services-without_udp cs = list_ports-without_udp cs [] []

  port_name-put_port :
      (p q : ℕ) (n : Bytes) (res : PortNames)
      → port_name q (put_port p n res) ≡ (if p == q then some n else port_name q res)
  unfolding port_name put_port
  port_name-put_port p q n [] = refl
  port_name-put_port p q n ((i, m) ∷ res) = ground (arith, port_name-put_port p q n res)

  put_port-keeps :
      (p q : ℕ) (k n : Bytes) (res : PortNames)
      → port_name q res ≡ some n
      → (m : Bytes) × (port_name q (put_port p k res) ≡ some m)
  put_port-keeps p q k n res h =
      ((if p == q then k else n), ground (arith, port_name-put_port p q k res))

  list_ports-keeps :
      (cs : List Connection) (seen : List Key) (res : PortNames) (q : ℕ) (n : Bytes)
      → port_name q res ≡ some n
      → (m : Bytes) × (port_name q (list_ports cs seen res) ≡ some m)
  unfolding list_ports
  list_ports-keeps [] seen res q n h = (n, h)
  list_ports-keeps (c ∷ cs) seen res q n h =
      let key : Key = (c.type_ == 2, c.port) in
      let kept = list_ports-keeps cs seen res q n h in
      let (m, put) = put_port-keeps c.port q (cmd_name c.pid) n res h in
      let put_kept =
        list_ports-keeps cs (key ∷ seen) (put_port c.port (cmd_name c.pid) res) q m put in
      let held = list_ports-keeps cs (key ∷ seen) res q n h in
      elim (Bool-cases (is_skipped c)) [
        | inl e ↦ rw e kept
        | inr e ↦ rw e (elim (Bool-cases (is_seen key seen)) [
          | inl s ↦ rw s kept
          | inr s ↦
              rw s (elim (Bool-cases (is_positive c.pid)) [
                | inl k ↦ rw k put_kept
                | inr k ↦ rw k held
              ])
        ])
      ]

  -- A stream socket of a process is reported under its port whatever its status, so also if it does
  -- not listen.
  ports_services_any_status :
      (c : Connection) (cs : List Connection)
      → c.type_ ≡ 1
      → is_positive c.pid ≡ true
      → (n : Bytes) × (port_name c.port (ports_services (c ∷ cs)) ≡ some n)
  unfolding ports_services
  ports_services_any_status c cs t h =
      let key : Key = (false, c.port) in
      let named =
        list_ports-keeps cs (key ∷ []) (put_port c.port (cmd_name c.pid) []) c.port (cmd_name c.pid)
          (port_name-put_port c.port c.port (cmd_name c.pid) [] ∙ ground arith) in
      (named.0, ground (arith, named.1))
