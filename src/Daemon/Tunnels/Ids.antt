-- ===== src/Daemon/Tunnels/Ids.antt =====
-- daemon/server.go, `registerTunnelRoutes`: the identifiers of the tunnels.
use mechanicaldinosaurs.Base.{
  ◌-◌, Bytes, codes, equal, length, length-append, take, take-length, ◌≡◌, refl, ap, ◌∙◌, Bool,
  false, List, [], ◌∷◌, ◌++◌, map, arith,
}
use mathlib.Core.List.{reverse-append}
use mechanicaldinosaurs.Base.FilePath.{ext, ext_from}
use mechanicaldinosaurs.Daemon.Tunnels.{TunnelEntry, tunnel_ids}

-- The files that cloudflared keeps for its tunnels.
abbrev pub credentials : List Bytes → List (Bytes × Bool)
credentials = map (λ id. (id ++ codes ".json", false))

abbrev pub entries : List Bytes → List TunnelEntry
entries = map (λ id. record { type_ = codes "id"; value = id })

ext-json : (id : Bytes) → ext (id ++ codes ".json") ≡ codes ".json"
ext-json id = ap (λ s. ext_from s []) (reverse-append id (codes ".json"))

value-json : (id : Bytes) → take (length (id ++ codes ".json") - 5) (id ++ codes ".json") ≡ id
value-json id =
    ap (λ n. take n (id ++ codes ".json")) (omega (arith, length-append id (codes ".json")))
    ∙ take-length id (codes ".json")

-- The identifiers that are sent are those of the tunnels, in the order of their files.
tunnel_ids-credentials : (ids : List Bytes) → tunnel_ids (credentials ids) ≡ entries ids
unfolding tunnel_ids equal
tunnel_ids-credentials [] = refl
tunnel_ids-credentials (id ∷ ids) =
    rw (tunnel_ids, ext-json id) (rw (value-json id, tunnel_ids-credentials ids) refl)
