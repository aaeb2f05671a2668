-- ===== src/Daemon/Tunnels.antt =====
-- daemon/server.go, `registerTunnelRoutes`: the tunnels of cloudflared.
pub mod Ids
use mechanicaldinosaurs.Base.{
  ◌-◌, Bytes, codes, equal, length, take, if◌then◌else◌, ◌⊎◌, inl, inr, Bool, true, false, not,
  ◌&&◌, ◌||◌, Option, none, some, List, [], ◌∷◌, ◌++◌,
}
use mechanicaldinosaurs.Base.FilePath.{ext, join_path}
use mechanicaldinosaurs.Rpc.{HandlerError, plain_error}

-- `CloudflareTunnelIDorTokenResponse`, whose type is "id" or "token".
pub record TunnelEntry : Type 0 where
  pub type_ : Bytes
  pub value : Bytes

-- The loop over the files, each with whether it is a directory.
unfoldable pub tunnel_ids : List (Bytes × Bool) → List TunnelEntry
unfolding equal
tunnel_ids [] = []
tunnel_ids ((name, is_dir) ∷ files) =
    let rest = tunnel_ids files in
    if not is_dir && equal (ext name) (codes ".json")
    then record { type_ = codes "id"; value = take (length name - 5) name } ∷ rest
    else rest

-- What the handler reads: `os.UserHomeDir`, a directory, and the output of the command that looks for
-- the process, with whether it succeeded.
pub record TunnelHost : Type 0 where
  pub home : Bytes ⊎ Bytes
  pub read_dir : Bytes → Option (List (Bytes × Bool))
  pub command : Bytes × Bool

abbrev is_some {ℓ} : {A : Type ℓ} → Option A → Bool
is_some none = false
is_some (some a) = true

abbrev ids_of : Option (List (Bytes × Bool)) → List TunnelEntry
unfolding tunnel_ids
ids_of none = []
ids_of (some files) = tunnel_ids files

-- The handler of `GetCloudflareTunnelTokenRequest`.
unfoldable pub tunnel_entries : TunnelHost → HandlerError ⊎ List TunnelEntry
unfolding ids_of join_path
tunnel_entries host = elim host.home [
  | inl message ↦ inl (plain_error message)
  | inr dir ↦
      let files = host.read_dir (join_path (dir ∷ codes ".cloudflared" ∷ [])) in
      inr (
        ids_of files
        ++ (if is_some files || host.command.1
            then record { type_ = codes "token"; value = host.command.0 } ∷ []
            else []))
]
