-- ===== src/Daemon/Routes/Display.antt =====
-- daemon/server.go: the route of a machine's display, which takes the connection over, beside the other
-- routes of the virtual machines.
use mechanicaldinosaurs.Base.{
  ℕ, Bytes, equal, if◌then◌else◌, inl, inr, Bool, not, Option, none, some, List, [], ◌∷◌,
}
use mechanicaldinosaurs.Rpc.{Response}
use mechanicaldinosaurs.Daemon.Vms.Lifecycle.{World, VmError}
use mechanicaldinosaurs.Daemon.Vms.Queries.Display.{Display, proxy_vm}
use mechanicaldinosaurs.Daemon.Routes.{VmCodecs, VmRequest, serve_vm}
use mechanicaldinosaurs.Daemon.Routes.Operations.{Backend, vm_operations}

-- A refusal by its status; or the connection was taken over, and is closed after `ProxyVM`, whose
-- error nobody can be told.
pub data DisplayReply : Type 0 where
  refused : ℕ → DisplayReply
  taken_over : Option VmError → DisplayReply

-- A request for the routes of the virtual machines: one of `server.Handle`, or a display by the name in
-- its path, where the connection can be taken over or not.
pub data VmCall : Type 0 where
  api_call : VmRequest → VmCall
  display_call : Bytes → Bool → VmCall

pub data VmReply : Type 0 where
  api_reply : Response → VmReply
  display_reply : DisplayReply → VmReply

module _ {S : Type 0} (b : Backend S) (display : Display S) (codecs : VmCodecs)
    (available : Bool) where
  -- The handler of `GET /api/vms/:name/proxy` behind the middleware.
  unfoldable pub serve_display : Bytes → Bool → World S → World S × DisplayReply
  unfolding equal proxy_vm
  serve_display name hijacks w =
      if not available
      then (w, refused 503)
      else if equal name []
      then (w, refused 400)
      else if not hijacks
      then (w, refused 500)
      else let r = proxy_vm b.libvirt b.descriptions b.qemu_img display name w in
        (r.0, taken_over (elim r.1 [ inl e ↦ some e | inr _ ↦ none ]))

  unfoldable pub serve_call : VmCall → World S → World S × VmReply
  unfolding serve_display
  serve_call (api_call r) w =
      let (w', response) = serve_vm (vm_operations b) codecs available r w in
      (w', api_reply response)
  serve_call (display_call name hijacks) w =
      let (w', reply) = serve_display name hijacks w in (w', display_reply reply)

  unfoldable pub serve_calls : List VmCall → World S → World S × List VmReply
  unfolding serve_call
  serve_calls [] w = (w, [])
  serve_calls (c ∷ cs) w =
      let (w', reply) = serve_call c w in
      let (w'', replies) = serve_calls cs w' in (w'', reply ∷ replies)
