-- ===== src/Daemon/Routes/Operations/Connections.antt =====
-- daemon/server.go and daemon/vms: the connections to libvirt over the requests to a daemon.
use mechanicaldinosaurs.Base.{
  ◌<◌, ◌≤◌, ◌+◌, ◌⊎◌, inl, inr, Bool-cases, equal, Bytes, ◌≡◌, refl, Bool, true, List, [], ◌∷◌,
}
use mechanicaldinosaurs.Daemon.Vms.Create.Connections.{create_vm-Kept}
use mechanicaldinosaurs.Daemon.Vms.Create.Disks.{disk_path}
use mechanicaldinosaurs.Daemon.Vms.Lifecycle.{World}
use mechanicaldinosaurs.Daemon.Vms.Lifecycle.Connections.{Kept, Kept-trans, operations_close}
use mechanicaldinosaurs.Daemon.Vms.Queries.Connections.{queries_close}
use mechanicaldinosaurs.Daemon.Routes.{VmCodecs, VmRequest, serve_vms}
use mechanicaldinosaurs.Daemon.Vms.Queries.Display.{Display, proxy_vm-IsBalanced}
use mechanicaldinosaurs.Daemon.Routes.Display.{
  VmCall, serve_display, api_call, display_call, serve_call, serve_calls,
}
use mechanicaldinosaurs.Daemon.Routes.Invariants.{Keep, serve_vms-kept}
use mechanicaldinosaurs.Daemon.Routes.Operations.{Backend, create_on, vm_operations}

module _ {S : Type 0} (b : Backend S) where
  -- From the connections and the domains of one state to those of another.
  abbrev pub KeptFrom : World S → World S → Type 0
  KeptFrom v w = Kept v.opened v.domains w.opened w.domains

  operations_kept : (v : World S) → Keep (vm_operations b) (KeptFrom v)
  unfolding vm_operations create_on
  operations_kept v =
      let closed = λ (name : Bytes). operations_close b.libvirt name (disk_path b.data_dir name) in
      let queried = λ (name : Bytes). queries_close b.libvirt b.descriptions b.qemu_img name in
      record {
        list_kept = λ w. λ h. Kept-trans _ _ _ _ _ _ h ((queried []).1 w);
        files_kept = λ w. λ h. h;
        create_kept = λ config. λ w. λ h. Kept-trans _ _ _ _ _ _ h (
            create_vm-Kept (b.calls w.host) b.max_vcpu config
              (record (b.vm_host config.name w.host) { opened = w.opened; domains = w.domains }));
        get_kept = λ name. λ w. λ h. Kept-trans _ _ _ _ _ _ h ((queried name).0 w);
        start_kept = λ name. λ w. λ h. Kept-trans _ _ _ _ _ _ h ((closed name true 0 0 0).0 w);
        stop_kept = λ name.
            λ graceful. λ w. λ h. Kept-trans _ _ _ _ _ _ h ((closed name graceful 0 0 0).1.0 w);
        restart_kept = λ name.
            λ graceful. λ w. λ h. Kept-trans _ _ _ _ _ _ h ((closed name graceful 0 0 0).1.1.0 w);
        update_kept = λ u. λ w. λ h.
            Kept-trans _ _ _ _ _ _ h
              ((closed u.name true u.vcpus u.memory_mib u.storage_gib).1.1.1.0 w);
        delete_kept =
            λ name. λ w. λ h. Kept-trans _ _ _ _ _ _ h ((closed name true 0 0 0).1.1.1.1.0 w);
        iso_kept = λ i. λ w. λ h. h;
      }

  requests_kept :
      (codecs : VmCodecs) (available : Bool) (rs : List VmRequest) (w : World S)
      → KeptFrom w (serve_vms (vm_operations b) codecs available rs w).0
  requests_kept codecs available rs w =
      serve_vms-kept (vm_operations b) codecs (KeptFrom w) (operations_kept w) available rs w
        (inl (refl, refl))

  module _ (display : Display S) (codecs : VmCodecs) (available : Bool) where
    display_kept :
        (name : Bytes) (hijacks : Bool) (w : World S)
        → KeptFrom w (serve_display b display codecs available name hijacks w).0
    unfolding serve_display
    display_kept name hijacks w = elim (Bool-cases available) [
      | inr a ↦ rw (serve_display, a) (inl (refl, refl))
      | inl a ↦ elim (Bool-cases (equal name [])) [
        | inl n ↦ rw (serve_display, a, n) (inl (refl, refl))
        | inr n ↦ elim (Bool-cases hijacks) [
          | inr k ↦ rw (serve_display, a, n, k) (inl (refl, refl))
          | inl k ↦
              rw (serve_display, a, n, k)
                (proxy_vm-IsBalanced b.libvirt b.descriptions b.qemu_img display name w)
        ]
      ]
    ]

    call_kept :
        (c : VmCall) (w : World S) → KeptFrom w (serve_call b display codecs available c w).0
    unfolding serve_call
    call_kept (api_call r) w = unfold serve_vms in requests_kept codecs available (r ∷ []) w
    call_kept (display_call name hijacks) w = display_kept name hijacks w

    -- However many requests come, displays among them, and whatever libvirt answers them: a daemon has
    -- as many connections to libvirt open after them as before if it has obtained no domain, and
    -- otherwise it has left connections open, at most one for each domain that it has obtained.
    pub calls-Kept :
        (cs : List VmCall) (w : World S)
        → let v = (serve_calls b display codecs available cs w).0 in
          ((v.opened ≡ w.opened) × (v.domains ≡ w.domains))
          ⊎ ((w.opened < v.opened) × (v.opened + w.domains ≤ v.domains + w.opened))
    unfolding serve_calls
    calls-Kept [] w = inl (refl, refl)
    calls-Kept (c ∷ cs) w =
        Kept-trans _ _ _ _ _ _ (call_kept c w)
          (calls-Kept cs (serve_call b display codecs available c w).0)
