-- ===== src/Daemon/Vms/Queries/Connections.antt =====
-- daemon/vms/vms.go: the connections that the queries open and close.
use mechanicaldinosaurs.Base.{
  ℕ, length, ◌+◌, Bytes, codes, equal, Bool-cases, Option-cases, suc, ◌==◌, false, ◌≡◌, refl, inl,
  inr, arith, Option, none, some, List, [], ◌∷◌,
}
use mechanicaldinosaurs.Daemon.Vms.Xml.{Domain}
use mechanicaldinosaurs.Daemon.Vms.Lifecycle.{
  Libvirt, World, VmError, stats_failed, description_failed, list_failed, and_then, throw, give,
  close, get_vm_status, status_body,
}
use mechanicaldinosaurs.Daemon.Vms.Lifecycle.Connections.{
  Kept, Kept-trans, IsBalanced, attempt-IsBalanced, and_then-IsBalanced, if-IsBalanced,
  with_domain-IsBalanced, status_body-IsBalanced,
}
use mechanicaldinosaurs.Daemon.Vms.Queries.{
  QemuImg, Descriptions, ask, unused_kib, report, vm_body, get_vm, listed_vm, listed_vms,
  with_connection, list_body, list_vms,
}

module _ {S : Type 0} (libvirt : Libvirt S) (descriptions : Descriptions S)
    (qemu_img : QemuImg) where
  give-IsBalanced : {A : Type 0} (a : A) → IsBalanced {S = S} (give a)
  unfolding give
  give-IsBalanced a w = inl (refl, refl)

  pub ask-IsBalanced :
      {A : Type 0} (call : S → S × Option A) (e : VmError)
      → IsBalanced (ask libvirt descriptions qemu_img call e)
  unfolding ask
  ask-IsBalanced call e w = inl (refl, refl)

  get_vm_status-IsBalanced : (name : Bytes) → IsBalanced (get_vm_status libvirt name)
  unfolding get_vm_status
  get_vm_status-IsBalanced name =
      with_domain-IsBalanced libvirt name (status_body libvirt name)
        (status_body-IsBalanced libvirt name)

  unused_kib-IsBalanced :
      (name status : Bytes) → IsBalanced (unused_kib libvirt descriptions qemu_img name status)
  unfolding unused_kib
  unused_kib-IsBalanced name status =
      if-IsBalanced (equal status (codes "running")) _ _
        (and_then-IsBalanced _ _ (attempt-IsBalanced _ _) (λ _.
          and_then-IsBalanced _ _ (ask-IsBalanced (descriptions.memory_stats name) stats_failed)
            (λ _. give-IsBalanced _)))
        (give-IsBalanced 0)

  report-IsBalanced :
      (status : Bytes) (unused : ℕ) (d : Option Domain)
      → IsBalanced (report libvirt descriptions qemu_img status unused d)
  unfolding report throw give
  report-IsBalanced status unused d w = inl (ground arith, ground arith)

  listed_vm-IsBalanced :
      (handle : Bytes) → IsBalanced (listed_vm libvirt descriptions qemu_img handle)
  unfolding listed_vm
  listed_vm-IsBalanced handle =
      and_then-IsBalanced _ _ (ask-IsBalanced (descriptions.get_name handle) description_failed)
        (λ name. and_then-IsBalanced _ _ (get_vm_status-IsBalanced name) (λ status.
          and_then-IsBalanced _ _ (ask-IsBalanced (descriptions.get_xml handle) description_failed)
            (λ d. and_then-IsBalanced _ _ (report-IsBalanced status 0 d) (λ _. give-IsBalanced _))))

  listed_vms-Kept :
      (handles : List Bytes) (w : World S)
      → let r = listed_vms libvirt descriptions qemu_img handles w in
        Kept w.opened w.domains r.0.opened r.0.domains
  unfolding listed_vms
  listed_vms-Kept [] w = inl (refl, refl)
  listed_vms-Kept (handle ∷ handles) w =
      Kept-trans _ _ _ _ _ _ (listed_vm-IsBalanced handle w)
        (listed_vms-Kept handles (listed_vm libvirt descriptions qemu_img handle w).0)

  get_vm-IsBalanced : (name : Bytes) → IsBalanced (get_vm libvirt descriptions qemu_img name)
  unfolding get_vm vm_body
  get_vm-IsBalanced name =
      with_domain-IsBalanced libvirt name (vm_body libvirt descriptions qemu_img name) (
        and_then-IsBalanced _ _ (get_vm_status-IsBalanced name) (λ status.
          and_then-IsBalanced _ _ (unused_kib-IsBalanced name status) (λ unused.
            and_then-IsBalanced _ _ (ask-IsBalanced (descriptions.get_xml name) description_failed)
              (report-IsBalanced status unused))))

  -- A list that has found machines leaves its connection open.
  closed_list :
      (handles : List Bytes) (o d : ℕ) (w : World S)
      → w.opened ≡ o + 1
      → w.domains ≡ d + length handles
      → let r = listed_vms libvirt descriptions qemu_img handles w in
        Kept o d (close (length handles) r.0).opened (close (length handles) r.0).domains
  unfolding close listed_vms
  closed_list [] o d w p q = inl (omega arith, omega arith)
  closed_list (handle ∷ handles) o d w p q =
      let r = listed_vms-Kept (handle ∷ handles) w in
      rw (not_zero (length handles))
        (Kept-trans _ _ _ _ _ _ (inr (omega arith, omega arith)) (unfold listed_vms in r))
    where
      not_zero : (n : ℕ) → (suc n == 0) ≡ false
      not_zero n = ground arith

  list_body_failed :
      (w : World S)
      → (descriptions.list_domains w.host).1 ≡ none
      → list_body libvirt descriptions qemu_img w
        ≡ (record w { host = (descriptions.list_domains w.host).0 }, inl list_failed)
  unfolding list_body ask and_then
  list_body_failed w n = rw (list_body, and_then, ask, n) refl

  list_body_found :
      (w : World S) (handles : List Bytes)
      → (descriptions.list_domains w.host).1 ≡ some handles
      → let r = listed_vms libvirt descriptions qemu_img handles (record w {
        host = (descriptions.list_domains w.host).0;
        domains = w.domains + length handles;
      }) in
        list_body libvirt descriptions qemu_img w ≡ (r.0, inr (length handles, r.1))
  unfolding list_body ask and_then
  list_body_found w handles n = rw (list_body, and_then, ask, n) refl

  list_vms-IsBalanced : IsBalanced (list_vms libvirt descriptions qemu_img)
  unfolding list_vms with_connection close
  list_vms-IsBalanced w =
      let connected = record w { host = (libvirt.new_connect w.host).0; opened = w.opened + 1 } in
      elim (Bool-cases (libvirt.new_connect w.host).1) [
        | inr c ↦ rw (with_connection, c) (inl (refl, refl))
        | inl c ↦ elim (Option-cases (descriptions.list_domains connected.host).1) [
          | inl n ↦
              rw (with_connection, c, list_body_failed connected n)
                (rw (list_body_failed connected n) (inl (omega arith, refl)))
          | inr (handles, n) ↦
              rw (with_connection, c, list_body_found connected handles n)
                (rw (list_body_found connected handles n) (
                  closed_list handles w.opened w.domains
                    (record connected {
                      host = (descriptions.list_domains connected.host).0;
                      domains = w.domains + length handles;
                    })
                    refl refl))
        ]
      ]

  -- The queries leave connections open exactly if they obtain domains, those for the status of each
  -- machine included.
  pub queries_close :
      (name : Bytes)
      → IsBalanced (get_vm libvirt descriptions qemu_img name)
        × IsBalanced (list_vms libvirt descriptions qemu_img)
  queries_close name = (get_vm-IsBalanced name, list_vms-IsBalanced)
