-- ===== src/Daemon/Vms/Lifecycle/Connections.antt =====
-- daemon/vms/lifecycleops.go: the connections that the operations open and close.
use mechanicaldinosaurs.Base.{
  ℕ, ◌+◌, Bytes, ltb, if◌then◌else◌, Sum-cases, ◌≡◌, refl, ◌∙◌, ◌≤◌, ◌<◌, ◌⊎◌, inl, inr, Bool, true,
  false, arith,
}
use mechanicaldinosaurs.Daemon.Vms.Lifecycle.{
  Libvirt, World, VmError, libvirt_failed, storage_not_supported, M, and_then, attempt, ignored,
  fail, done, close, with_domain, get_domain, start_vm, stop_vm, restart_vm, restart_body,
  update_vm, update_body, delete_vm, delete_body, undefine_domain, get_vm_status, status_body,
}

-- From some connections and domains to others: nothing has changed, or connections have been left
-- open and domains were obtained, at least one for each connection.
abbrev pub Kept : ℕ → ℕ → ℕ → ℕ → Type 0
Kept o d o' d' = ((o' ≡ o) × (d' ≡ d)) ⊎ ((o < o') × (o' + d ≤ d' + o))

pub Kept-trans : (o d o' d' o'' d'' : ℕ) → Kept o d o' d' → Kept o' d' o'' d'' → Kept o d o'' d''
Kept-trans o d o' d' o'' d'' (inl (a, b)) (inl (x, y)) = inl (x ∙ a, y ∙ b)
Kept-trans o d o' d' o'' d'' (inl (a, b)) (inr (x, y)) = inr (omega arith, omega arith)
Kept-trans o d o' d' o'' d'' (inr (a, b)) (inl (x, y)) = inr (omega arith, omega arith)
Kept-trans o d o' d' o'' d'' (inr (a, b)) (inr (x, y)) = inr (omega arith, omega arith)

-- A step that leaves connections open exactly if it obtains domains.
abbrev pub IsBalanced : {S A : Type 0} → M S A → Type 0
IsBalanced {S = S} m = (w : World S) → Kept w.opened w.domains (m w).0.opened (m w).0.domains

module _ {S : Type 0} where
  pub attempt-IsBalanced : (call : S → S × Bool) (e : VmError) → IsBalanced (attempt call e)
  unfolding attempt
  attempt-IsBalanced call e w = inl (refl, refl)

  ignored-IsBalanced : (call : S → S × Bool) → IsBalanced (ignored call)
  unfolding ignored
  ignored-IsBalanced call w = inl (refl, refl)

  pub and_then-IsBalanced :
      {A B : Type 0} (m : M S A) (f : A → M S B)
      → IsBalanced m
      → ((a : A) → IsBalanced (f a))
      → IsBalanced (and_then m f)
  unfolding and_then
  and_then-IsBalanced m f hm hf w = elim (Sum-cases (m w).1) [
    | inl (e, h) ↦ rw (and_then, h) (hm w)
    | inr (a, h) ↦ rw (and_then, h) (Kept-trans _ _ _ _ _ _ (hm w) (hf a (m w).0))
  ]

  done-IsBalanced : IsBalanced {S = S} done
  unfolding done
  done-IsBalanced w = inl (refl, refl)

  fail-IsBalanced : (e : VmError) → IsBalanced {S = S} (fail e)
  unfolding fail
  fail-IsBalanced e w = inl (refl, refl)

  pub if-IsBalanced :
      {A : Type 0} (b : Bool) (m n : M S A)
      → IsBalanced m
      → IsBalanced n
      → IsBalanced (if b then m else n)
  if-IsBalanced true m n hm hn = hm
  if-IsBalanced false m n hm hn = hn

module _ {S : Type 0} (libvirt : Libvirt S) where
  -- `getDomain` leaves one connection open, with its domain, and none if it fails.
  get_domain-opened :
      (name : Bytes) (w : World S)
      → let r = get_domain libvirt name w in
        (r.0.opened ≡ elim r.1 [ inl e ↦ w.opened | inr _ ↦ w.opened + 1 ])
        × (r.0.domains ≡ elim r.1 [ inl e ↦ w.domains | inr _ ↦ w.domains + 1 ])
  unfolding get_domain close
  get_domain-opened name w = (ground arith, ground arith)

  pub with_domain-IsBalanced :
      {A : Type 0} (name : Bytes) (body : M S A)
      → IsBalanced body
      → IsBalanced (with_domain libvirt name body)
  unfolding with_domain close
  with_domain-IsBalanced name body h w =
      let (o, d) = get_domain-opened name w in
      elim (Sum-cases (get_domain libvirt name w).1) [
        | inl (e, g) ↦ rw (with_domain, g) (inl (rw g at o, rw g at d))
        | inr (u, g) ↦
            let found_opened = rw g at o in
            let found_domains = rw g at d in
            rw (with_domain, g)
              (Kept-trans _ _ _ _ _ _
                (inr (omega (arith, found_opened), omega (arith, found_opened, found_domains)))
                (h (get_domain libvirt name w).0))
      ]

  undefine_domain-IsBalanced : (name : Bytes) → IsBalanced (undefine_domain libvirt name)
  unfolding undefine_domain ignored
  undefine_domain-IsBalanced name w = inl (ground arith, ground arith)

  restart_body-IsBalanced :
      (name : Bytes) (graceful : Bool) → IsBalanced (restart_body libvirt name graceful)
  unfolding restart_body
  restart_body-IsBalanced name true = attempt-IsBalanced _ _
  restart_body-IsBalanced name false =
      and_then-IsBalanced _ _ (attempt-IsBalanced _ _) (λ _. attempt-IsBalanced _ _)

  update_body-IsBalanced :
      (name : Bytes) (vcpus memory_mib storage : ℕ)
      → IsBalanced (update_body libvirt name vcpus memory_mib storage)
  unfolding update_body
  update_body-IsBalanced name vcpus memory_mib storage =
      and_then-IsBalanced _ _
        (if-IsBalanced (ltb 0 memory_mib) _ _ (attempt-IsBalanced _ _) done-IsBalanced)
        (λ _.
          and_then-IsBalanced _ _
            (if-IsBalanced (ltb 0 vcpus) _ _ (attempt-IsBalanced _ _) done-IsBalanced)
            (λ _.
              if-IsBalanced (ltb 0 storage) _ _ (fail-IsBalanced storage_not_supported)
                done-IsBalanced))

  delete_body-IsBalanced :
      (name disk_path : Bytes) → IsBalanced (delete_body libvirt name disk_path)
  unfolding delete_body
  delete_body-IsBalanced name disk_path =
      and_then-IsBalanced _ _ (ignored-IsBalanced (libvirt.destroy name)) (λ _.
        and_then-IsBalanced _ _ (undefine_domain-IsBalanced name)
          (λ _. attempt-IsBalanced (libvirt.remove disk_path) _))

  pub status_body-IsBalanced : (name : Bytes) → IsBalanced (status_body libvirt name)
  unfolding status_body
  status_body-IsBalanced name w = inl (refl, refl)

  -- Every operation on a virtual machine leaves the connection it opened open exactly if it has found
  -- the machine.
  pub operations_close :
      (name disk_path : Bytes) (graceful : Bool) (vcpus memory_mib storage : ℕ)
      → IsBalanced (start_vm libvirt name)
        × (IsBalanced (stop_vm libvirt name graceful)
            × (IsBalanced (restart_vm libvirt name graceful)
                × (IsBalanced (update_vm libvirt name vcpus memory_mib storage)
                    × (IsBalanced (delete_vm libvirt name disk_path)
                        × IsBalanced (get_vm_status libvirt name)))))
  unfolding start_vm stop_vm restart_vm update_vm delete_vm get_vm_status
  operations_close name disk_path graceful vcpus memory_mib storage = (
    with_domain-IsBalanced name (attempt (libvirt.create name) libvirt_failed)
        (attempt-IsBalanced _ _),
    (
      with_domain-IsBalanced name
          (attempt (if graceful then libvirt.shutdown name else libvirt.destroy name)
            libvirt_failed)
          (attempt-IsBalanced _ _),
      (
        with_domain-IsBalanced name (restart_body libvirt name graceful)
            (restart_body-IsBalanced name graceful),
        (
          with_domain-IsBalanced name (update_body libvirt name vcpus memory_mib storage)
              (update_body-IsBalanced name vcpus memory_mib storage),
          (
            with_domain-IsBalanced name (delete_body libvirt name disk_path)
                (delete_body-IsBalanced name disk_path),
            with_domain-IsBalanced name (status_body libvirt name) (status_body-IsBalanced name),
          ),
        ),
      ),
    ),
  )
