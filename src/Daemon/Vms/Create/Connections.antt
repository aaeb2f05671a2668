-- ===== src/Daemon/Vms/Create/Connections.antt =====
-- daemon/vms/create.go, `CreateVM`: the connection to libvirt that it opens.
use mechanicaldinosaurs.Base.{
  refl, Bool-cases, ◌||◌, ℕ, ◌+◌, Option-cases, ◌≡◌, inl, inr, true, arith,
}
use mechanicaldinosaurs.Daemon.Vms.Config.{VmConfig, validate_config}
use mechanicaldinosaurs.Daemon.Vms.Create.{
  VmHost, Calls, graphics_of, start_domain, define_domain, create_vm,
}
use mechanicaldinosaurs.Daemon.Vms.Lifecycle.Connections.{Kept}

module _ (calls : Calls) where
  start_domain-opened :
      (h : VmHost)
      → ((start_domain calls h).0.opened ≡ h.opened)
        × ((start_domain calls h).0.domains ≡ h.domains)
  unfolding start_domain
  start_domain-opened h = (ground arith, ground arith)

  abbrev CreateKept : VmHost → VmHost → Type 0
  CreateKept h k = Kept h.opened h.domains k.opened k.domains

  define_domain-Kept :
      (config : VmConfig) (h : VmHost) → CreateKept h (define_domain calls config h).0
  unfolding define_domain
  define_domain-Kept config h = elim (Bool-cases calls.connects) [
    | inr c ↦ rw c (inl (refl, refl))
    | inl c ↦ elim (Bool-cases (calls.define config)) [
      | inr d ↦ rw (c, d) (inl (refl, refl))
      | inl d ↦
          let (o, n) = start_domain-opened (record h {
            xml_file = calls.write_xml || h.xml_file;
            domain = true;
            opened = h.opened + 1;
            domains = h.domains + 1;
          }) in
          rw (c, d) (inr (omega (arith, o), omega (arith, o, n)))
    ]
  ]

  -- A creation leaves the connection it opened open exactly if it has defined the domain.
  pub create_vm-Kept :
      (max_vcpu : ℕ) (config : VmConfig) (h : VmHost)
      → CreateKept h (create_vm calls max_vcpu config h).0
  unfolding create_vm
  create_vm-Kept max_vcpu config h =
      let created = calls.create_disk config.disk_gib h.disk in
      let with_disk = record h { disk = created.0 } in
      elim (Option-cases (validate_config max_vcpu config)) [
        | inr (e, v) ↦ rw (create_vm, v) (inl (refl, refl))
        | inl v ↦ elim (Bool-cases (calls.boot_file_exists config.boot_file)) [
          | inr b ↦ rw (create_vm, v, b) (inl (refl, refl))
          | inl b ↦ elim (Bool-cases created.1) [
            | inr k ↦ rw (create_vm, v, b, k) (inl (refl, refl))
            | inl k ↦ elim (Option-cases (graphics_of config.graphics_type)) [
              | inl e ↦ rw (create_vm, v, b, k, e) (inl (refl, refl))
              | inr (g, e) ↦
                  rw (create_vm, v, b, k, e)
                    (define_domain-Kept (record config { graphics_type = g }) with_disk)
            ]
          ]
        ]
      ]
