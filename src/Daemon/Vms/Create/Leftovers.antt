-- ===== src/Daemon/Vms/Create/Leftovers.antt =====
-- What a creation leaves behind, by its result.
use mechanicaldinosaurs.Base.{
  ℕ, ◌+◌, Option-cases, ◌≡◌, refl, ◌⊎◌, inl, inr, Bool, true, false, Option, none, some, arith,
}
use mechanicaldinosaurs.Daemon.Vms.Config.{VmConfig, validate_config}
use mechanicaldinosaurs.Daemon.Vms.Create.{
  Disk, blank, VmHost, Calls, CreateError, invalid_config, boot_file_missing, create_disk_failed,
  start_failed, no_port, graphics_of, start_domain, define_domain, create_vm,
}

-- qemu-img writes a new image to the path, over whatever stands there, if it succeeds.
abbrev pub IsQemuImg : Calls → Type 0
IsQemuImg calls =
    (size : ℕ) (disk : Option Disk)
    → (calls.create_disk size disk).1 ≡ true
    → (calls.create_disk size disk).0 ≡ some blank

-- The disk after a creation, by its result, from the disk before and what a qemu-img that failed has
-- left of it; and whether the domain is defined.
abbrev pub disk_left : CreateError ⊎ ℕ → Option Disk → Option Disk → Option Disk
disk_left (inl invalid_config) d failed = d
disk_left (inl boot_file_missing) d failed = d
disk_left (inl create_disk_failed) d failed = failed
disk_left (inl start_failed) d failed = none
disk_left _ d failed = some blank

abbrev pub domain_left : CreateError ⊎ ℕ → Bool → Bool
domain_left (inl start_failed) b = false
domain_left (inl no_port) b = true
domain_left (inr port) b = true
domain_left (inl _) b = b

-- The connections that are open: one more where a domain was defined.
abbrev pub opened_left : CreateError ⊎ ℕ → ℕ → ℕ
opened_left (inl start_failed) n = n + 1
opened_left (inl no_port) n = n + 1
opened_left (inr port) n = n + 1
opened_left (inl _) n = n

module _ (calls : Calls) where
  define_domain-left :
      (config : VmConfig) (h : VmHost)
      → calls.undefines ≡ true
      → calls.removes ≡ true
      → h.disk ≡ some blank
      → let r = define_domain calls config h in
        (r.0.disk ≡ disk_left r.1 h.disk h.disk)
        × ((r.0.domain ≡ domain_left r.1 h.domain) × (r.0.opened ≡ opened_left r.1 h.opened))
  unfolding define_domain start_domain
  define_domain-left config h u r d = ground arith

  -- Where qemu-img, if it succeeds, has written a new image, and a domain is undefined and a file
  -- removed when that is asked for, the result says what a creation leaves behind: a refusal before
  -- the disk leaves the disk and the domain as they were, and a qemu-img that fails the domain, and
  -- the disk as it made it; a start that fails leaves neither; success and a missing port leave both;
  -- and a refused graphics type, a failed connection or definition leave a blank disk behind. The
  -- connection to libvirt stays open exactly where the domain was defined, also if it then did not
  -- start.
  pub create_vm-left :
      (max_vcpu : ℕ) (config : VmConfig) (h : VmHost)
      → IsQemuImg calls
      → calls.undefines ≡ true
      → calls.removes ≡ true
      → ((create_vm calls max_vcpu config h).0.disk
          ≡ disk_left
              (create_vm calls max_vcpu config h).1
              h.disk
              (calls.create_disk config.disk_gib h.disk).0)
        × (((create_vm calls max_vcpu config h).0.domain
              ≡ domain_left (create_vm calls max_vcpu config h).1 h.domain)
            × ((create_vm calls max_vcpu config h).0.opened
                ≡ opened_left (create_vm calls max_vcpu config h).1 h.opened))
  unfolding create_vm
  create_vm-left max_vcpu config h q u r = elim (Option-cases (graphics_of config.graphics_type)) [
    | inl e ↦ ground (arith, q config.disk_gib h.disk)
    | inr (g, e) ↦ ground (
      arith,
      q config.disk_gib h.disk,
      define_domain-left (record config { graphics_type = g }) (record h { disk = some blank }) u r
          refl,
    )
  ]

  define_domain-disk :
      (config : VmConfig) (h : VmHost)
      → ((define_domain calls config h).0.disk ≡ none)
        ⊎ ((define_domain calls config h).0.disk ≡ h.disk)
  unfolding define_domain start_domain
  define_domain-disk config h = ground arith

  -- A creation under a name whose disk exists: once qemu-img has written the new image, what stood
  -- on the disk is lost, whatever the result is, also if libvirt then refuses the name.
  create_vm_overwrites :
      (max_vcpu : ℕ) (config : VmConfig) (h : VmHost)
      → validate_config max_vcpu config ≡ none
      → calls.boot_file_exists config.boot_file ≡ true
      → calls.create_disk config.disk_gib h.disk ≡ (some blank, true)
      → ((create_vm calls max_vcpu config h).0.disk ≡ none)
        ⊎ ((create_vm calls max_vcpu config h).0.disk ≡ some blank)
  unfolding create_vm
  create_vm_overwrites max_vcpu config h v b q =
      elim (Option-cases (graphics_of config.graphics_type)) [
        | inl e ↦ ground arith
        | inr (g, e) ↦ ground (
          arith,
          define_domain-disk (record config { graphics_type = g }) (record h { disk = some blank }),
        )
      ]
