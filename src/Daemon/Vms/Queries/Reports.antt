-- ===== src/Daemon/Vms/Queries/Reports.antt =====
-- daemon/vms/vms.go: what the reports on virtual machines say, and the connections of the queries.
use mechanicaldinosaurs.Base.{
  ℕ, ℤ, pos, negsuc, ◌/◌, ◌^◌, ◌<◌, ◌≤◌, Bytes, codes, equal, Sum-cases, Option-cases, ◌≡◌, ◌↔◌,
  sym, ap, ◌∙◌, inl, inr, false, arith, Option, none, some,
}
use mechanicaldinosaurs.Daemon.Vms.Config.{VmConfig}
use mechanicaldinosaurs.Daemon.Vms.Xml.{Domain, Memory}
use mechanicaldinosaurs.Daemon.Vms.Lifecycle.{
  Libvirt, World, M, and_then, throw, give, with_domain, get_domain,
}
use mechanicaldinosaurs.Daemon.Vms.Queries.{
  QemuImg, Descriptions, Vm, to_uint, memory_mib, memory_used, config_from_xml, unused_kib, report,
  vm_body, get_vm,
}

module _ {S : Type 0} where
  and_then-inr :
      {A B : Type 0} (m : M S A) (f : A → M S B) (w : World S) (b : B)
      → (and_then m f w).1 ≡ inr b
      → (a : A) × ((m w).1 ≡ inr a) × ((f a (m w).0).1 ≡ inr b)
  unfolding and_then
  and_then-inr m f w b p = elim (Sum-cases (m w).1) [
    | inl (e, h) ↦ ground (arith, rw (and_then, h) at p)
    | inr (a, h) ↦ (a, h, rw (and_then, h) at p)
  ]

to_uint-bounded : (z : ℤ) → to_uint z < 2 ^ 64
to_uint-bounded (pos n) = omega arith
to_uint-bounded (negsuc n) = omega arith

memory_mib-bounded : (m : Memory) (mib : ℕ) → memory_mib m ≡ some mib → mib < 2 ^ 64
unfolding memory_mib
memory_mib-bounded m mib p = ground arith

config_from_xml-bounded :
    (qemu_img : QemuImg) (d : Option Domain) (c : VmConfig × ℤ)
    → config_from_xml qemu_img d ≡ inr c
    → c.0.memory_mib < 2 ^ 64
unfolding config_from_xml
config_from_xml-bounded qemu_img none c p = ground arith
config_from_xml-bounded qemu_img (some d) c p = elim (Option-cases (memory_mib d.memory)) [
  | inl h ↦ ground (arith, rw (config_from_xml, h) at p)
  | inr (m, h) ↦ ground (arith, memory_mib-bounded d.memory m h, rw (config_from_xml, h) at p)
]

memory_used-none : (memory : ℕ) → memory < 2 ^ 64 → memory_used memory 0 ≡ memory
memory_used-none memory h = omega arith

memory_used_bounds :
    (memory unused : ℕ)
    → memory < 2 ^ 64
    → unused < 2 ^ 64
    → (memory_used memory unused ≤ memory) ↔ (unused / 1024 ≤ memory)
memory_used_bounds memory unused b c = (λ h. omega arith, λ h. omega arith)

module _ {S : Type 0} (libvirt : Libvirt S) (descriptions : Descriptions S)
    (qemu_img : QemuImg) where
  with_domain-inr :
      {A : Type 0} (name : Bytes) (body : M S A) (w : World S) (a : A)
      → (with_domain libvirt name body w).1 ≡ inr a
      → (body (get_domain libvirt name w).0).1 ≡ inr a
  unfolding with_domain
  with_domain-inr name body w a p = elim (Sum-cases (get_domain libvirt name w).1) [
    | inl (e, h) ↦ ground (arith, rw (with_domain, h) at p)
    | inr (_, h) ↦ rw (with_domain, h) at p
  ]

  unused_kib-stopped :
      (name status : Bytes) (w : World S) (u : ℕ)
      → equal status (codes "running") ≡ false
      → (unused_kib libvirt descriptions qemu_img name status w).1 ≡ inr u
      → u ≡ 0
  unfolding unused_kib give
  unused_kib-stopped name status w u h p = ground arith

  report-inr :
      (status : Bytes) (unused : ℕ) (d : Option Domain) (w : World S) (vm : Vm)
      → (report libvirt descriptions qemu_img status unused d w).1 ≡ inr vm
      → (vm.status ≡ status)
        × (vm.memory_used_mib ≡ memory_used vm.config.memory_mib unused)
        × (vm.config.memory_mib < 2 ^ 64)
  unfolding report throw give
  report-inr status unused d w vm p = elim (Sum-cases (config_from_xml qemu_img d)) [
    | inl (e, h) ↦ ground (arith, rw (report, h) at p)
    | inr (c, h) ↦ ground (arith, rw (report, h) at p, config_from_xml-bounded qemu_img d c h)
  ]

  -- What is reported of a machine that does not run: all its memory is used.
  get_vm-stopped :
      (name : Bytes) (w : World S) (vm : Vm)
      → (get_vm libvirt descriptions qemu_img name w).1 ≡ inr vm
      → equal vm.status (codes "running") ≡ false
      → vm.memory_used_mib ≡ vm.config.memory_mib
  unfolding get_vm vm_body
  get_vm-stopped name w vm p stopped =
      let (status, _, q) =
        and_then-inr _ _ _ _
          (with_domain-inr name (vm_body libvirt descriptions qemu_img name) w vm p) in
      let (unused, no_stats, r) = and_then-inr _ _ _ _ q in
      let (d, _, t) = and_then-inr _ _ _ _ r in
      let (same, used, bounded) = report-inr status unused d _ vm t in
      let zero : unused ≡ 0 =
        unused_kib-stopped name status _ unused
          (ap (λ s. equal s (codes "running")) (sym same) ∙ stopped) no_stats in
      used
      ∙ ap (memory_used vm.config.memory_mib) zero
      ∙ memory_used-none vm.config.memory_mib bounded

  -- The used memory that a report gives, in MiB, is no more than the memory of the machine just if the
  -- unused memory that the guest reports, in KiB and rounded down to whole MiB, is no more than it; if
  -- it is what a uint64 holds. A guest that reports a MiB more than its memory, or yet more, makes the
  -- difference wrap around.
  pub report_bounds :
      (status : Bytes) (unused : ℕ) (d : Option Domain) (w : World S) (vm : Vm)
      → unused < 2 ^ 64
      → (report libvirt descriptions qemu_img status unused d w).1 ≡ inr vm
      → (vm.memory_used_mib ≤ vm.config.memory_mib) ↔ (unused / 1024 ≤ vm.config.memory_mib)
  report_bounds status unused d w vm b p =
      let (_, used, bounded) = report-inr status unused d w vm p in
      let bounds = memory_used_bounds vm.config.memory_mib unused bounded b in
      (λ h. bounds.0 (omega (arith, used, h)), λ h. omega (arith, used, bounds.1 h))
