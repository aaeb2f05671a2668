-- ===== src/Daemon/Vms/Template/Markup.antt =====
-- The markup of the text of a domain.
use mechanicaldinosaurs.Base.{
  ℕ, zero, suc, ◌+◌, ◌/◌, ◌%◌, Bytes, ltb, ◌==◌, if◌then◌else◌, Lacks, All, ◌≡◌, refl, ◌≢◌, ◌||◌,
  ◌*◌, inl, inr, Bool, true, none, List, [], ◌∷◌, ◌++◌, arith, Bool-cases, length,
}
use mechanicaldinosaurs.Daemon.Vms.Config.{
  VmConfig, is_name_byte, validate_config, validate_config_iff,
}
use mechanicaldinosaurs.Daemon.Vms.Template.{
  sprintf, decimal_from, decimal, Machine, machine_of, segments, arguments, build_domain_xml,
}

-- How often a byte stands in a text, and in several.
abbrev pub count : ℕ → Bytes → ℕ
count b [] = 0
count b (c ∷ s) = if c == b then suc (count b s) else count b s

abbrev pub count_all : ℕ → List Bytes → ℕ
count_all b [] = 0
count_all b (s ∷ ss) = count b s + count_all b ss

abbrev pub is_markup : ℕ → Bool
is_markup c = c == b'<' || c == b'>' || c == b'\'' || c == b'&'

count-append : (b : ℕ) (s t : Bytes) → count b (s ++ t) ≡ count b s + count b t
count-append b [] t = omega arith
count-append b (c ∷ s) t = ground (arith, count-append b s t)

count-Lacks : (b : ℕ) (s : Bytes) → Lacks b s → count b s ≡ 0
count-Lacks b [] l = refl
count-Lacks b (c ∷ s) (l, ls) = ground (arith, count-Lacks b s ls)

count-sprintf :
    (b : ℕ) (ss args : List Bytes)
    → length ss ≡ suc (length args)
    → count b (sprintf ss args) ≡ count_all b ss + count_all b args
unfolding sprintf
count-sprintf b [] args e = absurd (omega (arith, e))
count-sprintf b (s ∷ []) [] e = omega arith
count-sprintf b (s ∷ t ∷ ss) [] e = absurd (omega (arith, e))
count-sprintf b (s ∷ ss) (a ∷ args) e = omega (
  arith,
  count-append b s (a ++ sprintf ss args),
  count-append b a (sprintf ss args),
  count-sprintf b ss args (omega (arith, e)),
)

decimal_from-Lacks :
    (b fuel n : ℕ) (out : Bytes)
    → is_markup b ≡ true
    → Lacks b out
    → Lacks b (decimal_from fuel n out)
unfolding decimal_from
decimal_from-Lacks b zero n out m l = l
decimal_from-Lacks b (suc fuel) n out m l =
    let digit : (b'0' + n % 10) ≢ b = ground arith in
    elim (Bool-cases (ltb n 10)) [
      | inl e ↦ rw e (digit, l)
      | inr e ↦ rw e (decimal_from-Lacks b fuel (n / 10) ((b'0' + n % 10) ∷ out) m (digit, l))
    ]

decimal-Lacks : (b n : ℕ) → is_markup b ≡ true → Lacks b (decimal n)
unfolding decimal
decimal-Lacks b n m = decimal_from-Lacks b (suc n) n [] m tt

name-Lacks :
    (b : ℕ) (s : Bytes) → is_markup b ≡ true → All (λ c. is_name_byte c ≡ true) s → Lacks b s
name-Lacks b [] m h = tt
name-Lacks b (c ∷ s) m (h, hs) = (ground arith, name-Lacks b s m hs)

-- The configuration, the paths and the graphics type of a text.
pub record Inputs : Type 0 where
  pub config : VmConfig
  pub iso_path : Bytes
  pub disk_path : Bytes
  pub drivers : Bytes
  pub graphics : Bytes

abbrev pub text_for : Bytes → Inputs → Bytes
text_for arch i = build_domain_xml arch i.config i.iso_path i.disk_path i.drivers i.graphics

abbrev pub free_markup : ℕ → Inputs → ℕ
free_markup b i = count b i.iso_path + count b i.disk_path + count b i.drivers + count b i.graphics

machine_markup : ℕ → Machine → ℕ
machine_markup b m =
    count b m.libvirt_arch
    + count b m.machine_type
    + count b m.firmware
    + count b m.extra_features
    + 2 * count b m.disk_dev_prefix
    + 2 * count b m.disk_bus
    + count b m.boot_disk_device

segments-length : length segments ≡ 18
unfolding segments
segments-length = refl

count-build_domain_xml :
    (b max_vcpu : ℕ) (arch : Bytes) (i : Inputs)
    → is_markup b ≡ true
    → validate_config max_vcpu i.config ≡ none
    → count b (text_for arch i)
      ≡ count_all b segments + machine_markup b (machine_of arch) + free_markup b i
unfolding build_domain_xml arguments machine_markup
count-build_domain_xml b max_vcpu arch i m v =
    let m' = machine_of arch in
    let name =
      count-Lacks b i.config.name
        (name-Lacks b i.config.name m ((validate_config_iff max_vcpu i.config).0 v).letters) in
    let memory =
      count-Lacks b (decimal i.config.memory_mib) (decimal-Lacks b i.config.memory_mib m) in
    let vcpus = count-Lacks b (decimal i.config.vcpus) (decimal-Lacks b i.config.vcpus m) in
    omega (
      arith,
      count-sprintf b segments (arguments m' i.config i.iso_path i.disk_path i.drivers i.graphics)
          segments-length,
      name,
      memory,
      vcpus,
    )

-- A byte of markup ("<", ">", "'" or "&") stands in the texts for two accepted configurations
-- equally often, but for what the paths and the graphics types hold of it: nothing else of a
-- configuration can add an element, an attribute or an entity.
pub build_domain_xml-markup :
    (b max_vcpu : ℕ) (arch : Bytes) (i j : Inputs)
    → is_markup b ≡ true
    → validate_config max_vcpu i.config ≡ none
    → validate_config max_vcpu j.config ≡ none
    → count b (text_for arch i) + free_markup b j ≡ count b (text_for arch j) + free_markup b i
build_domain_xml-markup b max_vcpu arch i j m v w = omega (
  arith,
  count-build_domain_xml b max_vcpu arch i m v,
  count-build_domain_xml b max_vcpu arch j m w,
)
