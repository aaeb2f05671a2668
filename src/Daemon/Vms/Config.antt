-- ===== src/Daemon/Vms/Config.antt =====
-- server/server.go, `VMConfig`, and daemon/vms/create.go, `validateConfig`.
use mechanicaldinosaurs.Base.{
  ℕ, ◌≤◌, Bytes, Lacks, ltb, leb, ◌==◌, if◌then◌else◌, length, All, ◌≡◌, refl, ◌↔◌, Bool, true, not,
  ◌&&◌, ◌||◌, Option, none, some, [], ◌∷◌, arith,
}

pub record VmConfig : Type 0 where
  pub name : Bytes
  pub vcpus : ℕ
  pub memory_mib : ℕ
  pub boot_file : Bytes
  pub disk_gib : ℕ
  pub network_bridge : Bytes
  pub graphics_type : Bytes

-- `[a-zA-Z0-9-.]`.
abbrev pub is_name_byte : ℕ → Bool
is_name_byte c =
    (leb b'a' c && leb c b'z')
    || (leb b'A' c && leb c b'Z')
    || (leb b'0' c && leb c b'9')
    || c == b'-'
    || c == b'.'

-- `alphanumericRegexp.MatchString(name)`.
unfoldable pub matches_name : Bytes → Bool
matches_name [] = true
matches_name (c ∷ s) = is_name_byte c && matches_name s

abbrev pub max_memory_mib : ℕ
max_memory_mib = 32768

abbrev pub max_disk_gib : ℕ
max_disk_gib = 500

pub data ConfigError : Type 0 where
  invalid_name invalid_vcpus invalid_memory invalid_disk : ConfigError

-- `validateConfig`, with `MAX_VCPU`, the number of processors of the host.
unfoldable pub validate_config : ℕ → VmConfig → Option ConfigError
unfolding matches_name
validate_config max_vcpu config =
    if ltb 32 (length config.name) || not (matches_name config.name)
    then some invalid_name
    else if ltb config.vcpus 1 || ltb max_vcpu config.vcpus
    then some invalid_vcpus
    else if ltb config.memory_mib 128 || ltb max_memory_mib config.memory_mib
    then some invalid_memory
    else if ltb config.disk_gib 1 || ltb max_disk_gib config.disk_gib
    then some invalid_disk
    else none

-- What an accepted configuration is.
pub record IsValid (max_vcpu : ℕ) (config : VmConfig) : Type 0 where
  pub short : length config.name ≤ 32
  pub letters : All (λ c. is_name_byte c ≡ true) config.name
  pub some_vcpu : 1 ≤ config.vcpus
  pub vcpus_exist : config.vcpus ≤ max_vcpu
  pub some_memory : 128 ≤ config.memory_mib
  pub memory_bounded : config.memory_mib ≤ max_memory_mib
  pub some_disk : 1 ≤ config.disk_gib
  pub disk_bounded : config.disk_gib ≤ max_disk_gib

matches_name_iff : (s : Bytes) → (matches_name s ≡ true) ↔ All (λ c. is_name_byte c ≡ true) s
unfolding matches_name
matches_name_iff [] = ((λ h. tt), (λ h. refl))
matches_name_iff (c ∷ s) =
    let (forth, back) = matches_name_iff s in
    ((λ h. (ground arith, forth (ground arith))), (λ h. ground (arith, back h.1)))

-- A configuration is accepted exactly if its name has at most 32 bytes, each a letter, a digit, "-"
-- or ".", and its processors, memory and disk lie within their bounds.
pub validate_config_iff :
    (max_vcpu : ℕ) (config : VmConfig)
    → (validate_config max_vcpu config ≡ none) ↔ IsValid max_vcpu config
unfolding validate_config
validate_config_iff max_vcpu config = (forth, back)
  where
    forth : validate_config max_vcpu config ≡ none → IsValid max_vcpu config
    forth h = record {
      short = ground arith;
      letters = (matches_name_iff config.name).0 (ground arith);
      some_vcpu = ground arith;
      vcpus_exist = ground arith;
      some_memory = ground arith;
      memory_bounded = ground arith;
      some_disk = ground arith;
      disk_bounded = ground arith;
    }

    back : IsValid max_vcpu config → validate_config max_vcpu config ≡ none
    back v = ground (
      arith,
      (matches_name_iff config.name).1 v.letters,
      v.short,
      v.some_vcpu,
      v.vcpus_exist,
      v.some_memory,
      v.memory_bounded,
      v.some_disk,
      v.disk_bounded,
    )

-- The name of an accepted configuration holds no slash, so that the paths built from it stay in
-- their directories.
pub validate_config-Lacks :
    (max_vcpu : ℕ) (config : VmConfig)
    → validate_config max_vcpu config ≡ none
    → Lacks b'/' config.name
validate_config-Lacks max_vcpu config h =
    lacks config.name ((validate_config_iff max_vcpu config).0 h).letters
  where
    lacks : (s : Bytes) → All (λ c. is_name_byte c ≡ true) s → Lacks b'/' s
    lacks [] l = tt
    lacks (c ∷ s) (l, ls) = (ground arith, lacks s ls)
