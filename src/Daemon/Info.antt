-- ===== src/Daemon/Info.antt =====
-- daemon/info.go: what a daemon reads about its machine. The files and the answers of gopsutil are
-- arguments.
pub mod Fields
use mechanicaldinosaurs.Base.{
  ℕ, ℤ, pos, negsuc, zero, suc, ◌+◌, ◌-◌, ◌*◌, ◌^◌, Bytes, codes, has_prefix, index_byte,
  trim_space, split, ltb, leb, ◌==◌, if◌then◌else◌, drop, Bool, true, false, ◌&&◌, Option, none,
  some, List, [], ◌∷◌, ◌++◌,
}
use mechanicaldinosaurs.Rpc.Info.{Info}

-- `strconv.Atoi`: a sign may stand in front; a number beyond the int64 range is refused.
digits_value : ℕ → Bytes → Option ℕ
digits_value n [] = some n
digits_value n (c ∷ s) =
    let rest = digits_value (n * 10 + (c - b'0')) s in
    if leb b'0' c && leb c b'9' then rest else none

unsigned_value : Bytes → Option ℕ
unfolding digits_value
unsigned_value [] = none
unsigned_value (c ∷ s) = digits_value 0 (c ∷ s)

abbrev max_int64 : ℕ
max_int64 = 2 ^ 63 - 1

abbrev to_pos : Option ℕ → Option ℤ
to_pos none = none
to_pos (some n) = if ltb max_int64 n then none else some (pos n)

abbrev to_neg : Option ℕ → Option ℤ
to_neg none = none
to_neg (some zero) = some (pos 0)
to_neg (some (suc n)) = if ltb max_int64 n then none else some (negsuc n)

unfoldable pub atoi : Bytes → Option ℤ
unfolding unsigned_value
atoi [] = none
atoi (c ∷ s) =
    if c == b'-'
    then to_neg (unsigned_value s)
    else if c == b'+'
    then to_pos (unsigned_value s)
    else to_pos (unsigned_value (c ∷ s))

-- The part of a line behind its first ":", as `SplitN(line, ":", 2)` gives it.
after_colon : Bytes → Option Bytes
unfolding index_byte
after_colon line = elim (index_byte line b':') [ none ↦ none | some i ↦ some (drop (suc i) line) ]

-- The loop over the lines, with none if no line has the field.
pub search_field : List Bytes → Bytes → Option Bytes
unfolding has_prefix after_colon trim_space
search_field [] field = none
search_field (line ∷ lines) field =
    let rest = search_field lines field in
    if has_prefix line field
    then elim (after_colon line) [ none ↦ rest | some value ↦ some (trim_space value) ]
    else rest

-- `fieldValueFromProcFile` on the text of the file, or none if it cannot be read: the value, and
-- whether the error is nil.
unfoldable pub field_value_from_proc_file : Option Bytes → Bytes → Bytes × Bool
unfolding search_field split
field_value_from_proc_file none field = (codes "unknown", false)
field_value_from_proc_file (some text) field = elim (search_field (split text b'\n') field) [
  | none ↦ (codes "unknown", false)
  | some value ↦ (value, true)
]

-- `getBatteryInfo`, on the names in the directory and the text of a file.
pub battery_info : Option (List Bytes) → (Bytes → Option Bytes) → Bool × Bytes
unfolding has_prefix trim_space
battery_info none read_file = (false, [])
battery_info (some []) read_file = (false, [])
battery_info (some (name ∷ names)) read_file =
    if has_prefix name (codes "BAT")
    then elim (read_file (codes "/sys/class/power_supply/" ++ (name ++ codes "/model_name"))) [
      | none ↦ (true, [])
      | some text ↦ (true, trim_space text)
    ]
    else battery_info (some names) read_file

pub record HostInfo : Type 0 where
  pub hostname : Bytes
  pub os : Bytes
  pub platform_version : Bytes
  pub uptime : ℕ

-- The answers of gopsutil, with none for an error, and the float64 values that `getCPUTemp` and a
-- missing answer give. `files` are the texts of the files that can be read.
pub record Host (F : Type 0) : Type 0 where
  pub host_info : Option HostInfo
  pub files : Bytes → Option Bytes
  pub arch : Bytes
  pub num_cpu : ℤ
  pub cpu_percent : Option (List F)
  pub virtual_memory : Option (ℕ × ℕ)
  pub disk_usage : Option (ℕ × ℕ)
  pub power_supplies : Option (List Bytes)
  pub zero_float : F
  pub minus_one : F
  pub thousandths : ℤ → F

abbrev host_text : (HostInfo → Bytes) → Option HostInfo → Bytes
host_text field none = []
host_text field (some h) = field h

abbrev host_uptime : Option HostInfo → ℕ
host_uptime none = 0
host_uptime (some h) = h.uptime

abbrev total : Option (ℕ × ℕ) → ℕ
total none = 0
total (some (t, u)) = t

abbrev used : Option (ℕ × ℕ) → ℕ
used none = 0
used (some (t, u)) = u

module _ {F : Type 0} (host : Host F) where
  -- `getCPUTemp`.
  unfoldable pub cpu_temp : F
  unfolding atoi trim_space
  cpu_temp = elim (host.files (codes "/sys/class/thermal/thermal_zone0/temp")) [
    | none ↦ host.minus_one
    | some text ↦ elim (atoi (trim_space text)) [
      | none ↦ host.minus_one
      | some temp ↦ host.thousandths temp
    ]
  ]

  info_with : F → Info F
  unfolding field_value_from_proc_file battery_info cpu_temp
  info_with usage =
      let battery = battery_info host.power_supplies host.files in
      record {
        os = host_text (λ h. h.os) host.host_info;
        os_release = host_text (λ h. h.platform_version) host.host_info;
        hostname = host_text (λ h. h.hostname) host.host_info;
        uptime = host_uptime host.host_info;
        cpu =
            (field_value_from_proc_file (host.files (codes "/proc/cpuinfo"))
              (codes "model name")).0;
        cpu_arch = host.arch;
        cpu_num = host.num_cpu;
        cpu_usage = usage;
        cpu_temp = cpu_temp;
        memory_capacity = total host.virtual_memory;
        memory_used = used host.virtual_memory;
        storage_capacity = total host.disk_usage;
        storage_used = used host.disk_usage;
        has_battery = battery.0;
        battery = battery.1;
      }

  -- `GetServerInfo`, whose error is always nil; `cpuUsage[0]` panics on no values.
  unfoldable pub get_server_info : Option (Info F)
  unfolding info_with
  get_server_info = elim host.cpu_percent [
    | none ↦ some (info_with host.zero_float)
    | some [] ↦ none
    | some (usage ∷ rest) ↦ some (info_with usage)
  ]
