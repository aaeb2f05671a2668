-- ===== src/Daemon/Services.antt =====
-- daemon/services.go: the services of systemd, by commands and files that a valid name makes safe.
pub mod Names
use mechanicaldinosaurs.Base.{
  ℕ, Bytes, codes, equal, has_suffix, is_space, split, join, ltb, leb, if◌then◌else◌, length, drop,
  Outcome, ok, err, panic, ◌⊎◌, inl, inr, Bool, true, false, not, ◌&&◌, ◌||◌, Option, none, some,
  List, [], ◌∷◌, ◌++◌,
}
use mathlib.Core.List.{reverse}

-- `[a-zA-Z0-9]`.
abbrev pub is_alphanumeric : ℕ → Bool
is_alphanumeric c =
    (leb b'a' c && leb c b'z') || (leb b'A' c && leb c b'Z') || (leb b'0' c && leb c b'9')

abbrev pub all_bytes : (ℕ → Bool) → Bytes → Bool
all_bytes test [] = true
all_bytes test (c ∷ s) = test c && all_bytes test s

abbrev service_suffix : Bytes
service_suffix = codes ".service"

-- `strings.CutSuffix(name, suffix)`.
cut_suffix : Bytes → Bytes → Option Bytes
unfolding has_suffix
cut_suffix name suffix =
    if has_suffix name suffix then some (reverse (drop (length suffix) (reverse name))) else none

-- `validateServiceName`.
unfoldable pub validate_service_name : Bytes → Bool
unfolding cut_suffix
validate_service_name name = elim (cut_suffix name service_suffix) [
  | none ↦ false
  | some after ↦ all_bytes is_alphanumeric after
]

-- What the functions do outside: they read, write and remove files, and run commands.
pub data Effect : Type 0 where
  read_file remove_file : Bytes → Effect
  write_file : Bytes → Bytes → Effect
  run_command : List Bytes → Effect

-- The outcome of each effect: its output, or none for an error.
abbrev pub Host : Type 0
Host = Effect → Option Bytes

pub data ServiceError : Type 0 where
  invalid_name failed : ServiceError

-- The calls that take a name.
pub data Operation : Type 0 where
  get_service_content delete_service enable_service disable_service : Operation
  start_service stop_service restart_service get_service_logs : Operation
  create_service : Bytes → Operation

-- `filepath.Join("/etc/systemd/system/", name)`, of a name with no slash.
abbrev unit_path : Bytes → Bytes
unit_path name = codes "/etc/systemd/system/" ++ name

abbrev systemctl : Bytes → Bytes → Effect
systemctl verb name = run_command (codes "systemctl" ∷ verb ∷ name ∷ [])

abbrev daemon_reload : Effect
daemon_reload = run_command (codes "systemctl" ∷ codes "daemon-reload" ∷ [])

-- The effects of a call with a valid name, in their order; each is made if those before succeed.
unfoldable pub effects : Operation → Bytes → List Effect
effects get_service_content name = read_file (unit_path name) ∷ []
effects (create_service content) name = write_file (unit_path name) content ∷ daemon_reload ∷ []
effects delete_service name = remove_file (unit_path name) ∷ daemon_reload ∷ []
effects enable_service name = systemctl (codes "enable") name ∷ []
effects disable_service name = systemctl (codes "disable") name ∷ []
effects start_service name = systemctl (codes "start") name ∷ []
effects stop_service name = systemctl (codes "stop") name ∷ []
effects restart_service name = systemctl (codes "restart") name ∷ []
effects get_service_logs name = run_command (codes "journalctl" ∷ codes "-u" ∷ name ∷ []) ∷ []

-- The effects that are made until one fails, and the output of the last.
unfoldable pub perform : Host → List Effect → Bytes → List Effect × (ServiceError ⊎ Bytes)
perform host [] output = ([], inr output)
perform host (e ∷ es) output = elim (host e) [
  | none ↦ (e ∷ [], inl failed)
  | some text ↦ let (made, result) = perform host es text in (e ∷ made, result)
]

-- A call: what it did, and its result.
unfoldable pub run_operation : Host → Operation → Bytes → List Effect × (ServiceError ⊎ Bytes)
unfolding validate_service_name effects perform
run_operation host op name =
    if not (validate_service_name name)
    then ([], inl invalid_name)
    else perform host (effects op name) []

-- The fields of a line of `systemctl list-units`.
pub record Service : Type 0 where
  pub name : Bytes
  pub status : Bytes
  pub description : Bytes

-- `strings.Fields`, with the bytes of the field that is being read.
end_field : Bytes → List Bytes → List Bytes
end_field [] rest = rest
end_field (c ∷ cur) rest = (c ∷ cur) ∷ rest

fields_from : Bytes → Bytes → List Bytes
unfolding end_field
fields_from cur [] = end_field cur []
fields_from cur (c ∷ s) =
    let next = fields_from [] s in
    let more = fields_from (cur ++ c ∷ []) s in if is_space c then end_field cur next else more

unfoldable pub fields : Bytes → List Bytes
unfolding fields_from
fields = fields_from []

-- What becomes of one line: the loop ends, the line is passed over, a service is found, or an index
-- is out of range.
pub data Line : Type 0 where
  stop_here pass_over out_of_range : Line
  service : Service → Line

-- The line from the index of the service's name on: `fields[skipIndexes:]`.
service_at : List Bytes → Line
unfolding equal join
service_at (name ∷ load ∷ active ∷ sub ∷ words) =
    if not (equal load (codes "loaded"))
    then pass_over
    else service (record { name = name; status = sub; description = join words (codes " ") })
service_at _ = out_of_range

pub parse_line : List Bytes → Line
unfolding has_suffix service_at
parse_line [] = stop_here
parse_line (f ∷ fs) =
    if ltb (length (f ∷ fs)) 5
    then stop_here
    else if has_suffix f service_suffix
    then service_at (f ∷ fs)
    else if ltb (length (f ∷ fs)) 6
    then pass_over
    else service_at fs

-- The loop of `ListServices`; none is a panic.
list_lines : List Bytes → Option (List Service)
unfolding parse_line fields
list_lines [] = some []
list_lines (line ∷ lines) =
    let rest = list_lines lines in
    elim (parse_line (fields line)) [
      | stop_here ↦ some []
      | pass_over ↦ rest
      | out_of_range ↦ none
      | service s ↦ elim rest [ none ↦ none | some ss ↦ some (s ∷ ss) ]
    ]

pub data ListError : Type 0 where
  command_failed malformed : ListError

-- `ListServices`, on the output of the command, or its failure.
unfoldable pub list_services : Option Bytes → Outcome ListError (List Service)
unfolding list_lines split
list_services none = err command_failed
list_services (some output) = checked (split output b'\n')
  where
    listed : Option (List Service) → Outcome ListError (List Service)
    listed none = panic
    listed (some ss) = ok ss

    checked : List Bytes → Outcome ListError (List Service)
    checked [] = err malformed
    checked (header ∷ lines) =
        if ltb (length (header ∷ lines)) 3 then err malformed else listed (list_lines lines)
