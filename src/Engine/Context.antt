-- ===== src/Engine/Context.antt =====
-- automation-engine/context.go: the data that a trigger hands to an automation, and the lookup of
-- a dotted variable name in it by reflection.
pub mod Lookup
use mechanicaldinosaurs.Base.{
  ℕ, ℤ, Bytes, Bool, List, [], ◌∷◌, Option, none, some, Outcome, ok, err, panic, equal, split,
  if◌then◌else◌,
}

-- The dynamic types that `num` converts; each integer keeps its kind.
pub data IntKind : Type 0 where
  int int8 int16 int32 int64 uint uint8 uint16 uint32 uint64 : IntKind

-- A Go value of type `any`, over the type `F` of the float64 values, which hold each float32 exactly.
-- A map is its entries, the nil map has none. `other` is a value of any further type.
mutual
  pub data Value (F : Type 0) : Type 0 where
    int_value : IntKind → ℤ → Value F
    float32_value : F → Value F
    float64_value : F → Value F
    string_value : Bytes → Value F
    bool_value : Bool → Value F
    map_value : Entries F → Value F
    nil_value : Value F
    other : ℕ → Value F

  pub data Entries (F : Type 0) : Type 0 where
    end : Entries F
    entry : Bytes → Value F → Entries F → Entries F

pub data NotFound : Type 0 where
  not_found : NotFound

module _ {F : Type 0} where
  -- `m.MapIndex(key)` of a map, with `none` for the zero `reflect.Value`.
  unfoldable pub map_index : Entries F → Bytes → Option (Value F)
  unfolding equal
  map_index end key = none
  map_index (entry k v es) key = if equal k key then some v else map_index es key

  -- The loop of `Get` over the parts. `MapIndex` panics on what is no map, and `Interface` on the
  -- zero `reflect.Value` that stands for a nil interface.
  unfoldable pub walk : Value F → List Bytes → Outcome NotFound (Value F)
  unfolding map_index
  walk nil_value [] = panic
  walk v [] = ok v
  walk (map_value es) (part ∷ parts) = elim (map_index es part) [
    | none ↦ err not_found
    | some v ↦ walk v parts
  ]
  walk v (part ∷ parts) = panic

  -- `Context.Get`; the context is its field `Data`.
  unfoldable pub get : Entries F → Bytes → Outcome NotFound (Value F)
  unfolding walk split
  get data_ key = walk (map_value data_) (split key b'.')

-- The float64 operations of the platform, `fmt.Sprintf("%v", v)`, `Duration.Seconds` of a duration
-- in nanoseconds, the conversion of a float64 to int64, and `regexp.MatchString(pattern, text)`,
-- with `none` for a pattern that does not compile.
pub record Platform (F : Type 0) : Type 0 where
  pub of_int : ℤ → F
  pub float_eq : F → F → Bool
  pub float_lt : F → F → Bool
  pub float_le : F → F → Bool
  pub seconds : ℤ → F
  pub to_int64 : F → ℤ
  pub sprint : Value F → Bytes
  pub match_string : Bytes → Bytes → Option Bool
