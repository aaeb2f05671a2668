-- ===== src/Base/Header.antt =====
-- What net/http makes of the value of a header: a value with a control byte other than the tab is not
-- sent, and the white space at both ends does not arrive.
use mechanicaldinosaurs.Base.{
  Bytes, codes, ◌++◌, ltb, ◌==◌, not, if◌then◌else◌, Bool, false, ◌&&◌, ◌||◌, Option, none, some,
  [], ◌∷◌, trim_space, ◌≡◌,
}

abbrev has_control : Bytes → Bool
has_control [] = false
has_control (c ∷ s) = (ltb c 32 && not (c == 9)) || c == 127 || has_control s

-- The value that arrives, or none if the request is not sent.
unfoldable pub header_value : Bytes → Option Bytes
unfolding trim_space
header_value v = if has_control v then none else some (trim_space v)

-- A secret whose authorization arrives as it was set.
abbrev pub ArrivesWhole : Bytes → Type 0
ArrivesWhole secret = header_value (codes "Bearer " ++ secret) ≡ some (codes "Bearer " ++ secret)
