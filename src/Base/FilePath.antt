-- ===== src/Base/FilePath.antt =====
-- Go's path/filepath on a Unix system, on paths as lists of bytes.
pub mod Names
use Prim.Native.Nat.{ℕ}
use mathlib.Core.Path.{◌≡◌, refl, sym, ap, ◌∙◌}
use mathlib.Core.Logic.{◌≢◌, inl, inr}
use mathlib.Core.Bool.{Bool, false, ◌||◌}
use mathlib.Core.List.{List, [], ◌∷◌, ◌++◌, reverse, reverse-cons}
use native.Mathlib.Omega.{arith}
use mechanicaldinosaurs.Base.Tests.{◌==◌, if◌then◌else◌, Bool-cases}
use mechanicaldinosaurs.Base.Text.{
  Bytes, codes, equal, equal_iff, split, split-cons, split-separator, split-byte, split-part, join,
  Lacks,
}

-- `filepath.IsAbs`.
abbrev pub is_abs : Bytes → Bool
is_abs [] = false
is_abs (c ∷ s) = c == b'/'

-- What ".." does to the elements before it, the last first.
abbrev pop : Bool → List Bytes → List Bytes
pop rooted [] = if rooted then [] else codes ".." ∷ []
pop rooted (p ∷ ps) = if equal p (codes "..") then codes ".." ∷ (p ∷ ps) else ps

abbrev push : Bool → Bytes → List Bytes → List Bytes
push rooted p ps =
    if equal p [] || equal p (codes ".")
    then ps
    else if equal p (codes "..")
    then pop rooted ps
    else p ∷ ps

clean_parts : Bool → List Bytes → List Bytes → List Bytes
unfolding equal
clean_parts rooted done [] = done
clean_parts rooted done (p ∷ ps) = clean_parts rooted (push rooted p done) ps

-- A path as `filepath.Clean` understands it: whether it is absolute, and its elements.
pub record Resolved : Type 0 where
  pub rooted : Bool
  pub parts : List Bytes

unfoldable pub resolve : Bytes → Resolved
unfolding clean_parts split
resolve s = record { rooted = is_abs s; parts = reverse (clean_parts (is_abs s) [] (split s b'/')) }

abbrev pub render : Resolved → Bytes
unfolding join
render r =
    if r.rooted
    then b'/' ∷ join r.parts (codes "/")
    else elim r.parts [ [] ↦ codes "." | p ∷ ps ↦ join (p ∷ ps) (codes "/") ]

-- `filepath.Clean`.
unfoldable pub clean : Bytes → Bytes
unfolding resolve join
clean s = render (resolve s)

-- `filepath.Join`, which passes over empty elements at the beginning.
unfoldable pub join_path : List Bytes → Bytes
unfolding clean join
join_path [] = []
join_path ([] ∷ elems) = join_path elems
join_path ((c ∷ s) ∷ elems) = clean (join ((c ∷ s) ∷ elems) (codes "/"))

abbrev pub last_or : Bytes → List Bytes → Bytes
last_or s [] = s
last_or s (p ∷ ps) = last_or p ps

drop_slashes : Bytes → Bytes
drop_slashes [] = []
drop_slashes (c ∷ s) = if c == b'/' then drop_slashes s else c ∷ s

trim_slashes : Bytes → Bytes
unfolding drop_slashes
trim_slashes s = reverse (drop_slashes (reverse s))

-- `filepath.Base`.
unfoldable pub base : Bytes → Bytes
unfolding trim_slashes split
base [] = codes "."
base (c ∷ s) = elim (trim_slashes (c ∷ s)) [
  | [] ↦ codes "/"
  | d ∷ t ↦ last_or [] (split (d ∷ t) b'/')
]

abbrev pub ext_from : Bytes → Bytes → Bytes
ext_from [] seen = []
ext_from (c ∷ s) seen =
    let rest = ext_from s (c ∷ seen) in
    if c == b'/' then [] else if c == b'.' then c ∷ seen else rest

-- `filepath.Ext`, which looks at the bytes from the last on.
abbrev pub ext : Bytes → Bytes
ext s = ext_from (reverse s) []

pub split-snoc :
    (s p : Bytes) (sep : ℕ) → Lacks sep p → split (s ++ sep ∷ p) sep ≡ split s sep ++ p ∷ []
unfolding split
split-snoc [] p sep l = split-separator sep p sep (ground arith) ∙ ap (◌∷◌ []) (split-part p sep l)
split-snoc (c ∷ s) p sep l =
    let (q, qs, h) = split-cons s sep in
    elim (Bool-cases (c == sep)) [
      | inl e ↦
          split-separator c (s ++ sep ∷ p) sep e
          ∙ ap (◌∷◌ []) (split-snoc s p sep l)
          ∙ ap (λ ps. ps ++ p ∷ []) (sym (split-separator c s sep e))
      | inr e ↦
          split-byte c (s ++ sep ∷ p) sep e (split-snoc s p sep l ∙ ap (λ ps. ps ++ p ∷ []) h)
          ∙ ap (λ ps. ps ++ p ∷ []) (sym (split-byte c s sep e h))
    ]

equal_ne : (s t : Bytes) → s ≢ t → equal s t ≡ false
equal_ne s t h = elim (Bool-cases (equal s t)) [
  | inl e ↦ absurd (h ((equal_iff s t).0 e))
  | inr e ↦ e
]

clean_parts-append :
    (rooted : Bool) (done ps qs : List Bytes)
    → clean_parts rooted done (ps ++ qs) ≡ clean_parts rooted (clean_parts rooted done ps) qs
unfolding clean_parts
clean_parts-append rooted done [] qs = refl
clean_parts-append rooted done (p ∷ ps) qs = clean_parts-append rooted (push rooted p done) ps qs

-- The name of a file: no slash, and none of "", "." and "..".
pub record IsFileName (name : Bytes) : Type 0 where
  pub no_slash : Lacks b'/' name
  pub not_empty : name ≢ []
  pub not_dot : name ≢ codes "."
  pub not_dots : name ≢ codes ".."

push-IsFileName :
    (rooted : Bool) (name : Bytes) (done : List Bytes)
    → IsFileName name
    → push rooted name done ≡ name ∷ done
push-IsFileName rooted name done f = ground (
  arith,
  equal_ne name [] f.not_empty,
  equal_ne name (codes ".") f.not_dot,
  equal_ne name (codes "..") f.not_dots,
)

-- A file name behind a directory is one element more.
pub resolve-child :
    (c : ℕ) (dir name : Bytes)
    → IsFileName name
    → resolve ((c ∷ dir) ++ b'/' ∷ name)
      ≡ record { rooted = is_abs (c ∷ dir); parts = (resolve (c ∷ dir)).parts ++ name ∷ [] }
unfolding resolve
resolve-child c dir name f =
    ap (λ ps. record { rooted = is_abs (c ∷ dir); parts = ps })
      (ap (λ ps. reverse (clean_parts (is_abs (c ∷ dir)) [] ps))
          (split-snoc (c ∷ dir) name b'/' f.no_slash)
        ∙ ap reverse (clean_parts-append (is_abs (c ∷ dir)) [] (split (c ∷ dir) b'/') (name ∷ []))
        ∙ ap reverse (
            push-IsFileName (is_abs (c ∷ dir)) name
              (clean_parts (is_abs (c ∷ dir)) [] (split (c ∷ dir) b'/')) f)
        ∙ reverse-cons name (clean_parts (is_abs (c ∷ dir)) [] (split (c ∷ dir) b'/')))
