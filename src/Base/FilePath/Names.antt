-- ===== src/Base/FilePath/Names.antt =====
-- The last element of a path.
use Prim.Native.Nat.{ℕ, ◌≤◌}
use mathlib.Core.Path.{◌≡◌, refl, sym, ap, subst, ◌∙◌}
use mathlib.Core.Logic.{◌≢◌, inl, inr}
use mathlib.Core.Bool.{Bool, true, false}
use mathlib.Core.List.{List, [], ◌∷◌, ◌++◌, reverse, reverse-append, reverse-reverse, append_assoc}
use native.Mathlib.Omega.{arith}
use mechanicaldinosaurs.Base.Tests.{◌==◌, Bool-cases}
use mechanicaldinosaurs.Base.Lists.{All, length}
use mechanicaldinosaurs.Base.Text.{
  Bytes, codes, split, split-cons, split-separator, split-byte, split-part, join, Lacks,
  reverse-All,
}
use mechanicaldinosaurs.Base.FilePath.{
  is_abs, resolve, render, clean, join_path, last_or, drop_slashes, trim_slashes, base, split-snoc,
  IsFileName, resolve-child,
}

last_or-snoc : (s : Bytes) (ps : List Bytes) (p : Bytes) → last_or s (ps ++ p ∷ []) ≡ p
last_or-snoc s [] p = refl
last_or-snoc s (q ∷ ps) p = last_or-snoc q ps p

drop_slashes-Lacks : (s t : Bytes) → s ≢ [] → Lacks b'/' s → drop_slashes (s ++ t) ≡ s ++ t
unfolding drop_slashes
drop_slashes-Lacks [] t n l = absurd (n refl)
drop_slashes-Lacks (c ∷ s) t n (l, ls) = ground arith

reverse-ne-nil : (s : Bytes) → s ≢ [] → reverse s ≢ []
reverse-ne-nil s n e = n (sym (reverse-reverse s) ∙ ap reverse e)

trim_slashes-append : (s name : Bytes) → IsFileName name → trim_slashes (s ++ name) ≡ s ++ name
unfolding trim_slashes
trim_slashes-append s name f =
    ap (λ t. reverse (drop_slashes t)) (reverse-append s name)
    ∙ ap reverse (
        drop_slashes-Lacks (reverse name) (reverse s) (reverse-ne-nil name f.not_empty)
          (reverse-All (λ c. c ≢ b'/') name f.no_slash))
    ∙ ap reverse (sym (reverse-append s name))
    ∙ reverse-reverse (s ++ name)

base-tight : (s : Bytes) → s ≢ [] → trim_slashes s ≡ s → base s ≡ last_or [] (split s b'/')
unfolding base
base-tight [] n e = absurd (n refl)
base-tight (c ∷ s) n e = rw (e, base) refl

append-ne-nil : (s : Bytes) (c : ℕ) (t : Bytes) → s ++ c ∷ t ≢ []
append-ne-nil [] c t e = cc
append-ne-nil (d ∷ s) c t e = cc

-- The last element of a path that ends in a file name.
base-append : (s name : Bytes) → IsFileName name → base (s ++ b'/' ∷ name) ≡ name
base-append s name f =
    base-tight (s ++ b'/' ∷ name) (append-ne-nil s b'/' name) (
      ap trim_slashes (sym (append_assoc s (b'/' ∷ []) name))
      ∙ trim_slashes-append (s ++ b'/' ∷ []) name f
      ∙ append_assoc s (b'/' ∷ []) name)
    ∙ ap (last_or []) (split-snoc s name b'/' f.no_slash)
    ∙ last_or-snoc [] (split s b'/') name

base-name : (name : Bytes) → IsFileName name → base name ≡ name
base-name name f =
    base-tight name f.not_empty (trim_slashes-append [] name f)
    ∙ ap (last_or []) (split-part name b'/' f.no_slash)

join-snoc :
    (p : Bytes) (ps : List Bytes) (q : Bytes) (sep : Bytes)
    → join ((p ∷ ps) ++ q ∷ []) sep ≡ join (p ∷ ps) sep ++ (sep ++ q)
unfolding join
join-snoc p [] q sep = refl
join-snoc p (r ∷ ps) q sep = simp (join-snoc r ps q sep, append_assoc)

-- The last element of a cleaned path that ends in a file name.
base-render :
    (rooted : Bool) (ps : List Bytes) (name : Bytes)
    → IsFileName name
    → base (render (record { rooted = rooted; parts = ps ++ name ∷ [] })) ≡ name
unfolding join
base-render true [] name f = base-append [] name f
base-render false [] name f = base-name name f
base-render true (p ∷ ps) name f =
    ap (λ t. base (b'/' ∷ t)) (join-snoc p ps name (codes "/"))
    ∙ base-append (b'/' ∷ join (p ∷ ps) (codes "/")) name f
base-render false (p ∷ ps) name f =
    ap base (join-snoc p ps name (codes "/")) ∙ base-append (join (p ∷ ps) (codes "/")) name f

-- What a join of a directory, a directory in it and a file name is: one element more than the
-- directories.
pub resolve-join_path :
    (c : ℕ) (dir sub name : Bytes)
    → IsFileName name
    → join_path ((c ∷ dir) ∷ sub ∷ name ∷ [])
      ≡ render (record {
        rooted = is_abs (c ∷ dir);
        parts = (resolve ((c ∷ dir) ++ b'/' ∷ sub)).parts ++ name ∷ [];
      })
unfolding join_path clean join
resolve-join_path c dir sub name f =
    ap (λ t. render (resolve t)) (sym (append_assoc (c ∷ dir) (b'/' ∷ sub) (b'/' ∷ name)))
    ∙ ap render (resolve-child c (dir ++ b'/' ∷ sub) name f)

pub base-join_path :
    (c : ℕ) (dir sub name : Bytes)
    → IsFileName name
    → base (join_path ((c ∷ dir) ∷ sub ∷ name ∷ [])) ≡ name
base-join_path c dir sub name f =
    ap base (resolve-join_path c dir sub name f)
    ∙ base-render (is_abs (c ∷ dir)) (resolve ((c ∷ dir) ++ b'/' ∷ sub)).parts name f

-- A text of three bytes or more is none of "", "." and "..".
pub long-IsFileName : (s : Bytes) → Lacks b'/' s → 3 ≤ length s → IsFileName s
long-IsFileName s l h = record {
  no_slash = l;
  not_empty = λ e. omega (arith, ap length e);
  not_dot = λ e. omega (arith, ap length e);
  not_dots = λ e. omega (arith, ap length e);
}

split-Lacks : (s : Bytes) (sep : ℕ) → All (Lacks sep) (split s sep)
unfolding split
split-Lacks [] sep = (tt, tt)
split-Lacks (c ∷ s) sep =
    let (p, ps, h) = split-cons s sep in
    let (first, others) = subst (All (Lacks sep)) h (split-Lacks s sep) in
    elim (Bool-cases (c == sep)) [
      | inl e ↦ rw (split-separator c s sep e) (tt, split-Lacks s sep)
      | inr e ↦ rw (split-byte c s sep e h) ((ground arith, first), others)
    ]

last_or-All : (P : Bytes → Type 0) (t : Bytes) (ps : List Bytes) → P t → All P ps → P (last_or t ps)
last_or-All P t [] h hs = h
last_or-All P t (p ∷ ps) h (hp, hs) = last_or-All P p ps hp hs

-- The last part of a path has no slash.
pub last_or-split : (s : Bytes) → Lacks b'/' (last_or [] (split s b'/'))
last_or-split s = last_or-All (Lacks b'/') [] (split s b'/') tt (split-Lacks s b'/')
