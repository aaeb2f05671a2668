-- ===== src/Daemon/Iso/Paths.antt =====
-- daemon/server.go, the handler of `DownloadISORequest`: where the image is stored.
use mechanicaldinosaurs.Base.{
  ℕ, ◌+◌, ◌≤◌, ◌≢◌, Bytes, codes, equal, equal_iff, split, Lacks, length, length-append, All-append,
  Bool-cases, Option-cases, ◌≡◌, sym, ◌∙◌, subst, ◌⊎◌, inl, inr, true, false, Option, some, [], ◌∷◌,
  ◌++◌, arith,
}
use mechanicaldinosaurs.Base.FilePath.{is_abs, resolve, render, last_or, IsFileName}
use mechanicaldinosaurs.Base.FilePath.Names.{resolve-join_path, long-IsFileName, last_or-split}
use mechanicaldinosaurs.Daemon.Vms.Create.Disks.{iso_path}
use mechanicaldinosaurs.Daemon.Iso.{IsoRequest, Url, iso_name}

iso-IsFileName :
    (first second : Bytes)
    → 3 ≤ length first + length second
    → Lacks b'/' first
    → Lacks b'/' second
    → IsFileName (first ++ second)
iso-IsFileName first second n l k =
    long-IsFileName (first ++ second) (All-append (λ c. c ≢ b'/') first second l k)
      (omega (arith, length-append first second))

named-IsFileName :
    (r : IsoRequest)
    → Lacks b'/' r.os_name
    → Lacks b'/' r.version
    → IsFileName (r.os_name ++ (codes "-" ++ (r.version ++ codes ".iso")))
named-IsFileName r l k =
    iso-IsFileName r.os_name (codes "-" ++ (r.version ++ codes ".iso"))
      (omega (arith, length-append r.version (codes ".iso"))) l
      (ground arith, All-append (λ c. c ≢ b'/') r.version (codes ".iso") k (ground arith))

host-IsFileName :
    (host : Bytes)
    → Lacks b'/' host
    → IsFileName (codes "iso-downloaded-from-" ++ (host ++ codes ".iso"))
host-IsFileName host l =
    iso-IsFileName (codes "iso-downloaded-from-") (host ++ codes ".iso") (omega arith)
      (ground arith) (All-append (λ c. c ≢ b'/') host (codes ".iso") l (ground arith))

unequal : (s t : Bytes) → equal s t ≡ false → s ≢ t
unequal s t h e = ground (arith, (equal_iff s t).1 e)

-- A text without a slash is a file name or one of "", "." and "..".
part-IsFileName :
    (s : Bytes)
    → Lacks b'/' s
    → equal s [] ≡ false
    → IsFileName s ⊎ ((s ≡ codes ".") ⊎ (s ≡ codes ".."))
part-IsFileName s l n = elim (Bool-cases (equal s (codes "."))) [
  | inl d ↦ inr (inl ((equal_iff s (codes ".")).0 d))
  | inr d ↦ elim (Bool-cases (equal s (codes ".."))) [
    | inl dd ↦ inr (inr ((equal_iff s (codes "..")).0 dd))
    | inr dd ↦ inl (record {
      no_slash = l;
      not_empty = unequal s [] n;
      not_dot = unequal s (codes ".") d;
      not_dots = unequal s (codes "..") dd;
    })
  ]
]

iso_name-IsFileName :
    (parse_url : Bytes → Option Url) (r : IsoRequest) (url name : Bytes)
    → iso_name parse_url r url ≡ inr name
    → Lacks b'/' r.os_name
    → Lacks b'/' r.version
    → ((u : Url) → parse_url url ≡ some u → Lacks b'/' u.host)
    → IsFileName name ⊎ ((equal r.os_name [] ≡ true) × ((name ≡ codes ".") ⊎ (name ≡ codes "..")))
unfolding iso_name
iso_name-IsFileName parse_url r url name p l k h = elim (Bool-cases (equal r.os_name [])) [
  | inr e ↦ inl (subst IsFileName (ground (arith, rw (iso_name, e) at p)) (named-IsFileName r l k))
  | inl e ↦ elim (Option-cases (parse_url url)) [
    | inl n ↦ ground (arith, rw (iso_name, e, n) at p)
    | inr (u, n) ↦
        let last = last_or [] (split u.path b'/') in
        elim (Bool-cases (equal last [])) [
          | inl m ↦ inl (
              subst IsFileName (ground (arith, rw (iso_name, e, n, m) at p))
                (host-IsFileName u.host (h u n)))
          | inr m ↦
              let same : last ≡ name = ground (arith, rw (iso_name, e, n, m) at p) in
              elim (part-IsFileName last (last_or-split u.path) m) [
                | inl f ↦ inl (subst IsFileName same f)
                | inr (inl d) ↦ inr (e, inl (sym same ∙ d))
                | inr (inr d) ↦ inr (e, inr (sym same ∙ d))
              ]
        ]
  ]
]

-- An image is stored directly in the directory of the boot files, if there is no slash in the name of
-- the system, the version and the host, and the data directory is set; but for an address, given
-- without a system, whose path ends in "." or "..".
pub iso_path-inside :
    (parse_url : Bytes → Option Url) (r : IsoRequest) (url name : Bytes) (c : ℕ) (data_dir : Bytes)
    → iso_name parse_url r url ≡ inr name
    → Lacks b'/' r.os_name
    → Lacks b'/' r.version
    → ((u : Url) → parse_url url ≡ some u → Lacks b'/' u.host)
    → (iso_path (c ∷ data_dir) name
        ≡ render (record {
          rooted = is_abs (c ∷ data_dir);
          parts = (resolve ((c ∷ data_dir) ++ codes "/boot_files")).parts ++ name ∷ [];
        }))
      ⊎ ((equal r.os_name [] ≡ true) × ((name ≡ codes ".") ⊎ (name ≡ codes "..")))
iso_path-inside parse_url r url name c data_dir p l k h =
    elim (iso_name-IsFileName parse_url r url name p l k h) [
      | inl f ↦ inl (resolve-join_path c data_dir (codes "boot_files") name f)
      | inr dots ↦ inr dots
    ]
