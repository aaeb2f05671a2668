-- ===== src/Daemon/Iso.antt =====
-- daemon/server.go, the handler of `DownloadISORequest`: the address and the file of a download.
pub mod Copying
pub mod Paths
use mechanicaldinosaurs.Base.{
  Bytes, codes, equal, split, if◌then◌else◌, ◌⊎◌, inl, inr, Bool, not, Option, none, some, [], ◌++◌,
}
use mechanicaldinosaurs.Base.FilePath.{last_or}
use mechanicaldinosaurs.Daemon.Vms.Create.Disks.{iso_path}

-- `DownloadISOReq`.
pub record IsoRequest : Type 0 where
  pub url : Bytes
  pub os_name : Bytes
  pub version : Bytes

pub data IsoError : Type 0 where
  wrong_arch no_url url_not_parseable open_failed download_failed : IsoError

-- An Ubuntu image, by the words between its version and the architecture.
abbrev ubuntu_url : Bytes → Bytes → Bytes
ubuntu_url version kind =
    codes "https://mirror.pilotfiber.com/ubuntu-iso/"
    ++ (version ++ (codes "/ubuntu-" ++ (version ++ (kind ++ codes "-amd64.iso"))))

abbrev debian_url : Bytes → Bytes → Bytes
debian_url version arch =
    codes "https://cdimage.debian.org/debian-cd/"
    ++ (version
        ++ (codes "/"
            ++ (arch
                ++ (codes "/iso-cd/debian-"
                    ++ (version ++ (codes "-" ++ (arch ++ codes "-netinst.iso")))))))

-- The switch over the name of the system, and the check behind it.
unfoldable pub download_url : Bytes → IsoRequest → IsoError ⊎ Bytes
unfolding equal
download_url arch r =
    if equal r.os_name (codes "ubuntu-desktop")
    then if equal arch (codes "amd64")
      then inr (ubuntu_url r.version (codes "-desktop"))
      else inl wrong_arch
    else if equal r.os_name (codes "ubuntu-server")
    then if equal arch (codes "amd64")
      then inr (ubuntu_url r.version (codes "-live-server"))
      else inl wrong_arch
    else if equal r.os_name (codes "debian")
    then inr (debian_url r.version arch)
    else if equal r.url []
    then inl no_url
    else inr r.url

-- What `url.Parse` reads of an address, or none if it refuses it.
pub record Url : Type 0 where
  pub path : Bytes
  pub host : Bytes

module _ (parse_url : Bytes → Option Url) where
  unfoldable pub iso_name : IsoRequest → Bytes → IsoError ⊎ Bytes
  unfolding equal split
  iso_name r url =
      if equal r.os_name []
      then elim (parse_url url) [
        | none ↦ inl url_not_parseable
        | some u ↦
            let name = last_or [] (split u.path b'/') in
            if equal name []
            then inr (codes "iso-downloaded-from-" ++ (u.host ++ codes ".iso"))
            else inr name
      ]
      else inr (r.os_name ++ (codes "-" ++ (r.version ++ codes ".iso")))

-- The calls outside: `os.OpenFile`, `http.Get`, `os.Remove`, and the goroutine that copies the
-- body of the response to the file.
pub record Downloads (S : Type 0) : Type 0 where
  pub open_file : Bytes → S → S × Bool
  pub http_get : Bytes → S → S × Bool
  pub remove : Bytes → S → S
  pub start_copy : Bytes → S → S

module _ {S : Type 0} (downloads : Downloads S) (parse_url : Bytes → Option Url)
    (arch data_dir : Bytes) where
  open downloads use {open_file, http_get, remove, start_copy}

  fetch : Bytes → Bytes → S → S × Option IsoError
  fetch url path s =
      let opened = open_file path s in
      let got = http_get url opened.0 in
      if not opened.1
      then (opened.0, some open_failed)
      else if not got.1
      then (remove path got.0, some download_failed)
      else (start_copy path got.0, none)

  -- The handler, from the request on.
  unfoldable pub download_iso : IsoRequest → S → S × Option IsoError
  unfolding download_url iso_name fetch
  download_iso r s = elim (download_url arch r) [
    | inl e ↦ (s, some e)
    | inr url ↦ elim (iso_name parse_url r url) [
      | inl e ↦ (s, some e)
      | inr name ↦ fetch url (iso_path data_dir name) s
    ]
  ]
