-- ===== src/HandleMkcol/Undoing.antt =====
-- A MKCOL that fails is undone (src/handle_mkcol.rs).
use dav_server_rs.Common.{ℕ, Option, List, Result, Bytes}
use dav_server_rs.DavFilters.{Xml}
use dav_server_rs.DavPath.{DavPath}
use dav_server_rs.Errors.{DavError}
use dav_server_rs.Fs.Guarded.{DavMetaData, GuardedFileSystem}
use dav_server_rs.HandleMkcol.{Created}
use dav_server_rs.HandleMkcol.Made.{Makes}
use dav_server_rs.Ls.{DavLockSystem}
use dav_server_rs.Tree.Ends.{Ends}

module _ {S Owner : Type 0} (fs : GuardedFileSystem S) (ls : Option (DavLockSystem S Owner))
    (principal : Option Bytes)
    (get_tokens : Option DavMetaData → DavPath → S → Result (List Bytes) ℕ × S) (path : DavPath)
    (s : S) where
  module _ {Element Timestamps : Type 0} (xml : Xml Element) (parse2 : Bytes → Option Element)
      (apply_set_props : DavPath → Element → S → Result (Unit {0}) DavError × S)
      (apply_oc_timestamps : DavPath → Timestamps → S → S) (timestamps : Result Timestamps DavError)
      (body : Bytes) where
    abbrev Q : Result Created DavError → S → Type 0
    Q =
        Makes fs ls principal get_tokens path s xml apply_set_props parse2 body apply_oc_timestamps
          timestamps
