-- ===== src/HandleGethead/Visible.antt =====
-- src/handle_gethead.rs: `ensure_visible`, which hides names and symbolic links. With the features caldav
-- and carddav.
pub mod Hiding
use dav_server_rs.Common.{
  ℕ, zero, suc, Bool, true, false, ◌||◌, ◌&&◌, Option, none, some, List, [], ◌∷◌, Result, ok, err,
  Bytes, codes, if◌then◌else◌, any, length, split_on, starts_with, nat_eq,
}
use dav_server_rs.DavHeaders.Server.{eq_ignore_ascii_case}
use dav_server_rs.DavPath
use dav_server_rs.DavPath.{DavPath, as_bytes, parent, segments}
use dav_server_rs.Errors.{DavError, status, fs_error}
use dav_server_rs.Fs.{FsError}
use dav_server_rs.Fs.Guarded.{DavMetaData, GuardedFileSystem}

pub data DavOptionHide : Type 0 where
  never in_auto_index_listings in_listings for_direct_paths always : DavOptionHide

-- What of the handler's configuration hides.
pub record DavInner : Type 0 where
  pub hide_symlinks : Bool
  pub hide_dot_prefix : DavOptionHide

unfoldable pub is_collection_marker : Bytes → Bool
is_collection_marker name =
    if eq_ignore_ascii_case name (codes ".dav-calendar")
    then true
    else if eq_ignore_ascii_case name (codes ".dav-addressbook")
    then true
    else false

unfoldable pub hides_direct_paths : DavOptionHide → Bool
hides_direct_paths always = true
hides_direct_paths for_direct_paths = true
hides_direct_paths _ = false

abbrev pub is_dotted : Bytes → Bool
is_dotted name = starts_with name (codes ".")

abbrev pub is_not_found : FsError → Bool
is_not_found FsError.not_found = true
is_not_found _ = false

module _ {S : Type 0} (fs : GuardedFileSystem S) where
  unfoldable pub check_link : DavPath → S → Result (Unit {0}) DavError
  check_link current s = elim (fs.symlink_metadata current s) [
    | ok meta ↦ if meta.is_symlink then err (status 404) else ok tt
    | err e ↦ if is_not_found e then ok tt else err (fs_error e)
  ]

  -- The loop over the path and those above it.
  unfoldable pub check_links : ℕ → DavPath → S → Option (Result (Unit {0}) DavError)
  check_links zero current s = none
  check_links (suc fuel) current s = elim (check_link current s) [
    | err e ↦ some (err e)
    | ok _ ↦ elim (DavPath.eq (parent current) current) [
      | true ↦ some (ok tt)
      | false ↦ check_links fuel (parent current) s
    ]
  ]

  -- The path has one segment more than the one above it.
  unfoldable pub ensure_visible : DavInner → DavPath → S → Option (Result (Unit {0}) DavError)
  ensure_visible inner path s =
      let names = split_on b'/' (as_bytes path) in
      if any is_collection_marker names
      then some (err (status 404))
      else if hides_direct_paths inner.hide_dot_prefix && any is_dotted names
      then some (err (status 404))
      else if inner.hide_symlinks
      then check_links (suc (length (segments (as_bytes path)))) path s
      else some (ok tt)
