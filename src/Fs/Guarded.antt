-- ===== src/Fs/Guarded.antt =====
-- src/fs.rs: the interface of a filesystem, as far as the handlers that are modelled call it. `S` is the
-- state of the filesystem; a call that only reads does not change it. The credentials are fixed.
use dav_server_rs.Common.{ℕ, Bool, List, Result, Bytes}
use dav_server_rs.DavPath.{DavPath}
use dav_server_rs.Fs.{FsError, DavProp}

pub record DavMetaData : Type 0 where
  pub len : ℕ
  pub is_dir : Bool
  pub is_file : Bool
  pub is_symlink : Bool
  pub is_calendar : DavPath → Bool
  pub is_addressbook : DavPath → Bool

-- An entry of a directory; its metadata are read when they are asked for.
pub record DavDirEntry (S : Type 0) : Type 0 where
  pub name : Bytes
  pub metadata : S → Result DavMetaData FsError

-- A call that may change the state.
abbrev pub Call : Type 0 → Type 0 → Type 0
Call S A = S → Result A FsError × S

-- `read_file` is `open` for reading, and `read_file_to_end` with its limit.
pub record GuardedFileSystem (S : Type 0) : Type 0 where
  pub read_dir : DavPath → S → Result (List (Result (DavDirEntry S) FsError)) FsError
  pub metadata : DavPath → S → Result DavMetaData FsError
  pub symlink_metadata : DavPath → S → Result DavMetaData FsError
  pub same_resource : DavPath → DavPath → S → Result Bool FsError
  pub read_file : DavPath → ℕ → S → Result Bytes FsError
  pub have_props : DavPath → S → Bool
  pub get_props : DavPath → Bool → S → Result (List DavProp) FsError
  pub remove_dir : DavPath → Call S (Unit {0})
  pub remove_file : DavPath → Call S (Unit {0})
  pub create_dir : DavPath → Call S (Unit {0})
  pub copy : DavPath → DavPath → Call S (Unit {0})
  pub rename : DavPath → DavPath → Call S (Unit {0})
  pub patch_props : DavPath → List (Bool × DavProp) → Call S (List (ℕ × DavProp))
  pub mark_calendar : DavPath → Call S (Unit {0})
  pub mark_addressbook : DavPath → Call S (Unit {0})
