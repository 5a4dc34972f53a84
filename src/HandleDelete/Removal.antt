-- ===== src/HandleDelete/Removal.antt =====
-- src/handle_delete.rs: what a deletion that succeeds has removed.
use dav_server_rs.Common.{◌≡◌, true, false, List, [], ◌∷◌, Result, ok}
use dav_server_rs.DavHeaders.Values.{Depth}
use dav_server_rs.DavPath.{DavPath}
use dav_server_rs.Fs.{FsError}
use dav_server_rs.Fs.Guarded.{DavMetaData, DavDirEntry, GuardedFileSystem}
use dav_server_rs.HandleDelete.{entry_path, is_zero}

-- What is removed: a resource with its metadata, or the entries of a directory.
pub data Target (S : Type 0) : Type 0 where
  resource : DavMetaData → DavPath → Target S
  members : DavPath → List (Result (DavDirEntry S) FsError) → Target S

-- A target is removed, from one state to the next: a file by `remove_file`; a collection by
-- `remove_dir`, after each of its entries, in order, unless the depth is 0. Each entry was read, and
-- so were its metadata, and each call succeeded.
pub data Removes {S : Type 0} (fs : GuardedFileSystem S) (depth : Depth)
    : Target S → S → S → Type 0 where
  file :
      {meta : DavMetaData} {path : DavPath} {s : S}
      → meta.is_dir ≡ false
      → (fs.remove_file path s).0 ≡ ok tt
      → Removes fs depth (resource meta path) s (fs.remove_file path s).1
  alone :
      {meta : DavMetaData} {path : DavPath} {s : S}
      → meta.is_dir ≡ true
      → is_zero depth ≡ true
      → (fs.remove_dir path s).0 ≡ ok tt
      → Removes fs depth (resource meta path) s (fs.remove_dir path s).1
  collection :
      {meta : DavMetaData} {path : DavPath} {entries : List (Result (DavDirEntry S) FsError)}
      {s u : S}
      → meta.is_dir ≡ true
      → is_zero depth ≡ false
      → fs.read_dir path s ≡ ok entries
      → Removes fs depth (members path entries) s u
      → (fs.remove_dir path u).0 ≡ ok tt
      → Removes fs depth (resource meta path) s (fs.remove_dir path u).1
  no_more : {path : DavPath} {s : S} → Removes fs depth (members path []) s s
  entry :
      {path : DavPath} {d : DavDirEntry S} {meta : DavMetaData}
      {entries : List (Result (DavDirEntry S) FsError)} {s u v : S}
      → d.metadata s ≡ ok meta
      → Removes fs depth (resource meta (entry_path path d.name meta.is_dir)) s u
      → Removes fs depth (members path entries) u v
      → Removes fs depth (members path (ok d ∷ entries)) s v
