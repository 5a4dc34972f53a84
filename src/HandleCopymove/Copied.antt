-- ===== src/HandleCopymove/Copied.antt =====
-- src/handle_copymove.rs: what a COPY or a MOVE that succeeds has done.
use dav_server_rs.Common.{
  ◌≡◌, ◌⊎◌, Bool, true, false, not, ◌&&◌, ◌||◌, Option, some, List, [], ◌∷◌, Result, ok, err,
}
use dav_server_rs.DavHeaders.Values.{Depth, infinity}
use dav_server_rs.DavPath
use dav_server_rs.DavPath.{DavPath}
use dav_server_rs.Errors.{DavError, statuscode}
use dav_server_rs.Fs.{FsError, exists}
use dav_server_rs.Fs.Guarded.{DavMetaData, DavDirEntry, GuardedFileSystem}
use dav_server_rs.HandleCopymove.{child, copy_collection_properties}
use dav_server_rs.HandleCopymove.Checks.{Found, is_present}
use dav_server_rs.HandleDelete.{delete_locks, is_zero}
use dav_server_rs.HandleDelete.Removal
use dav_server_rs.HandleDelete.Removal.{Removes}
use dav_server_rs.Ls.{DavLockSystem}
use dav_server_rs.Util.{DavMethod, is_copy}

-- What is copied, and where: a resource, or the entries of a directory.
pub data Target (S : Type 0) : Type 0 where
  resource : DavPath → DavPath → Target S
  members : DavPath → DavPath → List (Result (DavDirEntry S) FsError) → Target S

module _ {S : Type 0} (fs : GuardedFileSystem S)
    (ensure_visible : DavPath → S → Result (Unit {0}) DavError) (topdest : DavPath)
    (depth : Depth) where
  -- The collection was made, or was there already where the depth is 0.
  abbrev pub IsDir : DavPath → S → Type 0
  IsDir dest s =
      ((fs.create_dir dest s).0 ≡ ok tt)
      ⊎ ((is_zero depth ≡ true) × ((fs.create_dir dest s).0 ≡ err exists))

  -- A target is copied, from one state to the next: a file by `copy`; a collection by `create_dir` and
  -- its properties, and then, unless the depth is 0, by each of its entries, in order. An entry that
  -- is hidden, answered with 404, is left out, and nothing is copied of the destination itself.
  pub data Copies : Target S → S → S → Type 0 where
    itself :
        {source dest : DavPath} {s : S}
        → DavPath.eq source topdest ≡ true
        → Copies (resource source dest) s s
    file :
        {source dest : DavPath} {meta : DavMetaData} {s : S}
        → DavPath.eq source topdest ≡ false
        → fs.metadata source s ≡ ok meta
        → meta.is_dir ≡ false
        → (fs.copy source dest s).0 ≡ ok tt
        → Copies (resource source dest) s (fs.copy source dest s).1
    alone :
        {source dest : DavPath} {meta : DavMetaData} {s u : S}
        → DavPath.eq source topdest ≡ false
        → fs.metadata source s ≡ ok meta
        → meta.is_dir ≡ true
        → IsDir dest s
        → copy_collection_properties fs source dest meta (fs.create_dir dest s).1 ≡ some (ok tt, u)
        → is_zero depth ≡ true
        → Copies (resource source dest) s u
    collection :
        {source dest : DavPath} {meta : DavMetaData}
        {entries : List (Result (DavDirEntry S) FsError)} {s u v : S}
        → DavPath.eq source topdest ≡ false
        → fs.metadata source s ≡ ok meta
        → meta.is_dir ≡ true
        → IsDir dest s
        → copy_collection_properties fs source dest meta (fs.create_dir dest s).1 ≡ some (ok tt, u)
        → is_zero depth ≡ false
        → fs.read_dir source u ≡ ok entries
        → Copies (members source dest entries) u v
        → Copies (resource source dest) s v
    no_more : {source dest : DavPath} {s : S} → Copies (members source dest []) s s
    hidden :
        {source dest : DavPath} {d : DavDirEntry S} {meta : DavMetaData} {fault : DavError}
        {entries : List (Result (DavDirEntry S) FsError)} {s v : S}
        → d.metadata s ≡ ok meta
        → ensure_visible (child source d.name meta.is_dir) s ≡ err fault
        → statuscode fault ≡ 404
        → Copies (members source dest entries) s v
        → Copies (members source dest (ok d ∷ entries)) s v
    entry :
        {source dest : DavPath} {d : DavDirEntry S} {meta : DavMetaData}
        {entries : List (Result (DavDirEntry S) FsError)} {s u v : S}
        → d.metadata s ≡ ok meta
        → ensure_visible (child source d.name meta.is_dir) s ≡ ok tt
        → Copies (resource (child source d.name meta.is_dir) (child dest d.name meta.is_dir)) s u
        → Copies (members source dest entries) u v
        → Copies (members source dest (ok d ∷ entries)) s v

module _ {S Element : Type 0} (fs : GuardedFileSystem S) (ls : Option (DavLockSystem S Element))
    (ensure_visible : DavPath → S → Result (Unit {0}) DavError) where
  -- Whether what stands at the destination is removed: it may be overwritten, and is not a collection
  -- whose members a copy of depth 0 keeps.
  abbrev pub is_cleared : Bool → Depth → Found → Bool
  is_cleared overwrite depth found =
      is_present found && (overwrite && (not (is_zero depth) || found.is_file))

  -- What stood at the destination was removed with all that was in it, and so were its locks; or it was
  -- kept.
  abbrev pub IsCleared : Bool → Depth → Found → DavPath → S → S → Type 0
  IsCleared overwrite depth found dest s v =
      ((is_cleared overwrite depth found ≡ true)
        × (dmeta : DavMetaData) × (u : S) × (found.meta ≡ ok dmeta)
        × Removes fs infinity (Removal.resource dmeta dest) s u
        × (v ≡ delete_locks fs ls dest u))
      ⊎ ((is_cleared overwrite depth found ≡ false) × (v ≡ s))

  -- The source was copied; or it was renamed, and its locks were dropped.
  abbrev pub IsTransferred : DavMethod → DavPath → DavPath → Depth → S → S → Type 0
  IsTransferred method path dest depth v s' =
      ((is_copy method ≡ true) × Copies fs ensure_visible dest depth (resource path dest) v s')
      ⊎ ((is_copy method ≡ false)
          × ((fs.rename path dest v).0 ≡ ok tt)
          × (s' ≡ delete_locks fs ls path (fs.rename path dest v).1))

  -- Both, one after the other.
  abbrev pub IsReplaced : DavMethod → Bool → Depth → Found → DavPath → DavPath → S → S → Type 0
  IsReplaced method overwrite depth found path dest s s' =
      (v : S) × IsCleared overwrite depth found dest s v × IsTransferred method path dest depth v s'
