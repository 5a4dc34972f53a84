-- ===== src/HandleCopymove/Handler.antt =====
-- src/handle_copymove.rs: `handle_copymove`. The answer is the one after the whole stream has been read.
use dav_server_rs.Common.{
  ℕ, Bool, true, not, ◌&&◌, ◌||◌, Option, none, some, List, [], Result, ok, err, Bytes,
  if◌then◌else◌, map, nat_eq, unwrap_or,
}
use dav_server_rs.DavHeaders.Values.{Depth, infinity}
use dav_server_rs.DavPath.{DavPath}
use dav_server_rs.Errors.{DavError, status}
use dav_server_rs.Fs.Guarded.{DavMetaData, GuardedFileSystem}
use dav_server_rs.Fs.Kinds.{CollectionKind}
use dav_server_rs.HandleCopymove.{CopyAction, do_copy, do_move, has_parent}
use dav_server_rs.HandleCopymove.Checks.{
  Request, Found, is_present, refuse_if, copy_depth, destination_path, source_meta,
  find_destination, check_nesting, check_kinds, validate_copy_destination,
}
use dav_server_rs.HandleDelete.{delete_items, delete_locks, check_locks, is_zero, precondition}
use dav_server_rs.Ls.{DavLockSystem}
use dav_server_rs.MultiError
use dav_server_rs.MultiError.{MultiError, Response, multi_error}
use dav_server_rs.PercentEncoding.{PercentEncoding}
use dav_server_rs.Tree.Monad.{Action, pure, reads, lift, modify, ◌>>=◌, ◌>>◌}
use dav_server_rs.Util.{DavMethod, is_copy, is_move}

module _ {S Element : Type 0} (fs : GuardedFileSystem S) (ls : Option (DavLockSystem S Element))
    (ensure_visible : DavPath → S → Result (Unit {0}) DavError) where
  abbrev pub drop_locks : DavPath → CopyAction S (Unit {0})
  drop_locks path = modify (λ m. record m { inner = delete_locks fs ls path m.inner })

  -- What stands at the destination is deleted first, and its locks are dropped.
  unfoldable pub clear_destination : ℕ → Bool → Depth → Found → DavPath → CopyAction S (Unit {0})
  clear_destination fuel overwrite depth found dest = elim found.meta [
    | err _ ↦ pure tt
    | ok dmeta ↦
        (if overwrite && (not (is_zero depth) || found.is_file)
          then delete_items fs fuel infinity dmeta dest >> drop_locks dest
          else pure tt)
  ]

  abbrev pub success_status : Found → ℕ
  success_status found = if is_present found then 204 else 201

  abbrev pub send : DavPath → ℕ → CopyAction S (Unit {0})
  send path code = modify (MultiError.add_status path (status code))

  unfoldable pub transfer : ℕ → DavMethod → DavPath → DavPath → Depth → CopyAction S (Unit {0})
  transfer fuel method path dest depth =
      if is_copy method
      then do_copy fs ensure_visible fuel path dest dest depth
      else do_move fs path dest >> drop_locks path

  -- What the stream does before its last status.
  abbrev pub replace :
      ℕ → DavMethod → Bool → Depth → Found → DavPath → DavPath → CopyAction S (Unit {0})
  replace fuel method overwrite depth found path dest =
      clear_destination fuel overwrite depth found dest >> transfer fuel method path dest depth

  -- The stream, up to the end or to the error that ends it, and the answer that is made of it.
  unfoldable pub copymove_and_answer :
      ℕ → DavMethod → Bool → Depth → Found → DavPath → DavPath → Action S DavError Response
  copymove_and_answer fuel method overwrite depth found path dest s =
      elim ((replace fuel method overwrite depth found path dest
          >> send path (success_status found))
        (record { inner = s; sent = [] })) [
          | none ↦ none
          | some (_, m) ↦ some (multi_error path (map ok m.sent), m.inner)
        ]

  -- The handler from the preconditions on. `get_tokens` is `if_match_get_tokens`, applied to the request.
  unfoldable pub carry_out :
      (CollectionKind → Bytes → Bool)
      → (DavMetaData → DavPath → S → Result (List Bytes) ℕ × S)
      → Option Bytes
      → ℕ
      → DavMethod
      → Bool
      → Depth
      → DavMetaData
      → DavPath
      → Found
      → DavPath
      → Action S DavError Response
  carry_out valid get_tokens principal fuel method overwrite depth meta path found dest = do
    tokens ← precondition (get_tokens meta path)
    (if is_move method then check_locks fs ls principal tokens path else pure tt)
    check_locks fs ls principal tokens dest
    reads (check_kinds fs method depth meta path found dest)
    reads (validate_copy_destination fs valid path dest)
    copymove_and_answer fuel method overwrite depth found path dest

  unfoldable pub handle_copymove :
      PercentEncoding
      → (CollectionKind → Bytes → Bool)
      → (DavMetaData → DavPath → S → Result (List Bytes) ℕ × S)
      → Bytes
      → Option Bytes
      → ℕ
      → DavMethod
      → Request
      → DavPath
      → Action S DavError Response
  handle_copymove pct valid get_tokens prefix principal fuel method req req_path =
      let overwrite = unwrap_or req.overwrite true in
      (do
        depth ← lift (copy_depth method req.depth)
        dest ← lift (destination_path pct prefix req)
        reads (ensure_visible req_path)
        reads (ensure_visible dest)
        (meta, path) ← reads (source_meta fs method req_path)
        reads (λ s. refuse_if (not (has_parent fs dest s)) 409)
        found ← reads (λ s. ok (find_destination fs dest s))
        lift (refuse_if (not overwrite && is_present found) 412)
        reads (check_nesting fs path dest (is_present found))
        carry_out valid get_tokens principal fuel method overwrite depth meta path found dest)
