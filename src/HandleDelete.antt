-- ===== src/HandleDelete.antt =====
-- src/handle_delete.rs: the recursive deletion over the interface of a filesystem, and the handler of
-- DELETE. The answer is the one after the whole stream has been read.
pub mod Reports
pub mod Removal
pub mod Removing
pub mod Answer
pub mod Preconditions
pub mod Refusals
use dav_server_rs.Common.{
  ℕ, zero, suc, Bool, true, false, not, Option, none, some, List, [], ◌∷◌, ◌++◌, Result, ok, err,
  ◌==◌, nat_eq, if◌then◌else◌, Bytes, map,
}
use dav_server_rs.DavHeaders.Values.{Depth, depth_zero, depth_one, infinity}
use dav_server_rs.DavPath.{DavPath, push_segment, add_slash_if}
use dav_server_rs.Errors.{DavError, status, fs_error, statuscode}
use dav_server_rs.Fs.{FsError}
use dav_server_rs.Fs.Guarded.{DavMetaData, DavDirEntry, GuardedFileSystem}
use dav_server_rs.MultiError.{MultiError, Status, Response, multi_error}
use dav_server_rs.MultiError
use dav_server_rs.Ls.{DavLockSystem}
use dav_server_rs.Tree.Monad.{Action, pure, raise, reads, lift, ◌>>=◌, ◌>>◌}

abbrev pub DeleteAction : Type 0 → Type 0 → Type 0
DeleteAction S A = Action (MultiError S) DavError A

unfoldable pub dir_statuscode : FsError → ℕ
dir_statuscode FsError.exists = 409
dir_statuscode e = statuscode (fs_error e)

abbrev pub is_zero : Depth → Bool
is_zero depth_zero = true
is_zero _ = false

-- The path of an entry.
abbrev pub entry_path : DavPath → Bytes → Bool → DavPath
entry_path path name is_dir = add_slash_if (push_segment path name) is_dir

module _ {S : Type 0} where
  -- The status is sent and raised.
  unfoldable pub add_status : {A : Type 0} → DavPath → FsError → DeleteAction S A
  add_status path e res =
      let code = statuscode (fs_error e) in
      some (err (status code), MultiError.add_status path (status code) res)

  unfoldable pub dir_status : {A : Type 0} → DavPath → FsError → DeleteAction S A
  dir_status path e res =
      let code = dir_statuscode e in
      some (err (status code), MultiError.add_status path (status code) res)

  -- A call of the filesystem, and what becomes of its error.
  abbrev pub removing :
      (S → Result (Unit {0}) FsError × S)
      → (FsError → DeleteAction S (Unit {0}))
      → DeleteAction S (Unit {0})
  removing call on_err res =
      let (r, s) = call res.inner in
      let res' = record res { inner = s } in
      elim r [ ok _ ↦ some (ok tt, res') | err e ↦ on_err e res' ]

  abbrev pub reading : {A : Type 0} → DavPath → (S → Result A FsError) → DeleteAction S A
  reading path call res = elim (call res.inner) [
    | ok a ↦ some (ok a, res)
    | err e ↦ add_status path e res
  ]

  -- One entry of the loop: an error with a status is the new result, any other ends the walk.
  unfoldable pub delete_entry :
      (DavMetaData → DavPath → DeleteAction S (Unit {0}))
      → DavPath
      → Result (DavDirEntry S) FsError
      → DeleteAction S (Unit {0})
  delete_entry delete path (err e) = add_status path e
  delete_entry delete path (ok dirent) = do
    meta ← reading path dirent.metadata
    delete meta (entry_path path dirent.name meta.is_dir)

  abbrev pub continue :
      Result (Unit {0}) DavError
      → Result (Unit {0}) DavError
      → DeleteAction S (Result (Unit {0}) DavError)
  continue result (ok _) = pure result
  continue result (err (status code)) = pure (err (status code))
  continue result (err e) = raise e

  abbrev pub caught : DeleteAction S (Unit {0}) → DeleteAction S (Result (Unit {0}) DavError)
  caught m res = elim (m res) [ none ↦ none | some (r, res') ↦ some (ok r, res') ]

  unfoldable pub delete_entries :
      (DavMetaData → DavPath → DeleteAction S (Unit {0}))
      → DavPath
      → Result (Unit {0}) DavError
      → List (Result (DavDirEntry S) FsError)
      → DeleteAction S (Result (Unit {0}) DavError)
  delete_entries delete path result [] = pure result
  delete_entries delete path result (entry ∷ entries) = do
    outcome ← caught (delete_entry delete path entry)
    result' ← continue result outcome
    delete_entries delete path result' entries

  module _ (fs : GuardedFileSystem S) where
    unfoldable pub delete_items : ℕ → Depth → DavMetaData → DavPath → DeleteAction S (Unit {0})
    delete_items zero depth meta path res = none
    delete_items (suc fuel) depth meta path res =
        (if not meta.is_dir
            then removing (fs.remove_file path) (add_status path)
            else if is_zero depth
            then removing (fs.remove_dir path) (add_status path)
            else (do
              entries ← reading path (fs.read_dir path)
              result ← delete_entries (delete_items fuel depth) path (ok tt) entries
              lift result
              removing (fs.remove_dir path) (dir_status path)))
          res

-- `if_match_get_tokens`: it asks the lock system for locks, which may change its state.
abbrev pub precondition :
    {S : Type 0} → (S → Result (List Bytes) ℕ × S) → Action S DavError (List Bytes)
precondition call s =
    let (r, s') = call s in
    elim r [ ok tokens ↦ some (ok tokens, s') | err code ↦ some (err (status code), s') ]

-- The lock system's calls.
module _ {S Element : Type 0} (fs : GuardedFileSystem S)
    (ls : Option (DavLockSystem S Element)) where
  -- `locksystem.delete(&path).await.ok()`
  abbrev pub delete_locks : DavPath → S → S
  delete_locks path s = elim ls [ none ↦ s | some locksystem ↦ (locksystem.delete path s).1 ]

  -- The deletion and what is sent of it, and the answer that is made of that.
  unfoldable pub delete_and_answer : ℕ → Depth → DavMetaData → DavPath → Action S DavError Response
  delete_and_answer fuel depth meta path s =
      elim (delete_items fs fuel depth meta path (record { inner = s; sent = [] })) [
        | none ↦ none
        | some (r, res) ↦
            let res' : MultiError S = elim r [
              | ok _ ↦
                  MultiError.add_status path (status 204)
                    (record res { inner = delete_locks path res.inner })
              | err _ ↦ res
            ] in
            some (multi_error path (map ok res'.sent), res'.inner)
      ]

  unfoldable pub check_depth : Option Depth → Result Depth DavError
  check_depth none = ok infinity
  check_depth (some infinity) = ok infinity
  check_depth (some depth_zero) = ok depth_zero
  check_depth (some depth_one) = err (status 400)

  -- The path with a slash where it names a collection, or a link to one.
  unfoldable pub collection_path : DavMetaData → DavPath → S → DavPath
  collection_path meta path s =
      let path' =
        (if meta.is_symlink
          then elim (fs.metadata path s) [ ok m2 ↦ add_slash_if path m2.is_dir | err _ ↦ path ]
          else path) in
      add_slash_if path' meta.is_dir

  abbrev pub check_locks : Option Bytes → List Bytes → DavPath → Action S DavError (Unit {0})
  check_locks principal tokens path s = elim ls [
    | none ↦ some (ok tt, s)
    | some locksystem ↦
        let (r, s') = locksystem.check path principal false true tokens s in
        elim r [ ok _ ↦ some (ok tt, s') | err _ ↦ some (err (status 423), s') ]
  ]

  -- The functions are `ensure_visible` and `if_match_get_tokens`, applied to the request.
  unfoldable pub handle_delete :
      ℕ
      → (DavPath → S → Result (Unit {0}) DavError)
      → (DavMetaData → DavPath → S → Result (List Bytes) ℕ × S)
      → Option Bytes
      → Option Depth
      → DavPath
      → Action S DavError Response
  handle_delete fuel ensure_visible get_tokens principal depth_header path = do
    depth ← lift (check_depth depth_header)
    reads (ensure_visible path)
    meta ← reads (λ s. elim (fs.symlink_metadata path s) [ ok m ↦ ok m | err e ↦ err (fs_error e) ])
    path' ← reads (λ s. ok (collection_path meta path s))
    tokens ← precondition (get_tokens meta path')
    check_locks principal tokens path'
    delete_and_answer fuel depth meta path'
