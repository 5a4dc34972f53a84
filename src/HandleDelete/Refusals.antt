-- ===== src/HandleDelete/Refusals.antt =====
-- src/handle_delete.rs: a DELETE that is refused.
use dav_server_rs.Common.{
  ℕ, ◌<◌, ◌≡◌, refl, sym, subst, true, false, Option, none, some, List, Result, ok, err, Bytes, inl,
  inr, Result-cases,
}
use dav_server_rs.DavHeaders.Values.{Depth}
use dav_server_rs.DavPath.{DavPath}
use dav_server_rs.Errors.{DavError, fs_error}
use dav_server_rs.Fs.Guarded.{DavMetaData, GuardedFileSystem}
use dav_server_rs.HandleDelete.{
  delete_and_answer, check_depth, check_locks, collection_path, handle_delete,
}
use dav_server_rs.HandleDelete.Answer.{delete_and_answer_lem}
use dav_server_rs.HandleDelete.Preconditions.{precondition-Ends}
use dav_server_rs.HandleDelete.Reports.{IsLower}
use dav_server_rs.Ls.{DavLockSystem}
use dav_server_rs.MultiError.{Response}
use dav_server_rs.Tree.Ends.{Ends}
use dav_server_rs.Tree.Monad.{Action, reads, ◌>>=◌, ◌>>◌}

module _ {S Element : Type 0} (ls : Option (DavLockSystem S Element)) (principal : Option Bytes)
    (get_tokens : DavMetaData → DavPath → S → Result (List Bytes) ℕ × S) where
  -- Nothing was called that changes anything, or only the preconditions, or these and then the check of
  -- the lock system.
  pub data IsUntouched (s : S) : S → Type 0 where
    same : IsUntouched s s
    asked : (meta : DavMetaData) (path : DavPath) → IsUntouched s (get_tokens meta path s).1
    checked :
        (meta : DavMetaData) (path : DavPath) (locksystem : DavLockSystem S Element)
        (tokens : List Bytes)
        → ls ≡ some locksystem
        → IsUntouched s
            (locksystem.check path principal false true tokens (get_tokens meta path s).1).1

  abbrev pub Refuses : S → Result Response DavError → S → Type 0
  Refuses s (ok a) s' = Unit
  Refuses s (err e) s' = IsUntouched s s'

  reads-Refuses :
      {A : Type 0} (f : S → Result A DavError) (k : A → Action S DavError Response) (s : S)
      → ((a : A) → f s ≡ ok a → Ends (Refuses s) (k a s))
      → Ends (Refuses s) ((reads f >>= k) s)
  reads-Refuses f k s h = elim (Result-cases (f s)) [
    | inl (a, e) ↦ rw (e, Ends) (h a e)
    | inr (fault, e) ↦ rw (e, Ends) same
  ]

module _ {S Element : Type 0} (fs : GuardedFileSystem S) (principal : Option Bytes)
    (ls : Option (DavLockSystem S Element))
    (get_tokens : DavMetaData → DavPath → S → Result (List Bytes) ℕ × S) where
  checked-Refuses :
      (o : Option (DavLockSystem S Element)) (meta : DavMetaData) (tokens : List Bytes)
      (path : DavPath) (s : S) (k : Action S DavError Response)
      → ls ≡ o
      → ((s' : S) → Ends (Refuses ls principal get_tokens s) (k s'))
      → Ends
          (Refuses ls principal get_tokens s)
          ((check_locks fs o principal tokens path >> k) (get_tokens meta path s).1)
  checked-Refuses none meta tokens path s k q h = h (get_tokens meta path s).1
  checked-Refuses (some locksystem) meta tokens path s k q h =
      let after = locksystem.check path principal false true tokens (get_tokens meta path s).1 in
      elim (Result-cases after.0) [
        | inl (_, e) ↦ rw (e, Ends) (h after.1)
        | inr (l, e) ↦ rw (e, Ends) (checked meta path locksystem tokens q)
      ]

  answered-Refuses :
      (fuel : ℕ) (depth : Depth) (meta : DavMetaData) (path : DavPath) (s s' : S)
      (height : DavPath → ℕ)
      → IsLower fs height
      → height path < fuel
      → Ends (Refuses ls principal get_tokens s) (delete_and_answer fs ls fuel depth meta path s')
  answered-Refuses fuel depth meta path s s' height lower enough =
      let (r, m, _, answered) =
        delete_and_answer_lem fs ls fuel depth meta path s' height lower enough in
      elim answered [
        | inl (_, _, e) ↦ subst (Ends (Refuses ls principal get_tokens s)) (sym e) tt
        | inr (_, a, e, _) ↦ subst (Ends (Refuses ls principal get_tokens s)) (sym e) tt
      ]

  -- A DELETE always ends, where the filesystem is not deeper than the fuel; and where it ends with an
  -- error, of its headers, its path, its preconditions or of a lock, nothing was removed: no call was
  -- made that changes anything, but for those of the preconditions and for the lock system's check.
  pub handle_delete_lem :
      (fuel : ℕ) (ensure_visible : DavPath → S → Result (Unit {0}) DavError)
      (depth_header : Option Depth) (path : DavPath) (s : S) (height : DavPath → ℕ)
      → IsLower fs height
      → ((meta : DavMetaData) → height (collection_path fs ls meta path s) < fuel)
      → Ends
          (Refuses ls principal get_tokens s)
          (handle_delete fs ls fuel ensure_visible get_tokens principal depth_header path s)
  unfolding handle_delete
  handle_delete_lem fuel ensure_visible depth_header path s height lower enough =
      reads-Refuses ls principal get_tokens (λ _. check_depth fs ls depth_header) _ s
        (λ depth _. reads-Refuses ls principal get_tokens (ensure_visible path) _ s (λ _ _.
          reads-Refuses ls principal get_tokens
            (λ s. elim (fs.symlink_metadata path s) [ ok m ↦ ok m | err e ↦ err (fs_error e) ]) _ s
            (λ meta _.
              let path' = collection_path fs ls meta path s in
              precondition-Ends (Refuses ls principal get_tokens s) (get_tokens meta path') _ s
                (λ tokens.
                  checked-Refuses ls meta tokens path' s _ refl
                    (λ s'. answered-Refuses fuel depth meta path' s s' height lower (enough meta)))
                (λ _. asked meta path'))))
