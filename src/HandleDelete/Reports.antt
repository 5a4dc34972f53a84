-- ===== src/HandleDelete/Reports.antt =====
-- src/handle_delete.rs: the recursive deletion returns, and reports each failure.
use dav_server_rs.Common.{
  ℕ, zero, suc, ◌<◌, ◌≡◌, refl, sym, ap, subst, ◌∙◌, Option, none, some, List, [], ◌∷◌, ◌++◌,
  Result, ok, err, All, All-append, append_assoc, append-nil, arith, nat_eq, inl, inr, Bool-cases,
  Result-cases, false,
}
use dav_server_rs.DavHeaders.Values.{Depth}
use dav_server_rs.DavPath.{DavPath}
use dav_server_rs.Errors.{DavError, status, fs_error, statuscode, fserror_to_status}
use dav_server_rs.Fs.{
  FsError, not_implemented, general_failure, exists, not_found, forbidden, insufficient_storage,
  loop_detected, path_too_long, too_large, is_remote,
}
use dav_server_rs.Fs.Guarded.{DavMetaData, DavDirEntry, GuardedFileSystem}
use dav_server_rs.Fs.Kinds.{is_success}
use dav_server_rs.HandleDelete.{
  DeleteAction, add_status, dir_status, dir_statuscode, removing, reading, entry_path, delete_entry,
  delete_entries, delete_items, continue, caught, is_zero,
}
use dav_server_rs.MultiError
use dav_server_rs.MultiError.{MultiError, Status}
use dav_server_rs.Tree.Ends.{Ends, Ends-next, Ends-weaken}
use dav_server_rs.Tree.Shape.{All-weaken}
use dav_server_rs.Tree.Monad.{lift, ◌>>=◌, ◌>>◌}

abbrev pub IsFailure : Status → Type 0
IsFailure x = is_success x.1 ≡ false

-- No error of a filesystem is a success.
pub statuscode-IsFailure : (e : FsError) → is_success (statuscode (fs_error e)) ≡ false
unfolding statuscode fserror_to_status
statuscode-IsFailure not_implemented = refl
statuscode-IsFailure general_failure = refl
statuscode-IsFailure exists = refl
statuscode-IsFailure not_found = refl
statuscode-IsFailure forbidden = refl
statuscode-IsFailure insufficient_storage = refl
statuscode-IsFailure loop_detected = refl
statuscode-IsFailure path_too_long = refl
statuscode-IsFailure too_large = refl
statuscode-IsFailure is_remote = refl

dir_statuscode-IsFailure : (e : FsError) → is_success (dir_statuscode e) ≡ false
unfolding dir_statuscode
dir_statuscode-IsFailure not_implemented = statuscode-IsFailure not_implemented
dir_statuscode-IsFailure general_failure = statuscode-IsFailure general_failure
dir_statuscode-IsFailure exists = refl
dir_statuscode-IsFailure not_found = statuscode-IsFailure not_found
dir_statuscode-IsFailure forbidden = statuscode-IsFailure forbidden
dir_statuscode-IsFailure insufficient_storage = statuscode-IsFailure insufficient_storage
dir_statuscode-IsFailure loop_detected = statuscode-IsFailure loop_detected
dir_statuscode-IsFailure path_too_long = statuscode-IsFailure path_too_long
dir_statuscode-IsFailure too_large = statuscode-IsFailure too_large
dir_statuscode-IsFailure is_remote = statuscode-IsFailure is_remote

-- What is sent in a call: failures, one or more where the call fails, none where it succeeds.
pub data IsReported : Result (Unit {0}) DavError → List Status → Type 0 where
  succeeds : IsReported (ok tt) []
  fails :
      (code : ℕ) (x : Status) (xs : List Status)
      → All IsFailure (x ∷ xs)
      → IsReported (err (status code)) (x ∷ xs)

-- A result after a call that may change it.
IsReported-append :
    (r r' : Result (Unit {0}) DavError) (xs ys : List Status)
    → IsReported r xs
    → IsReported r' ys
    → IsReported (elim r' [ ok _ ↦ r | err e ↦ err e ]) (xs ++ ys)
IsReported-append r _ xs _ h succeeds = subst (IsReported r) (sym (append-nil xs)) h
IsReported-append _ _ _ _ succeeds (fails code y ys k) = fails code y ys k
IsReported-append _ _ _ _ (fails code' x xs h) (fails code y ys k) =
    fails code x (xs ++ y ∷ ys) (All-append IsFailure (x ∷ xs) (y ∷ ys) h k)

module _ {S : Type 0} where
  abbrev pub Reports : MultiError S → Result (Unit {0}) DavError → MultiError S → Type 0
  Reports t r s = (added : List Status) × (s.sent ≡ t.sent ++ added) × IsReported r added

  fail-Reports :
      (path : DavPath) (code : ℕ) (t : MultiError S)
      → is_success code ≡ false
      → Reports t (err (status code)) (MultiError.add_status path (status code) t)
  unfolding MultiError.add_status statuscode
  fail-Reports path code t bad = ((path, code) ∷ [], refl, fails code (path, code) [] (bad, tt))

  add_status-Reports :
      (path : DavPath) (e : FsError) (t : MultiError S)
      → Ends (Reports t) (add_status {A = Unit {0}} path e t)
  unfolding add_status
  add_status-Reports path e t =
      fail-Reports path (statuscode (fs_error e)) t (statuscode-IsFailure e)

  dir_status-Reports :
      (path : DavPath) (e : FsError) (t : MultiError S)
      → Ends (Reports t) (dir_status {A = Unit {0}} path e t)
  unfolding dir_status
  dir_status-Reports path e t = fail-Reports path (dir_statuscode e) t (dir_statuscode-IsFailure e)

  removing-Reports :
      (call : S → Result (Unit {0}) FsError × S) (on_err : FsError → DeleteAction S (Unit {0}))
      (t : MultiError S)
      → ((e : FsError) (t : MultiError S) → Ends (Reports t) (on_err e t))
      → Ends (Reports t) (removing call on_err t)
  removing-Reports call on_err t h = elim (Result-cases (call t.inner).0) [
    | inl (_, e) ↦ rw (e, Ends) ([], sym (append-nil t.sent), succeeds)
    | inr (fault, e) ↦ rw (e, Ends) (h fault (record t { inner = (call t.inner).1 }))
  ]

  -- A loop that reports what its entries report.
  abbrev Loops :
      Result (Unit {0}) DavError
      → MultiError S
      → Result (Result (Unit {0}) DavError) DavError
      → MultiError S
      → Type 0
  Loops result t r s =
      (result' : Result (Unit {0}) DavError) × (r ≡ ok result')
      × (added : List Status) × (s.sent ≡ t.sent ++ added)
      × ((before : List Status) → IsReported result before → IsReported result' (before ++ added))

  Loops-after :
      (result result' : Result (Unit {0}) DavError) (t s u : MultiError S) (added : List Status)
      (r : Result (Result (Unit {0}) DavError) DavError)
      → s.sent ≡ t.sent ++ added
      → ((before : List Status) → IsReported result before → IsReported result' (before ++ added))
      → Loops result' s r u
      → Loops result t r u
  Loops-after result result' t s u added r sent first (last, e, more, sent', second) = (
    last,
    e,
    added ++ more,
    sent' ∙ ap (λ xs. xs ++ more) sent ∙ append_assoc t.sent added more,
    λ before k.
        subst (IsReported last) (append_assoc before added more)
          (second (before ++ added) (first before k)),
  )

  -- The rest of the loop, from the result of one entry.
  continue-Loops :
      (result : Result (Unit {0}) DavError) (t s : MultiError S)
      (outcome : Result (Unit {0}) DavError) (added : List Status)
      (rest : Result (Unit {0}) DavError → DeleteAction S (Result (Unit {0}) DavError))
      → s.sent ≡ t.sent ++ added
      → IsReported outcome added
      → ((result : Result (Unit {0}) DavError) (t : MultiError S)
          → Ends (Loops result t) (rest result t))
      → Ends (Loops result t) ((continue result outcome >>= rest) s)
  continue-Loops result t s _ _ rest sent succeeds h =
      Ends-weaken (Loops result s) (Loops result t) (rest result s) (h result s) (λ r u.
        Loops-after result result t s u [] r sent
          (λ before k. subst (IsReported result) (sym (append-nil before)) k))
  continue-Loops result t s _ _ rest sent (fails code x xs k) h =
      Ends-weaken (Loops (err (status code)) s) (Loops result t) (rest (err (status code)) s)
        (h (err (status code)) s)
        (λ r u. Loops-after result (err (status code)) t s u (x ∷ xs) r sent (λ before kb.
          IsReported-append result (err (status code)) before (x ∷ xs) kb (fails code x xs k)))

  caught-Ends :
      (t : MultiError S) (m : DeleteAction S (Unit {0}))
      → Ends (Reports t) (m t)
      → Ends
          (λ r s. (outcome : Result (Unit {0}) DavError) × (r ≡ ok outcome) × Reports t outcome s)
          (caught m t)
  caught-Ends t m h = go (m t) h
    where
      go :
          (o : Option (Result (Unit {0}) DavError × MultiError S))
          → Ends (Reports t) o
          → Ends {E = DavError}
              (λ r s.
                (outcome : Result (Unit {0}) DavError) × (r ≡ ok outcome) × Reports t outcome s)
              (elim o [ none ↦ none | some (r, s) ↦ some (ok r, s) ])
      go none h = h
      go (some (r, s)) (added, sent, k) = (r, refl, (added, sent, k))

  delete_entries-Loops :
      (delete : DavMetaData → DavPath → DeleteAction S (Unit {0})) (path : DavPath)
      (entries : List (Result (DavDirEntry S) FsError))
      → All (λ e. (t : MultiError S) → Ends (Reports t) (delete_entry delete path e t)) entries
      → (result : Result (Unit {0}) DavError) (t : MultiError S)
      → Ends (Loops result t) (delete_entries delete path result entries t)
  unfolding delete_entries
  delete_entries-Loops delete path [] h result t = (
    result,
    refl,
    [],
    sym (append-nil t.sent),
    λ before k. subst (IsReported result) (sym (append-nil before)) k,
  )
  delete_entries-Loops delete path (entry ∷ entries) (h, hs) result t =
      Ends-next _ (Loops result t) (caught (delete_entry delete path entry) t) _
        (caught-Ends t (delete_entry delete path entry) (h t))
        (λ outcome s (outcome', e, (added, sent, k)).
          continue-Loops result t s outcome added
            (λ result'. delete_entries delete path result' entries) sent
            (subst (λ r. IsReported r added) {x = outcome'} (ground arith) k)
            (delete_entries-Loops delete path entries hs))
        (λ _ s (_, e, _). absurd (ground arith))

  reading-Reports :
      {A : Type 0} (path : DavPath) (call : S → Result A FsError) (t : MultiError S)
      (k : A → DeleteAction S (Unit {0}))
      → ((a : A) → call t.inner ≡ ok a → Ends (Reports t) (k a t))
      → Ends (Reports t) ((reading path call >>= k) t)
  unfolding add_status
  reading-Reports path call t k h = elim (Result-cases (call t.inner)) [
    | inl (a, e) ↦ rw (e, Ends) (h a e)
    | inr (fault, e) ↦
        rw (e, Ends)
          (fail-Reports path (statuscode (fs_error fault)) t (statuscode-IsFailure fault))
  ]

  -- The removal of the collection itself, behind the loop.
  finish-Reports :
      (t s : MultiError S) (result : Result (Unit {0}) DavError) (added : List Status)
      (remove : DeleteAction S (Unit {0}))
      → s.sent ≡ t.sent ++ added
      → IsReported result added
      → ((t : MultiError S) → Ends (Reports t) (remove t))
      → Ends (Reports t) ((lift result >> remove) s)
  finish-Reports t s _ _ remove sent succeeds h =
      Ends-weaken (Reports s) (Reports t) (remove s) (h s) (λ r u (added, sent', k).
        (added, sent' ∙ ap (λ xs. xs ++ added) (sent ∙ append-nil t.sent), k))
  finish-Reports t s _ _ remove sent (fails code x xs k) h = (x ∷ xs, sent, fails code x xs k)

  delete_entry-Reports :
      (delete : DavMetaData → DavPath → DeleteAction S (Unit {0})) (path : DavPath)
      (entry : Result (DavDirEntry S) FsError) (t : MultiError S)
      → ((d : DavDirEntry S)
          → entry ≡ ok d
          → (meta : DavMetaData) → d.metadata t.inner ≡ ok meta
          → Ends (Reports t) (delete meta (entry_path path d.name meta.is_dir) t))
      → Ends (Reports t) (delete_entry delete path entry t)
  unfolding delete_entry
  delete_entry-Reports delete path (err fault) t h = add_status-Reports path fault t
  delete_entry-Reports delete path (ok d) t h =
      reading-Reports path d.metadata t (λ meta. delete meta (entry_path path d.name meta.is_dir))
        (λ meta e. h d refl meta e)

  module _ (fs : GuardedFileSystem S) where
    -- Each entry of a directory lies lower than the directory: the depth of the filesystem is bounded.
    abbrev pub IsLower : (DavPath → ℕ) → Type 0
    IsLower height =
        (path : DavPath) (s : S) (entries : List (Result (DavDirEntry S) FsError))
        → fs.read_dir path s ≡ ok entries
        → All
            (λ e.
              (d : DavDirEntry S)
              → e ≡ ok d
              → (s : S) (meta : DavMetaData) → d.metadata s ≡ ok meta
              → height (entry_path path d.name meta.is_dir) < height path)
            entries

    -- The recursive deletion returns, where the filesystem is not deeper than the fuel. Where it
    -- succeeds it has reported nothing; where it fails, its error is a status, and it has reported one
    -- failure or more, none of which is the status of a success.
    pub delete_items-Reports :
        (height : DavPath → ℕ) (fuel : ℕ) (depth : Depth) (meta : DavMetaData) (path : DavPath)
        (t : MultiError S)
        → IsLower height
        → height path < fuel
        → Ends (Reports t) (delete_items fs fuel depth meta path t)
    unfolding delete_items
    delete_items-Reports height zero depth meta path t lower enough = absurd (omega arith)
    delete_items-Reports height (suc fuel) depth meta path t lower enough =
        elim (Bool-cases meta.is_dir) [
          | inr a_file ↦
              rw (a_file, delete_items)
                (removing-Reports (fs.remove_file path) (add_status path) t
                  (add_status-Reports path))
          | inl a_dir ↦ elim (Bool-cases (is_zero depth)) [
            | inl alone ↦
                rw (a_dir, alone, delete_items)
                  (removing-Reports (fs.remove_dir path) (add_status path) t
                    (add_status-Reports path))
            | inr all ↦
                rw (a_dir, all, delete_items)
                  (reading-Reports path (fs.read_dir path) t _ (λ entries e.
                    Ends-next (Loops (ok tt) t) (Reports t)
                      (delete_entries (delete_items fs fuel depth) path (ok tt) entries t) _
                      (delete_entries-Loops (delete_items fs fuel depth) path entries
                        (All-weaken _ _ entries
                          (λ entry below s.
                            delete_entry-Reports (delete_items fs fuel depth) path entry s
                              (λ d e' meta e''.
                                (let less = below d e' s.inner meta e'' in
                                  delete_items-Reports height fuel depth meta
                                    (entry_path path d.name meta.is_dir) s lower (omega arith))))
                          (lower path t.inner entries e))
                        (ok tt) t)
                      (λ result s (last, e', added, sent, f).
                        finish-Reports t s result added _ sent
                          (subst (λ r. IsReported r added) {x = last} (ground arith)
                            (f [] succeeds))
                          (λ s.
                            removing-Reports (fs.remove_dir path) (dir_status path) s
                              (dir_status-Reports path)))
                      (λ _ s (_, e', _, _, _). absurd (ground arith))))
          ]
        ]
