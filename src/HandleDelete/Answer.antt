-- ===== src/HandleDelete/Answer.antt =====
-- src/handle_delete.rs, src/multierror.rs: the answer to a deletion.
use dav_server_rs.Common.{
  ℕ, ◌<◌, ◌≡◌, ◌≢◌, refl, ap, ◌∙◌, true, Option, none, some, List, [], ◌∷◌, ◌++◌, Result, ok, err,
  All, ◌==◌, arith, nat_eq, inl, inr, ◌⊎◌, Bool-cases, map, beq_refl, list_eq, false,
}
use dav_server_rs.DavHeaders.Values.{Depth}
use dav_server_rs.DavPath
use dav_server_rs.DavPath.{DavPath, strip_slash}
use dav_server_rs.Errors.{DavError, statuscode}
use dav_server_rs.Fs.Guarded.{DavMetaData, GuardedFileSystem}
use dav_server_rs.Fs.Kinds.{is_success}
use dav_server_rs.HandleDelete.{delete_items, delete_and_answer, delete_locks}
use dav_server_rs.HandleDelete.Reports.{
  IsFailure, IsReported, succeeds, fails, Reports, IsLower, delete_items-Reports,
}
use dav_server_rs.HandleDelete.Removal.{Removes, resource}
use dav_server_rs.HandleDelete.Removing.{delete_items-Removes}
use dav_server_rs.Ls.{DavLockSystem}
use dav_server_rs.MultiError
use dav_server_rs.MultiError.{
  MultiError, Status, Response, plain, multistatus, multi_error, responses,
}
use dav_server_rs.Tree.Ends.{Ends, OnOk}

-- An item of a multistatus with the status of a failure.
abbrev pub IsFailedItem : Result Status DavError → Type 0
IsFailedItem (ok (_, code)) = is_success code ≡ false
IsFailedItem (err _) = ⊥

-- An answer that is not that of a success: the status of a failure, or one such status or more.
abbrev pub Fails : Response → Type 0
Fails (plain code) = is_success code ≡ false
Fails (multistatus items) = (items ≢ []) × All IsFailedItem items

-- Failures are shown with their statuses.
responses-AreFailed :
    (xs : List Status) → All IsFailure xs → All IsFailedItem (responses (map ok xs))
unfolding responses
responses-AreFailed [] h = tt
responses-AreFailed ((p, code) ∷ xs) (bad, h) = elim (Bool-cases (code == 204)) [
  | inl none_there ↦ absurd (ground arith)
  | inr other ↦ rw other (bad, responses-AreFailed xs h)
]

eq_refl : (path : DavPath) → DavPath.eq path path ≡ true
unfolding DavPath.eq
eq_refl path = beq_refl (strip_slash path.fullpath)

module _ (path : DavPath) where
  -- A single success of the request's path is the answer.
  pub multi_error-success :
      (code : ℕ) (sent : List Status)
      → sent ≡ []
      → multi_error path (map ok (sent ++ (path, code) ∷ [])) ≡ ok (plain code)
  unfolding multi_error
  multi_error-success code [] e = rw (eq_refl path) refl
  multi_error-success code (x ∷ xs) e = absurd (ground arith)

  -- Failures never make the answer of a success.
  pub multi_error-failure :
      (x : Status) (xs : List Status)
      → All IsFailure (x ∷ xs)
      → (a : Response) × (multi_error path (map ok (x ∷ xs)) ≡ ok a) × Fails a
  unfolding multi_error responses
  multi_error-failure (p, code) xs h =
      let shown = multistatus (responses (map ok ((p, code) ∷ xs))) in
      let failed : Fails shown =
        ((λ q. absurd (ground arith)), responses-AreFailed ((p, code) ∷ xs) h) in
      elim (Bool-cases (DavPath.eq p path)) [
        | inl same ↦ at xs same failed
        | inr other ↦ (shown, rw other refl, failed)
      ]
    where
      at :
          (xs : List Status)
          → DavPath.eq p path ≡ true
          → Fails (multistatus (responses (map ok ((p, code) ∷ xs))))
          → (a : Response) × (multi_error path (map ok ((p, code) ∷ xs)) ≡ ok a) × Fails a
      at [] same failed = (plain code, rw same refl, h.0)
      at (y ∷ ys) same failed =
          (multistatus (responses (map ok ((p, code) ∷ y ∷ ys))), rw same refl, failed)

module _ {S Element : Type 0} (fs : GuardedFileSystem S)
    (ls : Option (DavLockSystem S Element)) where
  module _ (fuel : ℕ) (depth : Depth) (meta : DavMetaData) (path : DavPath) (s : S) where
    abbrev start : MultiError S
    start = record { inner = s; sent = [] }

    -- The two answers.
    abbrev pub IsAnswered : Result (Unit {0}) DavError → MultiError S → Type 0
    IsAnswered r m =
        ((r ≡ ok tt)
          × Removes fs depth (resource meta path) s m.inner
          × (delete_and_answer fs ls fuel depth meta path s
              ≡ some (ok (plain 204), delete_locks fs ls path m.inner)))
        ⊎ ((r ≢ ok tt)
            × (a : Response) × (delete_and_answer fs ls fuel depth meta path s
                ≡ some (ok a, m.inner))
            × Fails a)

    answer :
        (r : Result (Unit {0}) DavError) (m : MultiError S) (added : List Status)
        → delete_items fs fuel depth meta path start ≡ some (r, m)
        → m.sent ≡ added
        → IsReported r added
        → (r ≡ ok tt → Removes fs depth (resource meta path) s m.inner)
        → IsAnswered r m
    unfolding delete_and_answer MultiError.add_status statuscode
    answer _ m _ e sent succeeds gone = inl (
      refl,
      gone refl,
      rw (e, delete_and_answer)
          (ap (λ r. some (r, delete_locks fs ls path m.inner))
            (multi_error-success path 204 m.sent sent)),
    )
    answer _ m _ e sent (fails code x xs bad) gone =
        let (a, answered, other) = multi_error-failure path x xs bad in
        inr (
          (λ q. absurd (ground arith)),
          a,
          rw (e, delete_and_answer)
              (ap (λ r. some (r, m.inner))
                (ap (λ sent. multi_error path (map ok sent)) sent ∙ answered)),
          other,
        )

    returned :
        (o : Option (Result (Unit {0}) DavError × MultiError S))
        → delete_items fs fuel depth meta path start ≡ o
        → Ends (Reports start) o
        → OnOk (λ _ m. Removes fs depth (resource meta path) s m.inner) o
        → (r : Result (Unit {0}) DavError) × (m : MultiError S) × (delete_items fs fuel depth meta
              path start
            ≡ some (r, m))
          × IsAnswered r m
    returned none e h gone = absurd h
    returned (some (ok a, m)) e (added, sent, k) gone =
        (ok a, m, e, answer (ok a) m added e sent k (λ _. gone))
    returned (some (err fault, m)) e (added, sent, k) gone =
        (err fault, m, e, answer (err fault) m added e sent k (λ q. absurd (ground arith)))

    -- A deletion always has an answer, where the filesystem is not deeper than the fuel. Where the
    -- recursive deletion succeeds, everything was removed, each entry of a collection before the
    -- collection itself and each call with success; the locks at the path are dropped then, and the
    -- answer is 204. Where it fails, no locks are dropped, and the answer is the status of a failure or a
    -- multistatus with one status or more, all of them those of failures.
    pub delete_and_answer_lem :
        (height : DavPath → ℕ)
        → IsLower fs height
        → height path < fuel
        → (r : Result (Unit {0}) DavError) × (m : MultiError S) × (delete_items fs fuel depth meta
              path start
            ≡ some (r, m))
          × IsAnswered r m
    delete_and_answer_lem height lower enough =
        returned (delete_items fs fuel depth meta path start) refl
          (delete_items-Reports fs height fuel depth meta path start lower enough)
          (delete_items-Removes fs fuel depth meta path start)
