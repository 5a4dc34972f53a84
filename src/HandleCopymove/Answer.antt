-- ===== src/HandleCopymove/Answer.antt =====
-- src/handle_copymove.rs, src/multierror.rs: the answer to a COPY or a MOVE.
use dav_server_rs.Common.{
  Result-cases, not, ◌&&◌, ◌||◌, false, ℕ, ◌<◌, ◌≡◌, ◌≢◌, refl, sym, ap, ◌∙◌, Option, none, some,
  List, [], Result, ok, err, arith, nat_eq, inl, inr, ◌⊎◌, Bool, map, append-nil,
}
use dav_server_rs.DavHeaders.Values.{Depth, infinity}
use dav_server_rs.DavPath.{DavPath}
use dav_server_rs.Errors.{DavError, status, statuscode}
use dav_server_rs.Fs.Guarded.{GuardedFileSystem}
use dav_server_rs.HandleCopymove.{do_move}
use dav_server_rs.HandleCopymove.Copying.{RefusesWell, do_copy-Sends}
use dav_server_rs.HandleCopymove.Checks.{Found}
use dav_server_rs.HandleCopymove.Copied.{IsReplaced}
use dav_server_rs.HandleCopymove.Replacing.{replace-IsReplaced}
use dav_server_rs.HandleCopymove.Handler.{
  replace, clear_destination, transfer, drop_locks, success_status, copymove_and_answer,
}
use dav_server_rs.HandleCopymove.Sends.{
  IsSent, completes, Sends, next-Sends, if-Sends, calling-Sends,
}
use dav_server_rs.HandleDelete.{is_zero}
use dav_server_rs.HandleDelete.Answer.{Fails, multi_error-failure, multi_error-success}
use dav_server_rs.HandleDelete.Reports.{
  IsReported, succeeds, IsLower, Reports, delete_items-Reports,
}
use dav_server_rs.Ls.{DavLockSystem}
use dav_server_rs.MultiError
use dav_server_rs.MultiError.{MultiError, Response, plain, multi_error, Status}
use dav_server_rs.Tree.Ends.{Ends, Ends-weaken, OnOk}
use dav_server_rs.Util.{DavMethod, is_copy}

-- What a deletion sends is what a copy may send.
IsReported-IsSent :
    (r : Result (Unit {0}) DavError) (added : List Status) → IsReported r added → IsSent r added
IsReported-IsSent _ _ succeeds = completes
IsReported-IsSent _ _ (IsReported.fails code x xs bad) = IsSent.fails (status code) x xs bad

module _ {S Element : Type 0} (fs : GuardedFileSystem S) (ls : Option (DavLockSystem S Element))
    (ensure_visible : DavPath → S → Result (Unit {0}) DavError) where
  clear_destination-Sends :
      (height : DavPath → ℕ) (fuel : ℕ) (overwrite : Bool) (depth : Depth) (found : Found)
      (dest : DavPath) (t : MultiError S)
      → IsLower fs height
      → height dest < fuel
      → Ends (Sends t) (clear_destination fs ls ensure_visible fuel overwrite depth found dest t)
  unfolding clear_destination
  clear_destination-Sends height fuel overwrite depth found dest t lower enough =
      elim (Result-cases found.meta) [
        | inr (fault, e) ↦ rw (e, clear_destination, Ends) ([], sym (append-nil t.sent), completes)
        | inl (dmeta, e) ↦
            rw (e, clear_destination)
              (if-Sends (overwrite && (not (is_zero depth) || found.is_file)) _ _ t
                (next-Sends _ t (drop_locks fs ls ensure_visible dest)
                  (Ends-weaken (Reports t) (Sends t) _
                    (delete_items-Reports fs height fuel infinity dmeta dest t lower enough)
                    (λ r m (added, sent, k). (added, sent, IsReported-IsSent r added k)))
                  (λ u. ([], sym (append-nil u.sent), completes)))
                ([], sym (append-nil t.sent), completes))
      ]

  transfer-Sends :
      (height : DavPath → ℕ) (fuel : ℕ) (method : DavMethod) (path dest : DavPath) (depth : Depth)
      (t : MultiError S)
      → IsLower fs height
      → RefusesWell fs ensure_visible
      → height path < fuel
      → Ends (Sends t) (transfer fs ls ensure_visible fuel method path dest depth t)
  unfolding transfer do_move
  transfer-Sends height fuel method path dest depth t lower well enough =
      if-Sends (is_copy method) _ _ t
        (do_copy-Sends fs ensure_visible height fuel path dest dest depth t lower well enough)
        (next-Sends _ t (drop_locks fs ls ensure_visible path)
          (calling-Sends path (λ _. false) (fs.rename path dest) t)
          (λ u. ([], sym (append-nil u.sent), completes)))

  module _ (fuel : ℕ) (method : DavMethod) (overwrite : Bool) (depth : Depth) (found : Found)
      (path dest : DavPath) (s : S) where
    abbrev start : MultiError S
    start = record { inner = s; sent = [] }

    -- The two answers.
    abbrev pub IsAnswered : Result (Unit {0}) DavError → MultiError S → Type 0
    IsAnswered r m =
        ((r ≡ ok tt)
          × IsReplaced fs ls ensure_visible method overwrite depth found path dest s m.inner
          × (copymove_and_answer fs ls ensure_visible fuel method overwrite depth found path dest s
              ≡ some (ok (plain (success_status fs ls ensure_visible found)), m.inner)))
        ⊎ ((r ≢ ok tt)
            × (a : Response) × (copymove_and_answer fs ls ensure_visible fuel method overwrite depth
                  found path dest s
                ≡ some (ok a, m.inner))
            × Fails a)

    answer :
        (r : Result (Unit {0}) DavError) (m : MultiError S) (added : List Status)
        → replace fs ls ensure_visible fuel method overwrite depth found path dest start
          ≡ some (r, m)
        → m.sent ≡ added
        → IsSent r added
        → (r ≡ ok tt
            → IsReplaced fs ls ensure_visible method overwrite depth found path dest s m.inner)
        → IsAnswered r m
    unfolding copymove_and_answer MultiError.add_status statuscode
    answer _ m _ e sent completes done = inl (
      refl,
      done refl,
      rw (e, copymove_and_answer)
          (ap (λ r. some (r, m.inner))
            (multi_error-success path (success_status fs ls ensure_visible found) m.sent sent)),
    )
    answer _ m _ e sent (IsSent.fails fault x xs bad) done =
        let (a, answered, other) = multi_error-failure path x xs bad in
        inr (
          (λ q. absurd (ground arith)),
          a,
          rw (e, copymove_and_answer)
              (ap (λ r. some (r, m.inner))
                (ap (λ sent. multi_error path (map ok sent)) sent ∙ answered)),
          other,
        )

    returned :
        (o : Option (Result (Unit {0}) DavError × MultiError S))
        → replace fs ls ensure_visible fuel method overwrite depth found path dest start ≡ o
        → Ends (Sends start) o
        → OnOk
            (λ _ m.
              IsReplaced fs ls ensure_visible method overwrite depth found path dest s m.inner)
            o
        → (r : Result (Unit {0}) DavError) × (m : MultiError S) × (replace fs ls ensure_visible fuel
              method overwrite depth found path dest start
            ≡ some (r, m))
          × IsAnswered r m
    returned none e h done = absurd h
    returned (some (ok a, m)) e (added, sent, k) done =
        (ok a, m, e, answer (ok a) m added e sent k (λ _. done))
    returned (some (err fault, m)) e (added, sent, k) done =
        (err fault, m, e, answer (err fault) m added e sent k (λ q. absurd (ground arith)))

    -- A COPY or a MOVE that is carried out always has an answer, where the filesystem is not deeper
    -- than the fuel. Where nothing fails, what stood at the destination was removed with all that was in
    -- it, and its locks, if it may be overwritten and is no collection that a copy of depth 0 keeps, and
    -- was kept else; then the source was copied with all that is in it and is not hidden, or was renamed
    -- and its locks were dropped; the answer is 201, or 204 if the destination existed. Where anything
    -- fails, the answer is the status of a failure or a multistatus with one status or more, all of them
    -- those of failures.
    pub copymove_and_answer_lem :
        (height : DavPath → ℕ)
        → IsLower fs height
        → RefusesWell fs ensure_visible
        → height dest < fuel
        → height path < fuel
        → (r : Result (Unit {0}) DavError) × (m : MultiError S) × (replace fs ls ensure_visible fuel
              method overwrite depth found path dest start
            ≡ some (r, m))
          × IsAnswered r m
    copymove_and_answer_lem height lower well enough enough' =
        returned (replace fs ls ensure_visible fuel method overwrite depth found path dest start)
          refl
          (next-Sends _ start (transfer fs ls ensure_visible fuel method path dest depth)
            (clear_destination-Sends height fuel overwrite depth found dest start lower enough)
            (λ u. transfer-Sends height fuel method path dest depth u lower well enough'))
          (replace-IsReplaced fs ls ensure_visible fuel method overwrite depth found path dest
            start)
