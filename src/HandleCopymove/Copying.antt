-- ===== src/HandleCopymove/Copying.antt =====
-- src/handle_copymove.rs: the recursive copy returns, and sends each failure.
use dav_server_rs.Common.{
  not, Bool, ◌&&◌, if◌then◌else◌, ℕ, zero, suc, ◌<◌, ◌≡◌, refl, sym, ap, subst, ◌∙◌, true, false,
  Option, none, some, List, [], ◌∷◌, ◌++◌, Result, ok, err, All, append_assoc, append-nil, arith,
  nat_eq, inl, inr, Bool-cases, Result-cases, Bytes, ◌==◌, Bool,
}
use dav_server_rs.DavHeaders.Values.{Depth}
use dav_server_rs.DavPath
use dav_server_rs.DavPath.{DavPath, add_slash, add_slash_if}
use dav_server_rs.Errors.{DavError, fs_error, statuscode}
use dav_server_rs.Fs.{FsError}
use dav_server_rs.Fs.Guarded.{DavMetaData, DavDirEntry, GuardedFileSystem}
use dav_server_rs.HandleCopymove.{
  CopyAction, add_status, fetching, child, copy_collection_properties, copy_entry, copy_entries,
  do_copy, is_exists,
}
use dav_server_rs.HandleCopymove.Properties.{copy_collection_properties-FailsWell}
use dav_server_rs.HandleCopymove.Sends.{
  IsSent, IsSent-append, completes, IsError, Sends, SendsAfter, fail-SendsAfter, fetching-Sends,
  calling-Sends, reporting-Sends, next-Sends, if-Sends,
}
use dav_server_rs.HandleDelete.{is_zero, entry_path}
use dav_server_rs.HandleDelete.Reports.{statuscode-IsFailure, IsLower}
use dav_server_rs.MultiError.{MultiError, Status}
use dav_server_rs.Tree.Ends.{Ends, Ends-next, Ends-weaken}
use dav_server_rs.Tree.Shape.{All-weaken}
use dav_server_rs.Tree.Monad.{pure, ◌>>=◌, next}

-- The same path as that of a deletion.
child-entry_path :
    (path : DavPath) (name : Bytes) (is_dir : Bool)
    → child path name is_dir ≡ entry_path path name is_dir
unfolding add_slash add_slash_if
child-entry_path path name true = refl
child-entry_path path name false = refl

module _ {S : Type 0} (fs : GuardedFileSystem S)
    (ensure_visible : DavPath → S → Result (Unit {0}) DavError) where
  -- A path that is refused has no status of a success.
  abbrev pub RefusesWell : Type 0
  RefusesWell = (path : DavPath) (s : S) (e : DavError) → ensure_visible path s ≡ err e → IsError e

  -- What one entry adds to what has been sent.
  abbrev pub Adds :
      List Status
      → MultiError S
      → Result (Result (Unit {0}) DavError) DavError
      → MultiError S
      → Type 0
  Adds before t r m =
      (retval : Result (Unit {0}) DavError) × (r ≡ ok retval)
      × (added : List Status) × (m.sent ≡ t.sent ++ added)
      × IsSent retval (before ++ added)

  caught-Adds :
      (retval : Result (Unit {0}) DavError) (before : List Status) (t : MultiError S)
      (o : Option (Result (Unit {0}) DavError × MultiError S))
      → IsSent retval before
      → Ends (Sends t) o
      → Ends (Adds before t) (
          next
            (elim o [ none ↦ none | some (r, m) ↦ some (ok r, m) ])
            (λ r. pure (elim r [ ok _ ↦ retval | err e ↦ err e ])))
  caught-Adds retval before t none h k = k
  caught-Adds retval before t (some (r, m)) h (added, sent, k) = (
    elim r [ ok _ ↦ retval | err e ↦ err e ],
    refl,
    added,
    sent,
    IsSent-append retval r before added h k,
  )

  copy_entry-Adds :
      (copy : DavPath → DavPath → CopyAction S (Unit {0})) (nsrc ndest : DavPath)
      (retval : Result (Unit {0}) DavError) (before : List Status) (t : MultiError S)
      → RefusesWell
      → IsSent retval before
      → Ends (Sends t) (copy nsrc ndest t)
      → Ends (Adds before t) (copy_entry fs ensure_visible copy nsrc ndest retval t)
  unfolding copy_entry add_status
  copy_entry-Adds copy nsrc ndest retval before t well h k =
      elim (Result-cases (ensure_visible nsrc t.inner)) [
        | inl (_, e) ↦ rw (e, Ends) (caught-Adds retval before t (copy nsrc ndest t) h k)
        | inr (fault, e) ↦ elim (Bool-cases (statuscode fault == 404)) [
          | inl hidden ↦
              rw (e, hidden, Ends)
                (
                  retval,
                  refl,
                  [],
                  sym (append-nil t.sent),
                  subst (IsSent retval) (sym (append-nil before)) h,
                )
          | inr other ↦
              let (added, sent, k) =
                fail-SendsAfter retval before nsrc fault t h (well nsrc t.inner fault e) in
              rw (e, other, Ends) (err fault, refl, added, sent, k)
        ]
      ]

  copy_entries-Sends :
      (copy : DavPath → DavPath → CopyAction S (Unit {0})) (source dest : DavPath)
      (retval : Result (Unit {0}) DavError) (before : List Status)
      (entries : List (Result (DavDirEntry S) FsError)) (t : MultiError S)
      → RefusesWell
      → IsSent retval before
      → All
          (λ entry.
            (d : DavDirEntry S)
            → entry ≡ ok d
            → (t : MultiError S) (meta : DavMetaData) → d.metadata t.inner ≡ ok meta
            → Ends
                (Sends t)
                (copy (child source d.name meta.is_dir) (child dest d.name meta.is_dir) t))
          entries
      → Ends
          (SendsAfter before t)
          (copy_entries fs ensure_visible copy source dest retval entries t)
  unfolding copy_entries
  copy_entries-Sends copy source dest retval before [] t well h below =
      ([], sym (append-nil t.sent), subst (IsSent retval) (sym (append-nil before)) h)
  copy_entries-Sends copy source dest retval before (err e ∷ entries) t well h below =
      fail-SendsAfter retval before source (fs_error e) t h (statuscode-IsFailure e)
  copy_entries-Sends copy source dest retval before (ok d ∷ entries) t well h (here, below) =
      fetching-Sends retval before source d.metadata t _ h (λ meta e.
        Ends-next (Adds before t) (SendsAfter before t) _ _
          (copy_entry-Adds copy (child source d.name meta.is_dir) (child dest d.name meta.is_dir)
            retval before t well h (here d refl t meta e))
          (λ r u (retval', same, added, sent, k).
            Ends-weaken (SendsAfter (before ++ added) u) (SendsAfter before t) _
              (copy_entries-Sends copy source dest r (before ++ added) entries u well
                (subst (λ r. IsSent r (before ++ added)) {x = retval'} (ground arith) k) below)
              (λ r' v (more, sent', done). (
                added ++ more,
                sent' ∙ ap (λ xs. xs ++ more) sent ∙ append_assoc t.sent added more,
                subst (IsSent r') (append_assoc before added more) done,
              )))
          (λ fault u (retval', same, _, _, _). absurd (ground arith)))

  -- The members of a collection, where their copies send.
  members :
      (height : DavPath → ℕ) (fuel : ℕ) (source topdest dest : DavPath) (depth : Depth)
      (t : MultiError S)
      → IsLower fs height
      → RefusesWell
      → height source < suc fuel
      → ((nsrc ndest : DavPath) (u : MultiError S)
          → height nsrc < fuel
          → Ends (Sends u) (do_copy fs ensure_visible fuel nsrc topdest ndest depth u))
      → Ends (Sends t) (
          (if is_zero depth then pure tt else (do
            entries ← fetching source (fs.read_dir source)
            copy_entries fs ensure_visible
                (λ nsrc ndest. do_copy fs ensure_visible fuel nsrc topdest ndest depth)
                source
                dest
                (ok tt)
                entries))
            t)
  members height fuel source topdest dest depth t lower well enough copied =
      elim (Bool-cases (is_zero depth)) [
        | inl alone ↦ rw (alone, Ends) ([], sym (append-nil t.sent), completes)
        | inr all ↦ rw all (
            fetching-Sends (ok tt) [] source (fs.read_dir source) t _ completes (λ entries e.
              copy_entries-Sends
                (λ nsrc ndest. do_copy fs ensure_visible fuel nsrc topdest ndest depth) source dest
                (ok tt) [] entries t well completes
                (All-weaken _ _ entries
                  (λ entry below d same u meta e'.
                    let less =
                      subst (λ p. height p < height source)
                        (sym (child-entry_path source d.name meta.is_dir))
                        (below d same u.inner meta e') in
                    copied (child source d.name meta.is_dir) (child dest d.name meta.is_dir) u
                      (omega arith))
                  (lower source t.inner entries e))))
      ]

  -- The recursive copy returns, where the filesystem is not deeper than the fuel. Where it succeeds
  -- it has sent nothing; where it fails, it has sent one status or more, and none of them is that of
  -- a success.
  pub do_copy-Sends :
      (height : DavPath → ℕ) (fuel : ℕ) (source topdest dest : DavPath) (depth : Depth)
      (t : MultiError S)
      → IsLower fs height
      → RefusesWell
      → height source < fuel
      → Ends (Sends t) (do_copy fs ensure_visible fuel source topdest dest depth t)
  unfolding do_copy
  do_copy-Sends height zero source topdest dest depth t lower well enough = absurd (omega arith)
  do_copy-Sends height (suc fuel) source topdest dest depth t lower well enough =
      elim (Bool-cases (DavPath.eq source topdest)) [
        | inl same ↦ rw (same, do_copy) ([], sym (append-nil t.sent), completes)
        | inr other ↦
            rw (other, do_copy)
              (fetching-Sends (ok tt) [] source (fs.metadata source) t _ completes (λ meta _.
                if-Sends (not meta.is_dir) _ _ t
                  (calling-Sends source (λ _. false) (fs.copy source dest) t)
                  (next-Sends _ t _
                    (calling-Sends dest (λ e. is_zero depth && is_exists e) (fs.create_dir dest) t)
                    (λ u.
                      next-Sends _ u _
                        (reporting-Sends dest (copy_collection_properties fs source dest meta) u
                          (copy_collection_properties-FailsWell fs source dest meta u.inner))
                        (λ v.
                          members height fuel source topdest dest depth v lower well enough
                            (λ nsrc ndest w enough'.
                              do_copy-Sends height fuel nsrc topdest ndest depth w lower well
                                enough'))))))
      ]
