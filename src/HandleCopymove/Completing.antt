-- ===== src/HandleCopymove/Completing.antt =====
-- src/handle_copymove.rs: a COPY or a MOVE that succeeds has done what it was asked for.
use dav_server_rs.Common.{
  ℕ, zero, suc, ◌≡◌, refl, sym, subst, Bool, true, false, not, ◌&&◌, Option, none, some, List, [],
  ◌∷◌, Result, ok, err, arith, nat_eq, ◌==◌, inl, inr, Bool-cases, Result-cases, ◌⊎◌, ◌∙◌, ap,
}
use dav_server_rs.DavHeaders.Values.{Depth}
use dav_server_rs.DavPath
use dav_server_rs.DavPath.{DavPath}
use dav_server_rs.Errors.{DavError, statuscode}
use dav_server_rs.Fs.{FsError}
use dav_server_rs.Fs.Guarded.{DavMetaData, DavDirEntry, GuardedFileSystem, Call}
use dav_server_rs.HandleCopymove.{
  CopyAction, add_status, fetching, calling, reporting, child, is_exists, copy_entry, copy_entries,
  do_copy, copy_collection_properties,
}
use dav_server_rs.HandleCopymove.Copied.{
  Copies, IsDir, resource, members, itself, file, alone, collection, no_more, hidden, entry,
}
use dav_server_rs.HandleDelete.{is_zero}
use dav_server_rs.MultiError
use dav_server_rs.MultiError.{MultiError}
use dav_server_rs.Tree.Ends.{OnOk, OnOk-next, OnOk-weaken, if-OnOk}
use dav_server_rs.Tree.Monad.{Action, pure, next, ◌>>=◌}

exists_of_is_exists : (e : FsError) → is_exists e ≡ true → e ≡ FsError.exists
exists_of_is_exists FsError.exists h = refl
exists_of_is_exists e h = absurd (ground arith)

-- The call succeeded, or its error is one that is ignored.
abbrev pub IsCalled : (FsError → Bool) → Result (Unit {0}) FsError → Type 0
IsCalled ignored (ok _) = Unit
IsCalled ignored (err e) = ignored e ≡ true

pub IsCalled-ok : (r : Result (Unit {0}) FsError) → IsCalled (λ _. false) r → r ≡ ok tt
IsCalled-ok (ok _) h = refl
IsCalled-ok (err e) h = absurd (ground arith)

module _ {S : Type 0} where
  fetching-OnOk :
      {A B : Type 0} (Q : B → MultiError S → Type 0) (path : DavPath) (call : S → Result A FsError)
      (k : A → CopyAction S B) (t : MultiError S)
      → ((a : A) → call t.inner ≡ ok a → OnOk Q (k a t))
      → OnOk Q ((fetching path call >>= k) t)
  unfolding add_status
  fetching-OnOk Q path call k t h = elim (Result-cases (call t.inner)) [
    | inl (a, e) ↦ rw (e, OnOk) (h a e)
    | inr (fault, e) ↦ rw (e, OnOk) tt
  ]

  pub calling-OnOk :
      (path : DavPath) (ignored : FsError → Bool) (call : Call S (Unit {0})) (t : MultiError S)
      → OnOk
          (λ _ m. (m.inner ≡ (call t.inner).1) × IsCalled ignored (call t.inner).0)
          (calling path ignored call t)
  unfolding add_status
  calling-OnOk path ignored call t = elim (Result-cases (call t.inner).0) [
    | inl (_, e) ↦ rw (e, OnOk) (refl, subst (IsCalled ignored) (sym e) tt)
    | inr (fault, e) ↦ elim (Bool-cases (ignored fault)) [
      | inl skip ↦ rw (e, skip, OnOk) (refl, subst (IsCalled ignored) (sym e) skip)
      | inr keep ↦ rw (e, keep, OnOk) tt
    ]
  ]

  reporting-OnOk :
      (path : DavPath) (act : Action S DavError (Unit {0})) (t : MultiError S)
      → OnOk (λ _ m. act t.inner ≡ some (ok tt, m.inner)) (reporting path act t)
  unfolding add_status
  reporting-OnOk path act t = go (act t.inner) refl
    where
      go :
          (o : Option (Result (Unit {0}) DavError × S))
          → act t.inner ≡ o
          → OnOk {E = DavError} {A = Unit {0}}
              (λ _ m. act t.inner ≡ some (ok tt, m.inner))
              (elim o [
                | none ↦ none
                | some (r, s) ↦ elim r [
                  | ok _ ↦ some (ok tt, record t { inner = s })
                  | err e ↦ add_status {A = Unit {0}} path e (record t { inner = s })
                ]
              ])
      go none e = tt
      go (some (ok _, s)) e = e
      go (some (err fault, s)) e = tt

  module _ (fs : GuardedFileSystem S) (ensure_visible : DavPath → S → Result (Unit {0}) DavError)
      (topdest : DavPath) (depth : Depth) where
    module _ (copy : DavPath → DavPath → CopyAction S (Unit {0})) (source dest : DavPath)
        (copied : (source dest : DavPath) (t : MultiError S)
          → OnOk
              (λ _ m. Copies fs ensure_visible topdest depth (resource source dest) t.inner m.inner)
              (copy source dest t)) where
      -- What becomes of an entry: it is hidden and left out, or it is copied.
      abbrev EntryDone : DavPath → DavPath → S → S → Type 0
      EntryDone nsrc ndest s u =
          ((fault : DavError) × (ensure_visible nsrc s ≡ err fault)
            × (statuscode fault ≡ 404)
            × (u ≡ s))
          ⊎ ((ensure_visible nsrc s ≡ ok tt)
              × Copies fs ensure_visible topdest depth (resource nsrc ndest) s u)

      caught-OnOk :
          (Q : Result (Unit {0}) DavError → S → Type 0) (P : S → Type 0)
          (retval : Result (Unit {0}) DavError)
          (o : Option (Result (Unit {0}) DavError × MultiError S))
          → OnOk (λ _ m. P m.inner) o
          → ((u : S) → P u → Q retval u)
          → ((e : DavError) (u : S) → Q (err e) u)
          → OnOk {E = DavError}
              (λ r m. Q r m.inner)
              (next
                (elim o [ none ↦ none | some (r, m) ↦ some (ok r, m) ])
                (λ r. pure (elim r [ ok _ ↦ retval | err e ↦ err e ])))
      caught-OnOk Q P retval none h on_ok on_err = tt
      caught-OnOk Q P retval (some (ok _, m)) h on_ok on_err = on_ok m.inner h
      caught-OnOk Q P retval (some (err e, m)) h on_ok on_err = on_err e m.inner

      copy_entry-OnOk :
          (Q : Result (Unit {0}) DavError → S → Type 0) (nsrc ndest : DavPath)
          (retval : Result (Unit {0}) DavError) (t : MultiError S)
          → ((u : S) → EntryDone nsrc ndest t.inner u → Q retval u)
          → ((e : DavError) (u : S) → Q (err e) u)
          → OnOk (λ r m. Q r m.inner) (copy_entry fs ensure_visible copy nsrc ndest retval t)
      unfolding copy_entry add_status MultiError.add_status
      copy_entry-OnOk Q nsrc ndest retval t on_done on_err =
          elim (Result-cases (ensure_visible nsrc t.inner)) [
            | inl (_, e) ↦
                rw (e, OnOk)
                  (caught-OnOk Q
                    (Copies fs ensure_visible topdest depth (resource nsrc ndest) t.inner) retval
                    (copy nsrc ndest t) (copied nsrc ndest t) (λ u h. on_done u (inr (e, h)))
                    on_err)
            | inr (fault, e) ↦ elim (Bool-cases (statuscode fault == 404)) [
              | inl not_found ↦
                  rw (e, not_found, OnOk) (on_done t.inner (inl (fault, e, ground arith, refl)))
              | inr other ↦ rw (e, other, OnOk) (on_err fault t.inner)
            ]
          ]

      -- What is left of the loop is copied, and no failure was seen before.
      abbrev AllCopied :
          Result (Unit {0}) DavError
          → List (Result (DavDirEntry S) FsError)
          → MultiError S
          → MultiError S
          → Type 0
      AllCopied retval entries t m =
          (retval ≡ ok tt)
          × Copies fs ensure_visible topdest depth (members source dest entries) t.inner m.inner

      more :
          (d : DavDirEntry S) (meta : DavMetaData) (entries : List (Result (DavDirEntry S) FsError))
          (s u v : S)
          → d.metadata s ≡ ok meta
          → EntryDone (child source d.name meta.is_dir) (child dest d.name meta.is_dir) s u
          → Copies fs ensure_visible topdest depth (members source dest entries) u v
          → Copies fs ensure_visible topdest depth (members source dest (ok d ∷ entries)) s v
      more d meta entries s u v q (inl (fault, e, missing, same)) rest = hidden q e missing (
          subst (λ u. Copies fs ensure_visible topdest depth (members source dest entries) u v) same
            rest)
      more d meta entries s u v q (inr (e, done)) rest = entry q e done rest

      copy_entries-OnOk :
          (entries : List (Result (DavDirEntry S) FsError)) (retval : Result (Unit {0}) DavError)
          (t : MultiError S)
          → OnOk
              (λ _ m. AllCopied retval entries t m)
              (copy_entries fs ensure_visible copy source dest retval entries t)
      unfolding copy_entries add_status
      copy_entries-OnOk [] (ok _) t = (refl, no_more)
      copy_entries-OnOk [] (err e) t = tt
      copy_entries-OnOk (err fault ∷ entries) retval t = tt
      copy_entries-OnOk (ok d ∷ entries) retval t =
          fetching-OnOk (λ _ m. AllCopied retval (ok d ∷ entries) t m) source d.metadata _ t
            (λ meta q.
              let nsrc = child source d.name meta.is_dir in
              let ndest = child dest d.name meta.is_dir in
              let Q : Result (Unit {0}) DavError → S → Type 0 =
                λ r u. (r ≡ ok tt → (retval ≡ ok tt) × EntryDone nsrc ndest t.inner u) in
              OnOk-next (λ r m. Q r m.inner) (λ _ m. AllCopied retval (ok d ∷ entries) t m)
                (copy_entry fs ensure_visible copy nsrc ndest retval t) _
                (copy_entry-OnOk Q nsrc ndest retval t (λ u done good. (good, done))
                  (λ e u bad. absurd (ground arith)))
                (λ retval' u done.
                  OnOk-weaken (λ _ m. AllCopied retval' entries u m)
                    (λ _ m. AllCopied retval (ok d ∷ entries) t m) _
                    (copy_entries-OnOk entries retval' u)
                    (λ _ m (good, rest).
                      let (before, done') = done good in
                      (before, more d meta entries t.inner u.inner m.inner q done' rest))))

    IsCalled-IsDir :
        (dest : DavPath) (s : S)
        → IsCalled (λ e. is_zero depth && is_exists e) (fs.create_dir dest s).0
        → IsDir fs ensure_visible topdest depth dest s
    IsCalled-IsDir dest s called = elim (Result-cases (fs.create_dir dest s).0) [
      | inl (_, e) ↦ inl e
      | inr (fault, e) ↦
          let ignored : (is_zero depth && is_exists fault) ≡ true =
            subst (IsCalled (λ e. is_zero depth && is_exists e)) e called in
          inr (ground arith, e ∙ ap (λ x. err x) (exists_of_is_exists fault (ground arith)))
    ]

    -- A recursive copy that succeeds has copied the source with all that is in it and is not hidden.
    pub do_copy-Copies :
        (fuel : ℕ) (source dest : DavPath) (t : MultiError S)
        → OnOk
            (λ _ m. Copies fs ensure_visible topdest depth (resource source dest) t.inner m.inner)
            (do_copy fs ensure_visible fuel source topdest dest depth t)
    unfolding do_copy
    do_copy-Copies zero source dest t = tt
    do_copy-Copies (suc fuel) source dest t =
        let Q : Unit {0} → MultiError S → Type 0 =
          λ _ m. Copies fs ensure_visible topdest depth (resource source dest) t.inner m.inner in
        if-OnOk Q (DavPath.eq source topdest) _ _ t itself (λ other.
          fetching-OnOk Q source (fs.metadata source) _ t (λ meta q.
            if-OnOk Q (not meta.is_dir) _ _ t
              (λ a_file.
                OnOk-weaken _ Q _ (calling-OnOk source (λ _. false) (fs.copy source dest) t)
                  (λ _ m (same, called).
                    subst
                      (λ s. Copies fs ensure_visible topdest depth (resource source dest) t.inner s)
                      (sym same) (file other q (ground arith) (IsCalled-ok _ called))))
              (λ a_dir.
                OnOk-next _ Q
                  (calling dest (λ e. is_zero depth && is_exists e) (fs.create_dir dest) t) _
                  (calling-OnOk dest (λ e. is_zero depth && is_exists e) (fs.create_dir dest) t)
                  (λ _ u (same, called).
                    OnOk-next _ Q
                      (reporting dest (copy_collection_properties fs source dest meta) u) _
                      (reporting-OnOk dest (copy_collection_properties fs source dest meta) u)
                      (λ _ v props.
                        let there = IsCalled-IsDir dest t.inner called in
                        let props' =
                          ap (copy_collection_properties fs source dest meta) (sym same) ∙ props in
                        if-OnOk Q (is_zero depth) _ _ v
                          (λ only. alone other q (ground arith) there props' only)
                          (λ deep.
                            fetching-OnOk Q source (fs.read_dir source) _ v (λ entries listed.
                              OnOk-weaken _ Q _
                                (copy_entries-OnOk
                                  (λ nsrc ndest.
                                    do_copy fs ensure_visible fuel nsrc topdest ndest depth)
                                  source dest (do_copy-Copies fuel) entries (ok tt) v)
                                (λ _ m (_, others).
                                  collection other q (ground arith) there props' deep listed
                                    others))))))))
