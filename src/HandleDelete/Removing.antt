-- ===== src/HandleDelete/Removing.antt =====
-- src/handle_delete.rs: a deletion that succeeds has removed everything.
use dav_server_rs.Common.{
  ℕ, zero, suc, ◌≡◌, refl, true, false, Option, none, some, List, [], ◌∷◌, Result, ok, err, arith,
  nat_eq, inl, inr, Bool-cases, Result-cases, subst, sym,
}
use dav_server_rs.DavHeaders.Values.{Depth}
use dav_server_rs.DavPath.{DavPath}
use dav_server_rs.Errors.{DavError, status}
use dav_server_rs.Fs.{FsError}
use dav_server_rs.Fs.Guarded.{DavMetaData, DavDirEntry, GuardedFileSystem}
use dav_server_rs.HandleDelete.{
  DeleteAction, add_status, dir_status, removing, reading, delete_entry, delete_entries,
  delete_items, continue, is_zero, entry_path,
}
use dav_server_rs.HandleDelete.Removal.{
  Removes, resource, members, file, alone, collection, no_more, entry,
}
use dav_server_rs.MultiError.{MultiError}
use dav_server_rs.Tree.Ends.{OnOk, OnOk-next}
use dav_server_rs.Tree.Monad.{lift, next, ◌>>=◌, ◌>>◌}

module _ {S : Type 0} where
  -- Where the call of the filesystem succeeds, that holds of the state that it leaves.
  removing-OnOk :
      (P : S → Type 0) (call : S → Result (Unit {0}) FsError × S)
      (on_err : FsError → DeleteAction S (Unit {0})) (t : MultiError S)
      → ((call t.inner).0 ≡ ok tt → P (call t.inner).1)
      → ((e : FsError) (u : MultiError S) → OnOk (λ _ m. P m.inner) (on_err e u))
      → OnOk (λ _ m. P m.inner) (removing call on_err t)
  removing-OnOk P call on_err t h bad = elim (Result-cases (call t.inner).0) [
    | inl (_, e) ↦ rw (e, OnOk) (h e)
    | inr (fault, e) ↦ rw (e, OnOk) (bad fault (record t { inner = (call t.inner).1 }))
  ]

  reading-OnOk :
      {A B : Type 0} (Q : B → MultiError S → Type 0) (path : DavPath) (call : S → Result A FsError)
      (k : A → DeleteAction S B) (t : MultiError S)
      → ((a : A) → call t.inner ≡ ok a → OnOk Q (k a t))
      → OnOk Q ((reading path call >>= k) t)
  unfolding add_status
  reading-OnOk Q path call k t h = elim (Result-cases (call t.inner)) [
    | inl (a, e) ↦ rw (e, OnOk) (h a e)
    | inr (fault, e) ↦ rw (e, OnOk) tt
  ]

  module _ (fs : GuardedFileSystem S) (depth : Depth)
      (delete : DavMetaData → DavPath → DeleteAction S (Unit {0})) (path : DavPath)
      (removed : (meta : DavMetaData) (path : DavPath) (t : MultiError S)
        → OnOk
            (λ _ m. Removes fs depth (resource meta path) t.inner m.inner)
            (delete meta path t)) where
    -- The entry was read, its metadata too, and it was removed.
    abbrev EntryRemoved : Result (DavDirEntry S) FsError → MultiError S → MultiError S → Type 0
    EntryRemoved e t m =
        (d : DavDirEntry S) × (meta : DavMetaData) × (e ≡ ok d)
        × (d.metadata t.inner ≡ ok meta)
        × Removes fs depth (resource meta (entry_path path d.name meta.is_dir)) t.inner m.inner

    delete_entry-OnOk :
        (e : Result (DavDirEntry S) FsError) (t : MultiError S)
        → OnOk (λ _ m. EntryRemoved e t m) (delete_entry delete path e t)
    unfolding delete_entry add_status
    delete_entry-OnOk (err fault) t = tt
    delete_entry-OnOk (ok d) t =
        reading-OnOk (λ _ m. EntryRemoved (ok d) t m) path d.metadata _ t
          (λ meta q.
            weaken (delete meta (entry_path path d.name meta.is_dir) t) meta q
              (removed meta (entry_path path d.name meta.is_dir) t))
      where
        weaken :
            (o : Option (Result (Unit {0}) DavError × MultiError S)) (meta : DavMetaData)
            → d.metadata t.inner ≡ ok meta
            → OnOk
                (λ _ m.
                  Removes fs depth
                    (resource meta (entry_path path d.name meta.is_dir))
                    t.inner
                    m.inner)
                o
            → OnOk (λ _ m. EntryRemoved (ok d) t m) o
        weaken none meta q h = tt
        weaken (some (ok a, m)) meta q h = (d, meta, refl, q, h)
        weaken (some (err e, m)) meta q h = tt

    -- Where the loop ends without an error, everything that was left of it was removed.
    abbrev AllRemoved :
        Result (Unit {0}) DavError
        → List (Result (DavDirEntry S) FsError)
        → MultiError S
        → Result (Unit {0}) DavError
        → MultiError S
        → Type 0
    AllRemoved result entries t result' m =
        result' ≡ ok tt → (result ≡ ok tt) × Removes fs depth (members path entries) t.inner m.inner

    -- The rest of the loop, from what became of one entry.
    continue-OnOk :
        (result : Result (Unit {0}) DavError) (e : Result (DavDirEntry S) FsError)
        (entries : List (Result (DavDirEntry S) FsError)) (t : MultiError S)
        (rest : Result (Unit {0}) DavError → DeleteAction S (Result (Unit {0}) DavError))
        (o : Option (Result (Unit {0}) DavError × MultiError S))
        → OnOk (λ _ m. EntryRemoved e t m) o
        → ((result : Result (Unit {0}) DavError) (u : MultiError S)
            → OnOk (AllRemoved result entries u) (rest result u))
        → OnOk (AllRemoved result (e ∷ entries) t) (
            next {B = Result (Unit {0}) DavError}
              (elim o [ none ↦ none | some (r, m) ↦ some (ok r, m) ])
              (λ outcome. continue result outcome >>= rest))
    continue-OnOk result e entries t rest none h k = tt
    continue-OnOk result e entries t rest (some (ok a, u)) (d, meta, same, q, gone) k =
        weaken (rest result u) (k result u)
      where
        weaken :
            (o : Option (Result (Result (Unit {0}) DavError) DavError × MultiError S))
            → OnOk (AllRemoved result entries u) o
            → OnOk (AllRemoved result (e ∷ entries) t) o
        weaken none h = tt
        weaken (some (err e, m)) h = tt
        weaken (some (ok result', m)) h = λ good.
            let (before, others) = h good in
            (
              before,
              subst (λ e. Removes fs depth (members path (e ∷ entries)) t.inner m.inner) (sym same)
                  (entry q gone others),
            )
    continue-OnOk result e entries t rest (some (err (status code), u)) h k =
        weaken (rest (err (status code)) u) (k (err (status code)) u)
      where
        weaken :
            (o : Option (Result (Result (Unit {0}) DavError) DavError × MultiError S))
            → OnOk (AllRemoved (err (status code)) entries u) o
            → OnOk (AllRemoved result (e ∷ entries) t) o
        weaken none h = tt
        weaken (some (err e, m)) h = tt
        weaken (some (ok result', m)) h = λ good. let (before, _) = h good in absurd (ground arith)
    continue-OnOk result e entries t rest (some (err fault, u)) h k = tt

    delete_entries-OnOk :
        (entries : List (Result (DavDirEntry S) FsError)) (result : Result (Unit {0}) DavError)
        (t : MultiError S)
        → OnOk (AllRemoved result entries t) (delete_entries delete path result entries t)
    unfolding delete_entries
    delete_entries-OnOk [] result t = λ good. (good, no_more)
    delete_entries-OnOk (e ∷ entries) result t =
        continue-OnOk result e entries t (λ result'. delete_entries delete path result' entries)
          (delete_entry delete path e t) (delete_entry-OnOk e t)
          (λ result u. delete_entries-OnOk entries result u)

  -- What holds of each way in which a deletion succeeds holds of the state that it leaves.
  delete_items-OnOk :
      (fs : GuardedFileSystem S) (fuel : ℕ) (depth : Depth) (meta : DavMetaData) (path : DavPath)
      (t : MultiError S) (P : S → Type 0)
      → ((meta : DavMetaData) (path : DavPath) (t : MultiError S)
          → OnOk
              (λ _ m. Removes fs depth (resource meta path) t.inner m.inner)
              (delete_items fs fuel depth meta path t))
      → (meta.is_dir ≡ false
          → (fs.remove_file path t.inner).0 ≡ ok tt
          → P (fs.remove_file path t.inner).1)
      → (meta.is_dir ≡ true
          → is_zero depth ≡ true
          → (fs.remove_dir path t.inner).0 ≡ ok tt
          → P (fs.remove_dir path t.inner).1)
      → (meta.is_dir ≡ true
          → is_zero depth ≡ false
          → (entries : List (Result (DavDirEntry S) FsError)) (u : S)
          → fs.read_dir path t.inner ≡ ok entries
          → Removes fs depth (members path entries) t.inner u
          → (fs.remove_dir path u).0 ≡ ok tt
          → P (fs.remove_dir path u).1)
      → OnOk (λ _ m. P m.inner) (delete_items fs (suc fuel) depth meta path t)
  unfolding delete_items add_status dir_status
  delete_items-OnOk fs fuel depth meta path t P removed on_file on_alone on_collection =
      elim (Bool-cases meta.is_dir) [
        | inr a_file ↦
            rw (a_file, delete_items)
              (removing-OnOk P (fs.remove_file path) (add_status path) t (on_file a_file)
                (λ _ _. tt))
        | inl a_dir ↦ elim (Bool-cases (is_zero depth)) [
          | inl only ↦
              rw (a_dir, only, delete_items)
                (removing-OnOk P (fs.remove_dir path) (add_status path) t (on_alone a_dir only)
                  (λ _ _. tt))
          | inr deep ↦
              rw (a_dir, deep, delete_items)
                (reading-OnOk (λ _ m. P m.inner) path (fs.read_dir path) _ t
                  (λ entries listed.
                    OnOk-next
                      (AllRemoved fs depth (delete_items fs fuel depth) path removed (ok tt) entries
                        t)
                      (λ _ m. P m.inner)
                      (delete_entries (delete_items fs fuel depth) path (ok tt) entries t) _
                      (delete_entries-OnOk fs depth (delete_items fs fuel depth) path removed
                        entries (ok tt) t)
                      (λ result u gone. finish result u (λ good.
                        removing-OnOk P (fs.remove_dir path) (dir_status path) u
                          (on_collection a_dir deep entries u.inner listed (gone good).1)
                          (λ _ _. tt)))))
        ]
      ]
    where
      finish :
          (result : Result (Unit {0}) DavError) (u : MultiError S)
          → (result ≡ ok tt
              → OnOk (λ _ m. P m.inner) (removing (fs.remove_dir path) (dir_status path) u))
          → OnOk
              (λ _ m. P m.inner)
              ((lift result >> removing (fs.remove_dir path) (dir_status path)) u)
      finish (ok _) u h = h refl
      finish (err e) u h = tt

  -- A deletion that succeeds has removed its target with all that is in it.
  pub delete_items-Removes :
      (fs : GuardedFileSystem S) (fuel : ℕ) (depth : Depth) (meta : DavMetaData) (path : DavPath)
      (t : MultiError S)
      → OnOk
          (λ _ m. Removes fs depth (resource meta path) t.inner m.inner)
          (delete_items fs fuel depth meta path t)
  unfolding delete_items
  delete_items-Removes fs zero depth meta path t = tt
  delete_items-Removes fs (suc fuel) depth meta path t =
      delete_items-OnOk fs fuel depth meta path t (Removes fs depth (resource meta path) t.inner)
        (delete_items-Removes fs fuel depth) file alone
        (λ a_dir deep entries u listed others gone. collection a_dir deep listed others gone)
