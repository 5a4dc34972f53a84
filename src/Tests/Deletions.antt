-- ===== src/Tests/Deletions.antt =====
-- A deletion on a small filesystem: a collection with one file. The state lists what was removed.
use dav_server_rs.Common.{
  ◌||◌, ℕ, ◌<◌, ◌≡◌, refl, sym, subst, true, false, none, some, List, [], ◌∷◌, ◌++◌, Result, ok,
  err, Bytes, codes, All, arith, ◌==◌, list_eq, nat_eq, inl, inr, if◌then◌else◌, Bool-cases,
}
use dav_server_rs.DavHeaders.Values.{infinity}
use dav_server_rs.DavPath.{
  DavPath, as_bytes, strip_slash, push_segment, add_slash_if, is_collection,
}
use dav_server_rs.Errors.{DavError, statuscode}
use dav_server_rs.Fs.{not_found, not_implemented}
use dav_server_rs.Fs.Guarded.{DavMetaData, DavDirEntry, GuardedFileSystem}
use dav_server_rs.HandleDelete.{
  handle_delete, collection_path, delete_items, delete_entries, delete_entry, delete_and_answer,
}
use dav_server_rs.HandleDelete.Answer.{IsAnswered, delete_and_answer_lem}
use dav_server_rs.HandleDelete.Reports.{IsLower, Reports, delete_items-Reports}
use dav_server_rs.HandleDelete.Refusals.{Refuses, handle_delete_lem}
use dav_server_rs.Ls.{DavLock, DavLockSystem}
use dav_server_rs.DavPath
use dav_server_rs.MultiError
use dav_server_rs.MultiError.{MultiError, plain}
use dav_server_rs.Tree.Ends.{Ends}

abbrev pub Removed : Type 0
Removed = List Bytes

abbrev pub a_file : DavMetaData
a_file = record {
  len = 0;
  is_dir = false;
  is_file = true;
  is_symlink = false;
  is_calendar = λ _. false;
  is_addressbook = λ _. false;
}

abbrev pub a_dir : DavMetaData
a_dir = record {
  len = 0;
  is_dir = true;
  is_file = false;
  is_symlink = false;
  is_calendar = λ _. false;
  is_addressbook = λ _. false;
}

abbrev pub member : DavDirEntry Removed
member = record { name = codes "b"; metadata = λ _. ok a_file }

abbrev pub at_dir : DavPath
at_dir = record { fullpath = codes "/a/"; pfxlen = none }

abbrev pub one_dir : GuardedFileSystem Removed
one_dir = record {
  read_dir = λ path _. if path.fullpath == codes "/a/" then ok (ok member ∷ []) else err not_found;
  metadata = λ path _.
      if path.fullpath == codes "/a/" || path.fullpath == codes "/" then ok a_dir else ok a_file;
  symlink_metadata = λ path _. if path.fullpath == codes "/a/" then ok a_dir else ok a_file;
  remove_dir = λ path s. (ok tt, s ++ path.fullpath ∷ []);
  remove_file = λ path s. (ok tt, s ++ path.fullpath ∷ []);
  same_resource = λ from to _. ok (from.fullpath == to.fullpath);
  read_file = λ _ _ _. ok [];
  have_props = λ _ _. false;
  get_props = λ _ _ _. err not_implemented;
  create_dir = λ path s. (ok tt, s ++ path.fullpath ∷ []);
  copy = λ _ to s. (ok tt, s ++ to.fullpath ∷ []);
  rename = λ _ to s. (ok tt, s ++ to.fullpath ∷ []);
  patch_props = λ _ _ s. (err not_implemented, s);
  mark_calendar = λ _ s. (ok tt, s);
  mark_addressbook = λ _ s. (ok tt, s);
}

abbrev pub height : DavPath → ℕ
height path = if path.fullpath == codes "/a/" then 1 else 0

abbrev pub locks : DavLockSystem Removed (Unit {0})
locks = record {
  check = λ _ _ _ _ _ s. (ok tt, s);
  delete = λ _ s. (ok tt, s ++ codes "locks" ∷ []);
}

file-IsLower :
    (path : DavPath)
    → path.fullpath ≡ codes "/a/"
    → height (add_slash_if (push_segment path (codes "b")) false) < height path
unfolding add_slash_if push_segment
file-IsLower path here =
    let at : DavPath = record { fullpath = codes "/a/"; pfxlen = path.pfxlen } in
    let below : height (add_slash_if (push_segment at (codes "b")) false) ≡ 0 =
      elim (Bool-cases (is_collection at)) [
        | inl slashed ↦ rw slashed refl
        | inr bare ↦ rw bare refl
      ] in
    let top : height (record { fullpath = codes "/a/"; pfxlen = path.pfxlen }) ≡ 1 = refl in
    subst
      (λ fullpath.
        height (
          add_slash_if
            (push_segment (record { fullpath = fullpath; pfxlen = path.pfxlen }) (codes "b")) false)
        < height (record { fullpath = fullpath; pfxlen = path.pfxlen }))
      (sym here) (omega (arith, below, top))

pub one_dir-IsLower : IsLower one_dir height
one_dir-IsLower path s entries e = elim (Bool-cases (path.fullpath == codes "/a/")) [
  | inr other ↦ absurd (ground arith)
  | inl here ↦
      let here' : path.fullpath ≡ codes "/a/" = ground arith in
      subst
        (λ entries.
          All
            (λ e.
              (d : DavDirEntry Removed)
              → e ≡ ok d
              → (s : Removed) (meta : DavMetaData) → d.metadata s ≡ ok meta
              → height (add_slash_if (push_segment path d.name) meta.is_dir) < height path)
            entries)
        {x = ok member ∷ []} (ground arith)
        (
          λ d e' s' meta e''.
              let same : member ≡ d = cc in
              subst
                (λ (d : DavDirEntry Removed).
                  d.metadata s' ≡ ok meta
                  → height (add_slash_if (push_segment path d.name) meta.is_dir) < height path)
                same
                (λ e''.
                  let same_meta : a_file ≡ meta = ground arith in
                  subst
                    (λ (m : DavMetaData).
                      height (add_slash_if (push_segment path (codes "b")) m.is_dir) < height path)
                    same_meta (file-IsLower path here'))
                e'',
          tt,
        )
]

delete_items_example :
    Ends
      (Reports (record { inner = []; sent = [] }))
      (delete_items one_dir 2 infinity a_dir at_dir (record { inner = []; sent = [] }))
delete_items_example =
    delete_items-Reports one_dir height 2 infinity a_dir at_dir (record { inner = []; sent = [] })
      one_dir-IsLower (omega arith)

delete_and_answer_example :
    (r : Result (Unit {0}) DavError) × (m : MultiError Removed) × (delete_items one_dir 2 infinity
        a_dir at_dir
        (record { inner = []; sent = [] })
      ≡ some (r, m))
    × IsAnswered one_dir (some locks) 2 infinity a_dir at_dir [] r m
delete_and_answer_example =
    delete_and_answer_lem one_dir (some locks) 2 infinity a_dir at_dir [] height one_dir-IsLower
      (omega arith)

-- The member goes first, then the collection, then its locks.
delete_test :
    delete_and_answer one_dir (some locks) 2 infinity a_dir at_dir []
    ≡ some (ok (plain 204), codes "/a/b" ∷ codes "/a/" ∷ codes "locks" ∷ [])
unfolding delete_and_answer delete_items delete_entries delete_entry add_slash_if push_segment
    is_collection as_bytes strip_slash DavPath.eq MultiError.multi_error MultiError.add_status
    statuscode
delete_test = refl

-- A lock system that refuses.
abbrev pub conflicting : DavLock (Unit {0})
conflicting = record {
  token = codes "t";
  path = at_dir;
  principal = none;
  owner = none;
  timeout_at = none;
  timeout = none;
  shared = false;
  deep = true;
}

abbrev pub refusing : DavLockSystem Removed (Unit {0})
refusing = record { check = λ _ _ _ _ _ s. (err conflicting, s); delete = λ _ s. (ok tt, s) }

pub height-below : (path : DavPath) → height path < 2
height-below path = elim (Bool-cases (path.fullpath == codes "/a/")) [
  | inl here ↦ rw here (omega arith)
  | inr other ↦ rw other (omega arith)
]

-- Preconditions that hold, and that change nothing.
abbrev pub no_tokens : {M : Type 0} → M → DavPath → Removed → Result (List Bytes) ℕ × Removed
no_tokens meta path s = (ok [], s)

handle_delete_example :
    Ends
      (Refuses (some refusing) none no_tokens [])
      (handle_delete one_dir (some refusing) 2 (λ _ _. ok tt) no_tokens none none at_dir [])
handle_delete_example =
    handle_delete_lem one_dir none (some refusing) no_tokens 2 (λ _ _. ok tt) none at_dir [] height
      one_dir-IsLower
      (λ meta. height-below (collection_path one_dir (some refusing) meta at_dir []))
