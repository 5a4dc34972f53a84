-- ===== src/HandleCopymove.antt =====
-- src/handle_copymove.rs: COPY and MOVE over the interface of a filesystem. With the features caldav,
-- carddav and proppatch.
pub mod Copied
pub mod Completing
pub mod Replacing
pub mod Answer
pub mod Checks
pub mod Properties
pub mod Handler
pub mod Refusals
pub mod Sends
pub mod Copying
use dav_server_rs.Common.{
  ℕ, zero, suc, Bool, true, false, not, ◌&&◌, ◌||◌, Option, none, some, List, [], ◌∷◌, ◌++◌, Result,
  ok, err, Bytes, if◌then◌else◌, map, ◌==◌, nat_eq,
}
use dav_server_rs.DavHeaders.Values.{Depth, depth_zero}
use dav_server_rs.DavPath
use dav_server_rs.DavPath.{DavPath, push_segment, add_slash}
use dav_server_rs.Errors.{DavError, status, fs_error, statuscode}
use dav_server_rs.Fs.{FsError, DavProp}
use dav_server_rs.Fs.Guarded.{DavMetaData, DavDirEntry, GuardedFileSystem, Call}
use dav_server_rs.Fs.Kinds
use dav_server_rs.Fs.Kinds.{CollectionKind, is_success, resolve_collection_kind}
use dav_server_rs.HandleDelete.{caught, is_zero}
use dav_server_rs.MultiError.{MultiError}
use dav_server_rs.MultiError
use dav_server_rs.Tree.Monad.{Action, pure, raise, lift, ◌>>=◌, ◌>>◌}

abbrev pub CopyAction : Type 0 → Type 0 → Type 0
CopyAction S A = Action (MultiError S) DavError A

-- `e != FsError::Exists`
abbrev pub is_exists : FsError → Bool
is_exists FsError.exists = true
is_exists _ = false

module _ {S : Type 0} where
  -- The status is sent, and the error returned.
  unfoldable pub add_status : {A : Type 0} → DavPath → DavError → CopyAction S A
  add_status path e m = some (err e, MultiError.add_status path e m)

  -- A call of the filesystem whose error is sent for that path.
  abbrev pub fetching : {A : Type 0} → DavPath → (S → Result A FsError) → CopyAction S A
  fetching path call m = elim (call m.inner) [
    | ok a ↦ some (ok a, m)
    | err e ↦ add_status path (fs_error e) m
  ]

  -- The same, where the call may change the state, and `ignored` says which error is none.
  abbrev pub calling : DavPath → (FsError → Bool) → Call S (Unit {0}) → CopyAction S (Unit {0})
  calling path ignored call m =
      let (r, s) = call m.inner in
      let m' = record m { inner = s } in
      elim r [
        | ok _ ↦ some (ok tt, m')
        | err e ↦ if ignored e then some (ok tt, m') else add_status path (fs_error e) m'
      ]

  -- A call whose error is returned and not sent.
  abbrev pub asking : {A : Type 0} → Call S A → Action S DavError A
  asking call s =
      let (r, s') = call s in
      elim r [ ok a ↦ some (ok a, s') | err e ↦ some (err (fs_error e), s') ]

  -- An action on the filesystem whose error is sent for that path.
  abbrev pub reporting : DavPath → Action S DavError (Unit {0}) → CopyAction S (Unit {0})
  reporting path act m = elim (act m.inner) [
    | none ↦ none
    | some (r, s) ↦
        let m' = record m { inner = s } in
        elim r [ ok _ ↦ some (ok tt, m') | err e ↦ add_status path e m' ]
  ]

-- The first status that is none of a success.
unfoldable pub check_statuses : List (ℕ × DavProp) → Result (Unit {0}) DavError
check_statuses [] = ok tt
check_statuses ((code, _) ∷ rest) =
    let rest' = check_statuses rest in if not (is_success code) then err (status code) else rest'

-- The path of an entry, with a slash if it is a directory.
abbrev pub child : DavPath → Bytes → Bool → DavPath
child path name is_dir =
    let path' = push_segment path name in if is_dir then add_slash path' else path'

-- The old properties are removed, the new ones set.
abbrev replacement : List DavProp → List DavProp → List (Bool × DavProp)
replacement dest_props source_props =
    map (λ p. (false, p)) dest_props ++ map (λ p. (true, p)) source_props

module _ {S : Type 0} (fs : GuardedFileSystem S) where
  abbrev replace_props : DavPath → DavPath → Action S DavError (Unit {0})
  replace_props source dest s = elim (fs.get_props source true s) [
    | err e ↦ some (err (fs_error e), s)
    | ok source_props ↦ elim (fs.get_props dest false s) [
      | err e ↦ some (err (fs_error e), s)
      | ok dest_props ↦ elim (replacement dest_props source_props) [
        | [] ↦ some (ok tt, s)
        | p ∷ ps ↦
            (asking (fs.patch_props dest (p ∷ ps)) >>= λ statuses. lift (check_statuses statuses)) s
      ]
    ]
  ]

  abbrev mark_kind : CollectionKind → DavPath → Action S DavError (Unit {0})
  mark_kind CollectionKind.none dest = pure tt
  mark_kind CollectionKind.calendar dest = asking (fs.mark_calendar dest)
  mark_kind CollectionKind.addressbook dest = asking (fs.mark_addressbook dest)

  unfoldable pub copy_collection_properties :
      DavPath → DavPath → DavMetaData → Action S DavError (Unit {0})
  copy_collection_properties source dest meta s =
      let kind = resolve_collection_kind fs source meta s in
      ((if fs.have_props source s then replace_props source dest else pure tt)
          >> mark_kind kind dest)
        s

  module _ (ensure_visible : DavPath → S → Result (Unit {0}) DavError) where
    -- One entry of the loop, and the last error that was seen.
    unfoldable pub copy_entry :
        (DavPath → DavPath → CopyAction S (Unit {0}))
        → DavPath
        → DavPath
        → Result (Unit {0}) DavError
        → CopyAction S (Result (Unit {0}) DavError)
    copy_entry copy nsrc ndest retval m = elim (ensure_visible nsrc m.inner) [
      | err e ↦ (if statuscode e == 404 then pure retval else caught (add_status nsrc e)) m
      | ok _ ↦ (caught (copy nsrc ndest) >>= λ r. pure (elim r [ ok _ ↦ retval | err e ↦ err e ])) m
    ]

    unfoldable pub copy_entries :
        (DavPath → DavPath → CopyAction S (Unit {0}))
        → DavPath
        → DavPath
        → Result (Unit {0}) DavError
        → List (Result (DavDirEntry S) FsError)
        → CopyAction S (Unit {0})
    copy_entries copy source dest retval [] = lift retval
    copy_entries copy source dest retval (err e ∷ entries) = add_status source (fs_error e)
    copy_entries copy source dest retval (ok dirent ∷ entries) = do
      meta ← fetching source dirent.metadata
      retval' ←
          copy_entry copy (child source dirent.name meta.is_dir)
            (child dest dirent.name meta.is_dir) retval
      copy_entries copy source dest retval' entries

    unfoldable pub do_copy : ℕ → DavPath → DavPath → DavPath → Depth → CopyAction S (Unit {0})
    do_copy zero source topdest dest depth m = none
    do_copy (suc fuel) source topdest dest depth m =
        (if DavPath.eq source topdest then pure tt else (do
          meta ← fetching source (fs.metadata source)
          (if not meta.is_dir then calling source (λ _. false) (fs.copy source dest) else (do
            calling dest (λ e. is_zero depth && is_exists e) (fs.create_dir dest)
            reporting dest (copy_collection_properties source dest meta)
            (if is_zero depth then pure tt else (do
              entries ← fetching source (fs.read_dir source)
              copy_entries (λ nsrc ndest. do_copy fuel nsrc topdest ndest depth) source dest (ok tt)
                  entries))))))
          m

  unfoldable pub do_move : DavPath → DavPath → CopyAction S (Unit {0})
  do_move source dest = calling source (λ _. false) (fs.rename source dest)

  -- `has_parent` of davhandler.rs
  unfoldable pub has_parent : DavPath → S → Bool
  has_parent path s = elim (fs.metadata (DavPath.parent path) s) [ ok m ↦ m.is_dir | err _ ↦ false ]
