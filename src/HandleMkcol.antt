-- ===== src/HandleMkcol.antt =====
-- src/handle_mkcol.rs: MKCOL over the interface of a filesystem, and the removal of a collection that
-- could not be made as it was asked for. With the features caldav, carddav and proppatch.
pub mod Made
pub mod Undoing
use dav_server_rs.Common.{
  ℕ, Bool, true, false, not, ◌&&◌, ◌||◌, Option, none, some, List, [], ◌∷◌, Result, ok, err, Bytes,
  codes, if◌then◌else◌, ◌==◌, nat_eq, list_eq, option_eq, is_empty, is_some, ◌++◌, any,
}
use dav_server_rs.DavFilters.{Xml, child_elems}
use dav_server_rs.DavPath.{DavPath, push_segment, parent, is_collection, add_slash}
use dav_server_rs.Errors.{DavError, status, status_close, fs_error}
use dav_server_rs.Fs.{FsError}
use dav_server_rs.Fs.Guarded.{DavMetaData, GuardedFileSystem, Call}
use dav_server_rs.Fs.Kinds.{CollectionKind, resolve_collection_kind, ns_caldav_uri, ns_carddav_uri}
use dav_server_rs.HandleDelete.{precondition}
use dav_server_rs.Ls.{DavLockSystem}
use dav_server_rs.Tree.Monad.{Action, pure, reads, lift, modify, ◌>>=◌, ◌>>◌}

-- The status, and the path of the header Content-Location.
pub record Created : Type 0 where
  pub status_code : ℕ
  pub content_location : Option DavPath

unfoldable pub mkdir_error : FsError → DavError
mkdir_error FsError.exists = status 405
mkdir_error FsError.not_found = status 409
mkdir_error e = fs_error e

module _ {Element : Type 0} (xml : Xml Element) where
  unfoldable pub is_calendar_resourcetype : Element → Bool
  is_calendar_resourcetype rt =
      (xml.name rt == codes "calendar") && (xml.namespace rt == some ns_caldav_uri)

  unfoldable pub is_addressbook_resourcetype : Element → Bool
  is_addressbook_resourcetype rt =
      (xml.name rt == codes "addressbook") && (xml.namespace rt == some ns_carddav_uri)

  -- The children of those elements that have that name.
  unfoldable pub children_of : Bytes → List Element → List Element
  children_of name [] = []
  children_of name (e ∷ rest) =
      let rest' = children_of name rest in
      if xml.name e == name then child_elems (xml.children e) ++ rest' else rest'

  -- Whether a calendar, and whether an address book is asked for.
  unfoldable pub resourcetype_flags : Element → Bool × Bool
  resourcetype_flags tree =
      let types = children_of (codes "resourcetype") (
        children_of (codes "prop") (children_of (codes "set") (child_elems (xml.children tree)))) in
      (any is_calendar_resourcetype types, any is_addressbook_resourcetype types)

  unfoldable pub read_body : (Bytes → Option Element) → Bytes → Result (Option Element) DavError
  read_body parse2 body = if is_empty body then ok none else elim (parse2 body) [
    | none ↦ err (status_close 415)
    | some tree ↦
        (if (xml.name tree == codes "mkcol") && (xml.namespace tree == some (codes "DAV:"))
          then ok (some tree)
          else err (status_close 415))
  ]

  abbrev pub flags_of : Option Element → Bool × Bool
  flags_of none = (false, false)
  flags_of (some tree) = resourcetype_flags tree

abbrev pub found : Result DavMetaData FsError → Option DavMetaData
found (ok meta) = some meta
found (err _) = none

-- The path of the new collection: a slash is added to a path that ends in one, which changes nothing.
unfoldable pub with_slash : DavPath → DavPath
with_slash path = if is_collection path then add_slash path else path

module _ {S : Type 0} (fs : GuardedFileSystem S) where
  unfoldable pub rollback_created_collection : DavPath → S → S
  rollback_created_collection path s =
      let s₁ = (fs.remove_file (push_segment path (codes ".dav-calendar")) s).1 in
      let s₂ = (fs.remove_file (push_segment path (codes ".dav-addressbook")) s₁).1 in
      (fs.remove_dir path s₂).1

  -- A call behind the creation: where it fails, the collection is removed.
  unfoldable pub or_rollback :
      DavPath → (S → Result (Unit {0}) DavError × S) → Action S DavError (Unit {0})
  or_rollback path call s =
      let (r, s') = call s in
      elim r [ ok _ ↦ some (ok tt, s') | err e ↦ some (err e, rollback_created_collection path s') ]

  abbrev pub as_dav : Call S (Unit {0}) → S → Result (Unit {0}) DavError × S
  as_dav call s =
      let (r, s') = call s in elim r [ ok _ ↦ (ok tt, s') | err e ↦ (err (fs_error e), s') ]

  -- No calendar in a calendar, no address book in an address book.
  unfoldable pub check_nested : Bool → Bool → DavPath → S → Result (Unit {0}) DavError
  check_nested want_calendar want_addressbook path s =
      if not (want_calendar || want_addressbook)
      then ok tt
      else elim (fs.metadata (parent path) s) [
        | err _ ↦ ok tt
        | ok meta ↦
            let nested : Bool = elim (resolve_collection_kind fs (parent path) meta s) [
              | CollectionKind.none ↦ false
              | CollectionKind.calendar ↦ want_calendar
              | CollectionKind.addressbook ↦ want_addressbook
            ] in
            if nested then err (status 403) else ok tt
      ]

  unfoldable pub make_collection : DavPath → Action S DavError (Unit {0})
  make_collection path s =
      let (r, s') = fs.create_dir path s in
      elim r [ ok _ ↦ some (ok tt, s') | err e ↦ some (err (mkdir_error e), s') ]

  abbrev pub when : Bool → Action S DavError (Unit {0}) → Action S DavError (Unit {0})
  when b act = if b then act else pure tt

  abbrev pub set_props :
      {Element : Type 0}
      → DavPath
      → (DavPath → Element → S → Result (Unit {0}) DavError × S)
      → Option Element
      → Action S DavError (Unit {0})
  set_props path apply_set_props none = pure tt
  set_props path apply_set_props (some tree) = or_rollback path (apply_set_props path tree)

  module _ {Owner : Type 0} (ls : Option (DavLockSystem S Owner)) where
    unfoldable pub check_lock : Option Bytes → List Bytes → DavPath → Action S DavError (Unit {0})
    check_lock principal tokens path s = elim ls [
      | none ↦ some (ok tt, s)
      | some locksystem ↦
          let (r, s') = locksystem.check path principal false false tokens s in
          elim r [ ok _ ↦ some (ok tt, s') | err _ ↦ some (err (status 423), s') ]
    ]

    -- `get_tokens`, `apply_set_props` and `apply_oc_timestamps` are the functions of those names, the
    -- first applied to the request; `timestamps` is what `oc_timestamps` reads of it.
    unfoldable pub handle_mkcol :
        {Element Timestamps : Type 0}
        → Xml Element
        → (Bytes → Option Element)
        → (DavPath → S → Result (Unit {0}) DavError)
        → (Option DavMetaData → DavPath → S → Result (List Bytes) ℕ × S)
        → (DavPath → Element → S → Result (Unit {0}) DavError × S)
        → (DavPath → Timestamps → S → S)
        → Result Timestamps DavError
        → Option Bytes
        → Bytes
        → DavPath
        → Action S DavError Created
    handle_mkcol xml parse2 ensure_visible get_tokens apply_set_props apply_oc_timestamps timestamps
          principal body path =
        do
          reads (ensure_visible path)
          times ← reads (λ _. timestamps)
          tokens ← precondition (λ s. get_tokens (found (fs.metadata path s)) path s)
          check_lock principal tokens path
          mkcol_body ← reads (λ _. read_body xml parse2 body)
          reads (check_nested (flags_of xml mkcol_body).0 (flags_of xml mkcol_body).1 path)
          make_collection path
          when (flags_of xml mkcol_body).0
              (or_rollback (with_slash path) (as_dav (fs.mark_calendar (with_slash path))))
          when (flags_of xml mkcol_body).1
              (or_rollback (with_slash path) (as_dav (fs.mark_addressbook (with_slash path))))
          set_props (with_slash path) apply_set_props mkcol_body
          modify (apply_oc_timestamps (with_slash path) times)
          pure (record {
            status_code = 201;
            content_location = if is_collection path then some (with_slash path) else none;
          })
