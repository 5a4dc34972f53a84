-- ===== src/HandleMkcol/Made.antt =====
-- src/handle_mkcol.rs: what a MKCOL makes, and what one that fails leaves behind.
use dav_server_rs.Common.{
  ℕ, ◌≡◌, ◌≢◌, ◌⊎◌, Bool, true, false, Option, none, some, List, Result, ok, err, Bytes, is_some,
}
use dav_server_rs.DavFilters.{Xml}
use dav_server_rs.DavPath.{DavPath}
use dav_server_rs.Errors.{DavError}
use dav_server_rs.Fs.Guarded.{DavMetaData, GuardedFileSystem}
use dav_server_rs.HandleMkcol.{
  Created, as_dav, flags_of, read_body, rollback_created_collection, with_slash,
}
use dav_server_rs.Ls.{DavLockSystem}

module _ {S : Type 0} where
  -- A call behind the creation that succeeded, where it is made.
  abbrev pub Succeeds : Bool → (S → Result (Unit {0}) DavError × S) → S → S → Type 0
  Succeeds false call v v' = v' ≡ v
  Succeeds true call v v' = ((call v).0 ≡ ok tt) × (v' ≡ (call v).1)

  -- Such a call that is made and fails.
  abbrev pub Fails : Bool → (S → Result (Unit {0}) DavError × S) → S → S → Type 0
  Fails b call v v' = (b ≡ true) × ((call v).0 ≢ ok tt) × (v' ≡ (call v).1)

  abbrev pub marking_calendar : GuardedFileSystem S → DavPath → S → Result (Unit {0}) DavError × S
  marking_calendar fs path = as_dav fs (fs.mark_calendar path)

  abbrev pub marking_addressbook :
      GuardedFileSystem S → DavPath → S → Result (Unit {0}) DavError × S
  marking_addressbook fs path = as_dav fs (fs.mark_addressbook path)

  -- The properties of the body, if there is one.
  abbrev pub setting :
      {Element : Type 0}
      → (DavPath → Element → S → Result (Unit {0}) DavError × S)
      → DavPath
      → Option Element
      → S
      → Result (Unit {0}) DavError × S
  setting apply_set_props path none v = (ok tt, v)
  setting apply_set_props path (some tree) v = apply_set_props path tree v

module _ {S Owner : Type 0} (fs : GuardedFileSystem S) (ls : Option (DavLockSystem S Owner))
    (principal : Option Bytes)
    (get_tokens : Option DavMetaData → DavPath → S → Result (List Bytes) ℕ × S) (path : DavPath)
    (s : S) where
  -- No call was made that changes anything, but for those of the preconditions and for the check of the
  -- lock system.
  pub data IsChecked : S → Type 0 where
    untouched : IsChecked s
    asked : (meta : Option DavMetaData) → IsChecked (get_tokens meta path s).1
    checked :
        (meta : Option DavMetaData) (locksystem : DavLockSystem S Owner) (tokens : List Bytes)
        → ls ≡ some locksystem
        → IsChecked
            (locksystem.check path principal false false tokens (get_tokens meta path s).1).1

  -- The collection was created in such a state, which led to this one.
  abbrev pub IsCreated : S → Type 0
  IsCreated s' =
      (u : S) × IsChecked u × ((fs.create_dir path u).0 ≡ ok tt) × (s' ≡ (fs.create_dir path u).1)

  module _ {Element : Type 0} (xml : Xml Element)
      (apply_set_props : DavPath → Element → S → Result (Unit {0}) DavError × S)
      (parse2 : Bytes → Option Element) (body : Bytes) where
    -- The collection was created, and this is the state in which one of the calls behind it failed.
    abbrev pub IsStopped : Option Element → S → Type 0
    IsStopped tree v =
        (c : S) × (v₁ : S) × (v₂ : S) × IsCreated c
        × (Fails (flags_of xml tree).0 (marking_calendar fs (with_slash path)) c v
            ⊎ (Succeeds (flags_of xml tree).0 (marking_calendar fs (with_slash path)) c v₁
                × Fails (flags_of xml tree).1 (marking_addressbook fs (with_slash path)) v₁ v)
            ⊎ (Succeeds (flags_of xml tree).0 (marking_calendar fs (with_slash path)) c v₁
                × Succeeds (flags_of xml tree).1 (marking_addressbook fs (with_slash path)) v₁ v₂
                × Fails (is_some tree) (setting apply_set_props (with_slash path) tree) v₂ v))

    -- What an error leaves behind: nothing was done, the collection could not be created, or it was
    -- created, one of the calls behind it failed, and it was rolled back.
    abbrev pub IsUndone : S → Type 0
    IsUndone s' =
        IsChecked s'
        ⊎ ((u : S) × IsChecked u
            × ((fs.create_dir path u).0 ≢ ok tt)
            × (s' ≡ (fs.create_dir path u).1))
        ⊎ ((tree : Option Element) × (v : S) × (read_body xml parse2 body ≡ ok tree)
            × IsStopped tree v
            × (s' ≡ rollback_created_collection fs (with_slash path) v))

    module _ {Timestamps : Type 0} (apply_oc_timestamps : DavPath → Timestamps → S → S) where
      -- The collection was created, marked as what the body asks for, given the properties of the body,
      -- if there is one, and the timestamps of the request, and nothing else was done behind it.
      abbrev pub IsMade : Option Element → Timestamps → S → Type 0
      IsMade tree times s' =
          (c : S) × (v₁ : S) × (v₂ : S) × (v₃ : S) × IsCreated c
          × Succeeds (flags_of xml tree).0 (marking_calendar fs (with_slash path)) c v₁
          × Succeeds (flags_of xml tree).1 (marking_addressbook fs (with_slash path)) v₁ v₂
          × Succeeds (is_some tree) (setting apply_set_props (with_slash path) tree) v₂ v₃
          × (s' ≡ apply_oc_timestamps (with_slash path) times v₃)

      -- A MKCOL with that body and those timestamps: an answer says that the collection was made.
      abbrev pub Makes : Result Timestamps DavError → Result Created DavError → S → Type 0
      Makes timestamps (ok response) s' =
          (response.status_code ≡ 201)
          × (tree : Option Element) × (times : Timestamps) × (read_body xml parse2 body ≡ ok tree)
          × (timestamps ≡ ok times)
          × IsMade tree times s'
      Makes timestamps (err e) s' = IsUndone s'
