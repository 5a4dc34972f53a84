-- ===== src/Fs/Kinds.antt =====
-- src/fs.rs: whether a collection is a calendar or an address book, from its metadata or from the marker
-- among its properties. With the features caldav, carddav and proppatch.
use dav_server_rs.Common.{
  Bool, true, false, ◌&&◌, some, List, ok, err, Bytes, codes, any, if◌then◌else◌, ◌==◌, nat_eq,
  list_eq, option_eq, ℕ, leb, ltb,
}
use dav_server_rs.DavPath.{DavPath}
use dav_server_rs.Fs.{DavProp}
use dav_server_rs.Fs.Guarded.{DavMetaData, GuardedFileSystem}

-- `StatusCode::is_success`
abbrev pub is_success : ℕ → Bool
is_success status = leb 200 status && ltb status 300

abbrev pub ns_caldav_uri : Bytes
ns_caldav_uri = codes "urn:ietf:params:xml:ns:caldav"

abbrev pub ns_carddav_uri : Bytes
ns_carddav_uri = codes "urn:ietf:params:xml:ns:carddav"

pub data CollectionKind : Type 0 where
  none calendar addressbook : CollectionKind

unfoldable pub is_calendar_type_marker : DavProp → Bool
is_calendar_type_marker prop =
    (prop.name == codes "calendar") && (prop.namespace == some ns_caldav_uri)

unfoldable pub is_addressbook_type_marker : DavProp → Bool
is_addressbook_type_marker prop =
    (prop.name == codes "addressbook") && (prop.namespace == some ns_carddav_uri)

unfoldable pub is_protected_type_marker : DavProp → Bool
is_protected_type_marker prop =
    if is_calendar_type_marker prop
    then true
    else if is_addressbook_type_marker prop
    then true
    else false

unfoldable pub from_meta : DavPath → DavMetaData → CollectionKind
from_meta path meta =
    if meta.is_calendar path
    then calendar
    else if meta.is_addressbook path
    then addressbook
    else none

unfoldable pub from_props : List DavProp → CollectionKind
from_props props =
    if any is_calendar_type_marker props
    then calendar
    else if any is_addressbook_type_marker props
    then addressbook
    else none

module _ {S : Type 0} (fs : GuardedFileSystem S) where
  unfoldable pub resolve_collection_kind : DavPath → DavMetaData → S → CollectionKind
  resolve_collection_kind path meta s = elim (from_meta path meta) [
    | none ↦
        (if meta.is_dir
          then elim (fs.get_props path false s) [ ok props ↦ from_props props | err _ ↦ none ]
          else none)
    | calendar ↦ calendar
    | addressbook ↦ addressbook
  ]
