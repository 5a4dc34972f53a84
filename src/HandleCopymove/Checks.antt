-- ===== src/HandleCopymove/Checks.antt =====
-- src/handle_copymove.rs: what `handle_copymove` reads of a request, and its checks.
use dav_server_rs.Common.{
  ℕ, ◌+◌, Bool, true, false, not, ◌&&◌, ◌||◌, Option, none, some, Result, ok, err, Bytes,
  if◌then◌else◌, nat_eq, length, leb, ltb,
}
use dav_server_rs.DavHeaders.Server.{Destination, Origin, Host, is_same_server}
use dav_server_rs.DavHeaders.Values.{Depth, depth_zero, depth_one, infinity}
use dav_server_rs.DavPath
use dav_server_rs.DavPath.{
  DavPath, ParseError, parent, add_slash_if, is_in_collection, from_str_and_prefix,
}
use dav_server_rs.Errors.{DavError, status, fs_error}
use dav_server_rs.Fs.{FsError}
use dav_server_rs.Fs.Guarded.{DavMetaData, GuardedFileSystem}
use dav_server_rs.Fs.Kinds.{CollectionKind, resolve_collection_kind}
use dav_server_rs.HandleDelete.{is_zero}
use dav_server_rs.PercentEncoding.{PercentEncoding}
use dav_server_rs.Util.{DavMethod, is_copy, is_move}

-- What the handler reads of a request, but for its path.
pub record Request : Type 0 where
  pub origin : Origin
  pub host : Option Host
  pub overwrite : Option Bool
  pub depth : Option Depth
  pub destination : Option Destination

-- `DEFAULT_MAX_RESOURCE_SIZE` of caldav.rs and of carddav.rs.
abbrev pub default_max_resource_size : ℕ
default_max_resource_size = 1048576

-- `impl From<ParseError> for DavError` of davpath.rs.
unfoldable pub parse_error : ParseError → DavError
parse_error ParseError.invalid_path = DavError.invalid_path
parse_error ParseError.prefix_mismatch = DavError.illegal_path
parse_error ParseError.forbidden_path = DavError.forbidden_path

abbrev pub refuse_if : Bool → ℕ → Result (Unit {0}) DavError
refuse_if b code = if b then err (status code) else ok tt

unfoldable pub copy_depth : DavMethod → Option Depth → Result Depth DavError
copy_depth method none = ok infinity
copy_depth method (some infinity) = ok infinity
copy_depth method (some depth_zero) = if is_copy method then ok depth_zero else err (status 400)
copy_depth method (some depth_one) = err (status 400)

unfoldable pub destination_path : PercentEncoding → Bytes → Request → Result DavPath DavError
destination_path pct prefix req = elim req.destination [
  | none ↦ err (status 400)
  | some dest ↦
      (if not (is_same_server req.origin req.host dest)
        then err (status 502)
        else elim (from_str_and_prefix pct dest.path prefix) [
          | ok path ↦ ok path
          | err e ↦ err (parse_error e)
        ])
]

-- The destination as it was found: its metadata, and whether it is a file or a link to one.
pub record Found : Type 0 where
  pub is_file : Bool
  pub meta : Result DavMetaData FsError

abbrev pub kinds_differ : CollectionKind → CollectionKind → Bool
kinds_differ CollectionKind.none CollectionKind.none = false
kinds_differ CollectionKind.calendar CollectionKind.calendar = false
kinds_differ CollectionKind.addressbook CollectionKind.addressbook = false
kinds_differ _ _ = true

abbrev pub is_present : Found → Bool
is_present found = elim found.meta [ ok _ ↦ true | err _ ↦ false ]

module _ {S : Type 0} (fs : GuardedFileSystem S) where
  -- The metadata of the source, and its path with a slash if it names a collection, or for a MOVE a
  -- link to one.
  unfoldable pub source_meta : DavMethod → DavPath → S → Result (DavMetaData × DavPath) DavError
  source_meta method path s =
      if is_move method
      then elim (fs.symlink_metadata path s) [
        | err e ↦ err (fs_error e)
        | ok meta ↦
            (if meta.is_symlink
              then elim (fs.metadata path s) [
                | err e ↦ err (fs_error e)
                | ok m2 ↦ ok (meta, add_slash_if (add_slash_if path m2.is_dir) meta.is_dir)
              ]
              else ok (meta, add_slash_if path meta.is_dir))
      ]
      else elim (fs.metadata path s) [
        | err e ↦ err (fs_error e)
        | ok meta ↦ ok (meta, add_slash_if path meta.is_dir)
      ]

  unfoldable pub find_destination : DavPath → S → Found
  find_destination dest s = elim (fs.symlink_metadata dest s) [
    | err e ↦ record { is_file = false; meta = err e }
    | ok meta ↦
        let linked =
          (if meta.is_symlink
            then elim (fs.metadata dest s) [ ok m ↦ m.is_file | err _ ↦ false ]
            else false) in
        record { is_file = meta.is_file || linked; meta = ok meta }
  ]

  -- Whether one of the two lies in the other, or they are the same.
  unfoldable pub check_nesting : DavPath → DavPath → Bool → S → Result (Unit {0}) DavError
  check_nesting path dest present s =
      if DavPath.eq path dest || is_in_collection dest path || is_in_collection path dest
      then err (status 403)
      else if present
      then elim (fs.same_resource path dest s) [
        | err e ↦ err (fs_error e)
        | ok same ↦ if same then err (status 403) else ok tt
      ]
      else ok tt

  -- The kind of a collection is not changed by a copy of its properties.
  unfoldable pub check_kinds :
      DavMethod → Depth → DavMetaData → DavPath → Found → DavPath → S → Result (Unit {0}) DavError
  check_kinds method depth meta path found dest s =
      if is_copy method && is_zero depth && meta.is_dir && is_present found && not found.is_file
      then elim (fs.metadata dest s) [
        | err e ↦ err (fs_error e)
        | ok dest_meta ↦
            (if kinds_differ (resolve_collection_kind fs path meta s)
                (resolve_collection_kind fs dest dest_meta s)
              then err (status 403)
              else ok tt)
      ]
      else ok tt

  -- `valid` is whether the bytes are UTF-8 that the parser of calendars, or that of cards, accepts.
  unfoldable pub validate_object :
      (CollectionKind → Bytes → Bool) → CollectionKind → DavPath → S → Result (Unit {0}) DavError
  validate_object valid kind source s = elim (fs.metadata source s) [
    | err e ↦ err (fs_error e)
    | ok meta ↦
        (if meta.is_dir || ltb default_max_resource_size meta.len
          then err (status 403)
          else elim (fs.read_file source (default_max_resource_size + 1) s) [
            | err e ↦ err (fs_error e)
            | ok contents ↦
                (if leb (length contents) default_max_resource_size && valid kind contents
                  then ok tt
                  else err (status 403))
          ])
  ]

  unfoldable pub validate_copy_destination :
      (CollectionKind → Bytes → Bool) → DavPath → DavPath → S → Result (Unit {0}) DavError
  validate_copy_destination valid source dest s = elim (fs.metadata (parent dest) s) [
    | err e ↦ err (fs_error e)
    | ok meta ↦ elim (resolve_collection_kind fs (parent dest) meta s) [
      | CollectionKind.none ↦ ok tt
      | CollectionKind.calendar ↦ validate_object valid CollectionKind.calendar source s
      | CollectionKind.addressbook ↦ validate_object valid CollectionKind.addressbook source s
    ]
  ]
