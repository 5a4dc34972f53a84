-- ===== src/MemFs/Props.antt =====
-- src/memfs.rs: metadata, listings, times, properties and the marks of collections.
use dav_server_rs.Common.{
  ℕ, Bool, true, false, not, Option, none, some, List, [], ◌∷◌, ◌++◌, Result, ok, err, Bytes,
  if◌then◌else◌, length, unwrap_or, ok_or, map, nat_eq, list_eq,
}
use dav_server_rs.Common
use dav_server_rs.Common.Dict.{Dict, insert, remove, get, values}
use dav_server_rs.DavPath.{DavPath, as_bytes}
use dav_server_rs.Fs.{DavProp, FsError, not_found, forbidden}
use dav_server_rs.Conditional.{SystemTime}
use dav_server_rs.Tree.{get_node, set_node, get_children}
use dav_server_rs.Tree.Monad.{pure, raise, reads, ◌>>=◌, ◌>>◌}
use dav_server_rs.MemFs.{
  FsTree, FsAction, MemFsNode, dir, file, MemFsDirNode, is_dir, update_mtime, update_crtime,
  get_node_props, set_node_props, lookup, change,
}

pub record MemFsDirEntry : Type 0 where
  pub mtime : SystemTime
  pub crtime : SystemTime
  pub is_dir_entry : Bool
  pub name : Bytes
  pub size : ℕ
  pub is_calendar : Bool
  pub is_addressbook : Bool

unfoldable pub as_dirent : MemFsNode → Bytes → MemFsDirEntry
as_dirent (file f) name = record {
  name = name;
  mtime = f.mtime;
  crtime = f.crtime;
  is_dir_entry = false;
  size = length f.contents;
  is_calendar = false;
  is_addressbook = false;
}
as_dirent (dir d) name = record {
  name = name;
  mtime = d.mtime;
  crtime = d.crtime;
  is_dir_entry = true;
  size = 0;
  is_calendar = d.is_calendar;
  is_addressbook = d.is_addressbook;
}

-- The node of a path.
unfoldable pub node_at : DavPath → FsTree → Result MemFsNode FsError
node_at path t = Common.◌>>=◌ (lookup (as_bytes path) t) (λ id. get_node id t)

unfoldable pub metadata : DavPath → FsTree → Result MemFsDirEntry FsError
metadata path t = Common.◌>>=◌ (node_at path t) (λ n. ok (as_dirent n (as_bytes path)))

-- The entries of a directory: a child without a node is skipped.
unfoldable pub entries : FsTree → Dict Bytes ℕ → List MemFsDirEntry
entries t [] = []
entries t ((name, id) ∷ children) =
    let rest = entries t children in
    elim (get_node id t) [ ok n ↦ as_dirent n name ∷ rest | err _ ↦ rest ]

unfoldable pub read_dir : DavPath → FsTree → Result (List MemFsDirEntry) FsError
read_dir path t = Common.◌>>=◌ (lookup (as_bytes path) t) λ id. Common.◌>>=◌ (get_node id t) λ n.
    if not (is_dir n)
    then err forbidden
    else Common.◌>>=◌ (get_children id t) (λ children. ok (entries t children))

unfoldable pub set_modified : DavPath → SystemTime → FsAction (Unit {0})
set_modified path tm = do id ← reads (lookup (as_bytes path)); change id (update_mtime tm)

unfoldable pub set_created : DavPath → SystemTime → FsAction (Unit {0})
set_created path tm = do id ← reads (lookup (as_bytes path)); change id (update_crtime tm)

unfoldable pub propkey : Option Bytes → Bytes → Bytes
propkey ns name = unwrap_or ns [] ++ name

unfoldable pub cloneprop : DavProp → DavProp
cloneprop p = record p { xml = none }

-- The loop of `patch_props`: true sets a property, false removes it; each has the status 200.
unfoldable pub patch_each :
    Dict Bytes DavProp → List (Bool × DavProp) → Dict Bytes DavProp × List (ℕ × DavProp)
patch_each props [] = (props, [])
patch_each props ((set, p) ∷ patch) =
    let key = propkey p.namespace p.name in
    let (props', res) = patch_each (if set then insert props key p else remove props key) patch in
    (props', (200, cloneprop p) ∷ res)

unfoldable pub patch_props : DavPath → List (Bool × DavProp) → FsAction (List (ℕ × DavProp))
patch_props path patch = do
  id ← reads (lookup (as_bytes path))
  n ← reads (get_node id)
  set_node id (set_node_props (patch_each (get_node_props n) patch).0 n)
  pure (patch_each (get_node_props n) patch).1

unfoldable pub get_props : DavPath → Bool → FsTree → Result (List DavProp) FsError
get_props path do_content t =
    Common.◌>>=◌ (node_at path t)
      λ n. ok (map (λ p. if do_content then p else cloneprop p) (values (get_node_props n)))

unfoldable pub get_prop : DavPath → DavProp → FsTree → Result Bytes FsError
get_prop path prop t = Common.◌>>=◌ (node_at path t) λ n.
    Common.◌>>=◌ (ok_or (get (get_node_props n) (propkey prop.namespace prop.name)) not_found)
      λ p. ok_or p.xml not_found

-- A mark on a directory.
unfoldable pub mark : (MemFsDirNode → MemFsDirNode) → DavPath → FsAction (Unit {0})
mark f path = do
  id ← reads (lookup (as_bytes path))
  n ← reads (get_node id)
  elim n [ dir d ↦ set_node id (dir (f d)) | file _ ↦ raise forbidden ]

unfoldable pub mark_calendar : DavPath → FsAction (Unit {0})
mark_calendar = mark (λ d. record d { is_calendar = true })

unfoldable pub mark_addressbook : DavPath → FsAction (Unit {0})
mark_addressbook = mark (λ d. record d { is_addressbook = true })
