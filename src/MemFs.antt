-- ===== src/MemFs.antt =====
-- src/memfs.rs: the in-memory filesystem on the tree. Each operation takes the time of its call; the
-- mutex is the state that is passed on.
pub mod File
pub mod Contents
pub mod Props
use dav_server_rs.Common.{
  ℕ, Bool, true, false, not, ◌&&◌, Option, none, some, List, [], ◌∷◌, ◌++◌, Result, ok, err, Bytes,
  if◌then◌else◌, init, unwrap_or, get_last?, nat_eq, list_eq, option_eq, length,
}
use dav_server_rs.Common
use dav_server_rs.Common.Dict.{Dict, insert, remove, get, values}
use dav_server_rs.DavPath.{DavPath, as_bytes, segments}
use dav_server_rs.Fs.{FsError, DavProp, exists, not_found, forbidden}
use dav_server_rs.Conditional.{SystemTime}
use dav_server_rs.Tree
use dav_server_rs.Tree.{
  root_id, get_node, set_node, get_child, get_children, add_child, delete_node, move_node,
}
use dav_server_rs.Tree.Monad.{Action, pure, raise, lift, reads, unwrap, ◌>>=◌, ◌>>◌}

pub record MemFsDirNode : Type 0 where
  pub props : Dict Bytes DavProp
  pub mtime : SystemTime
  pub crtime : SystemTime
  pub is_calendar : Bool
  pub is_addressbook : Bool

-- `contents` is the source's `data`.
pub record MemFsFileNode : Type 0 where
  pub props : Dict Bytes DavProp
  pub mtime : SystemTime
  pub crtime : SystemTime
  pub contents : Bytes

pub data MemFsNode : Type 0 where
  dir : MemFsDirNode → MemFsNode
  file : MemFsFileNode → MemFsNode

abbrev pub FsTree : Type 0
FsTree = Tree.Tree Bytes MemFsNode

abbrev pub FsAction : Type 0 → Type 0
FsAction A = Action FsTree FsError A

unfoldable pub new_dir : SystemTime → MemFsNode
new_dir now =
    dir (record {
      props = [];
      mtime = now;
      crtime = now;
      is_calendar = false;
      is_addressbook = false;
    })

unfoldable pub new_file : SystemTime → MemFsNode
new_file now = file (record { props = []; mtime = now; crtime = now; contents = [] })

unfoldable pub is_dir : MemFsNode → Bool
is_dir (dir _) = true
is_dir (file _) = false

-- `as_file`, `as_file_mut`
unfoldable pub as_file : MemFsNode → Result MemFsFileNode FsError
as_file (dir _) = err forbidden
as_file (file f) = ok f

unfoldable pub update_mtime : SystemTime → MemFsNode → MemFsNode
update_mtime tm (dir d) = dir (record d { mtime = tm })
update_mtime tm (file f) = file (record f { mtime = tm })

unfoldable pub update_crtime : SystemTime → MemFsNode → MemFsNode
update_crtime tm (dir d) = dir (record d { crtime = tm })
update_crtime tm (file f) = file (record f { crtime = tm })

unfoldable pub get_node_props : MemFsNode → Dict Bytes DavProp
get_node_props (dir d) = d.props
get_node_props (file f) = f.props

unfoldable pub set_node_props : Dict Bytes DavProp → MemFsNode → MemFsNode
set_node_props props (dir d) = dir (record d { props = props })
set_node_props props (file f) = file (record f { props = props })

unfoldable pub lookup_segs : ℕ → List Bytes → FsTree → Result ℕ FsError
lookup_segs node_id [] t = ok node_id
lookup_segs node_id (seg ∷ segs) t = elim (get_node node_id t) [
  | err e ↦ err e
  | ok n ↦
      (if not (is_dir n)
        then err forbidden
        else Common.◌>>=◌ (get_child node_id seg t) (λ child. lookup_segs child segs t))
]

unfoldable pub lookup : Bytes → FsTree → Result ℕ FsError
lookup path t = lookup_segs root_id (segments path) t

unfoldable pub lookup_parent : Bytes → FsTree → Result ℕ FsError
lookup_parent path t = Common.◌>>=◌ (lookup_segs root_id (init (segments path)) t) λ node_id.
    Common.◌>>=◌ (get_node node_id t) λ n. if not (is_dir n) then err forbidden else ok node_id

unfoldable pub file_name : Bytes → Bytes
file_name path = unwrap_or (get_last? (segments path)) []

-- A write through `get_node_mut`.
abbrev pub change : ℕ → (MemFsNode → MemFsNode) → FsAction (Unit {0})
change id f = do n ← reads (get_node id); set_node id (f n)

-- The options that `do_open` reads.
pub record OpenOptions : Type 0 where
  pub append : Bool
  pub truncate : Bool
  pub create : Bool
  pub create_new : Bool

pub record MemFsFile : Type 0 where
  pub node_id : ℕ
  pub pos : ℕ
  pub append : Bool

-- The node of a file that is opened, created if that is asked for.
unfoldable pub open_node : SystemTime → Bytes → OpenOptions → FsAction ℕ
open_node now path options t = elim (lookup path t) [
  | ok n ↦ (if options.create_new then raise exists t else pure n t)
  | err not_found ↦
      (if not options.create
        then raise not_found t
        else (do
          parent_id ← reads (lookup_parent path)
          add_child parent_id (file_name path) (new_file now) true)
            t)
  | err e ↦ raise e t
]

-- The file is emptied.
unfoldable pub truncate_node : SystemTime → ℕ → MemFsNode → FsAction (Unit {0})
truncate_node now node_id n = do
  f ← lift (as_file n)
  set_node node_id (update_mtime now (file (record f { contents = [] })))

unfoldable pub do_open : SystemTime → Bytes → OpenOptions → FsAction MemFsFile
do_open now path options = do
  node_id ← open_node now path options
  n ← unwrap (reads {E = FsError} (get_node node_id))
  if is_dir n then raise forbidden else do
    if options.truncate then truncate_node now node_id n else pure tt
    pure (record { node_id = node_id; pos = 0; append = options.append })

unfoldable pub create_dir : SystemTime → DavPath → FsAction (Unit {0})
create_dir now path = do
  parent_id ← reads (lookup_parent (as_bytes path))
  add_child parent_id (file_name (as_bytes path)) (new_dir now) false
  change parent_id (update_mtime now)

-- `remove_file`, `remove_dir`: one body.
unfoldable pub remove_file : SystemTime → DavPath → FsAction (Unit {0})
remove_file now path = do
  parent_id ← reads (lookup_parent (as_bytes path))
  node_id ← reads (lookup (as_bytes path))
  delete_node node_id
  change parent_id (update_mtime now)

-- The check for a collection at the destination.
unfoldable pub free_of_dir : Bytes → FsTree → Result (Unit {0}) FsError
free_of_dir path t = elim (lookup path t) [
  | err _ ↦ ok tt
  | ok existing ↦ Common.◌>>=◌ (get_node existing t) λ n. if is_dir n then err exists else ok tt
]

unfoldable pub rename : SystemTime → DavPath → DavPath → FsAction (Unit {0})
rename now from to = do
  node_id ← reads (lookup (as_bytes from))
  parent_id ← reads (lookup_parent (as_bytes from))
  dst_id ← reads (lookup_parent (as_bytes to))
  reads (free_of_dir (as_bytes to))
  move_node node_id dst_id (file_name (as_bytes to)) true
  change parent_id (update_mtime now)
  change dst_id (update_mtime now)

unfoldable pub copy : SystemTime → DavPath → DavPath → FsAction (Unit {0})
copy now from to = do
  snode_id ← reads (lookup (as_bytes from))
  n ← reads (get_node snode_id)
  if is_dir n then raise forbidden else do
    do_open now (as_bytes to)
        (record { append = false; truncate = false; create = true; create_new = false })
    dnode_id ← reads (lookup (as_bytes to))
    s ← reads (get_node snode_id)
    src ← lift (as_file s)
    d ← reads (get_node dnode_id)
    dest ← lift (as_file d)
    set_node dnode_id
        (file (record dest { props = src.props; contents = src.contents; mtime = now }))
