-- ===== src/MemLs/Walk.antt =====
-- src/memls.rs: the tree of locks, and the walks from its root along the segments of a path.
use dav_server_rs.Common.{
  ℕ, Bool, false, Option, none, some, List, [], ◌∷◌, Result, ok, err, nat_eq, list_eq, option_eq,
  if◌then◌else◌, is_empty, Bytes,
}
use dav_server_rs.DavPath.{DavPath, as_bytes, segments}
use dav_server_rs.Fs.{FsError}
use dav_server_rs.Ls.{DavLock}
use dav_server_rs.Tree
use dav_server_rs.Tree.{
  root_id, get_node, set_node, get_children, add_child, delete_node, delete_subtree,
}

-- The tree of locks: a node for each path that has been locked, under its segments.
abbrev pub Locks : Type 0 → Type 0
Locks Element = Tree.Tree Bytes (List (DavLock Element))

unfoldable pub path_to_segs : DavPath → Bool → List Bytes
path_to_segs path include_root =
    let segs = segments (as_bytes path) in if include_root then [] ∷ segs else segs

module _ {Element : Type 0} where
  unfoldable pub get_child : ℕ → Bytes → Locks Element → Result ℕ FsError
  get_child node_id seg tree = if is_empty seg then ok node_id else Tree.get_child node_id seg tree

  unfoldable pub lookup_from : ℕ → List Bytes → Locks Element → Option ℕ
  lookup_from node_id [] tree = some node_id
  lookup_from node_id (seg ∷ segs) tree = elim (Tree.get_child node_id seg tree) [
    | err _ ↦ none
    | ok n ↦ lookup_from n segs tree
  ]

  unfoldable pub lookup_node : DavPath → Locks Element → Option ℕ
  lookup_node path tree = lookup_from root_id (path_to_segs path false) tree
