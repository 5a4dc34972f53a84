-- ===== src/Tests/Nodes.antt =====
-- The properties of src/tree.rs at an input.
use dav_server_rs.Common.{ℕ, ◌≡◌, refl, false, none, some, [], ok, codes, Bytes, list_eq, nat_eq}
use dav_server_rs.Common.Dict.{get, insert}
use dav_server_rs.Tree.{Tree, Node, new, find, add_child}
use dav_server_rs.Tree.Adding.{IsAdded, add_child-IsAdded}

abbrev bare : Tree Bytes ℕ
bare = new 5

abbrev root : Node Bytes ℕ
root = record { content = 5; id = 1; parent_id = 0; children = [] }

fresh : get bare.nodes bare.node_id ≡ none
unfolding new get insert
fresh = refl

rooted : find 1 bare ≡ ok root
unfolding new get insert
rooted = refl

unnamed : get root.children (codes "a") ≡ none
unfolding get
unnamed = refl

add_child-IsAdded_example :
    (t : Tree Bytes ℕ) × (add_child 1 (codes "a") 7 false bare ≡ some (ok bare.node_id, t))
    × IsAdded bare 1 (codes "a") 7 bare.node_id t
add_child-IsAdded_example = add_child-IsAdded bare 1 root (codes "a") 7 false fresh rooted unnamed
