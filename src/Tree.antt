-- ===== src/Tree.antt =====
-- src/tree.rs: a tree of nodes in a map from ids to nodes. A method on `&mut self` is an action: it
-- returns its result and the tree that it leaves, also where it fails. `none` is a call that
-- does not return: a panic, or a recursion deeper than the fuel that it was given.
pub mod Monad
pub mod Ends
pub mod Shape
pub mod Links
pub mod Growth
pub mod Holding
pub mod Deleting
pub mod Adding
use dav_server_rs.Common.{
  ℕ, zero, suc, ◌+◌, Bool, true, false, not, ◌||◌, ◌&&◌, Option, none, some, List, [], ◌∷◌, Result,
  ok, err, PartialEq, ◌==◌, nat_eq, if◌then◌else◌, ok_or, is_empty, wrapping_succ,
}
use dav_server_rs.Common.Dict.{Dict, values, get, insert, remove}
use dav_server_rs.Fs.{FsError, exists, not_found, forbidden}
use Monad.{Action, no_return, pure, raise, lift, reads, modify, attempt, for_each, ◌>>=◌, ◌>>◌}

pub record Node {ℓ κ} (K : Type ℓ) (D : Type κ) : Type (ℓ ⊔ κ) where
  -- The source's `data`, a reserved word here.
  pub content : D
  pub id : ℕ
  pub parent_id : ℕ
  pub children : Dict K ℕ

pub record Tree {ℓ κ} (K : Type ℓ) (D : Type κ) : Type (ℓ ⊔ κ) where
  pub nodes : Dict ℕ (Node K D)
  pub node_id : ℕ

abbrev pub root_id : ℕ
root_id = 1

abbrev pub no_parent : ℕ
no_parent = 0

-- The key under which a node is linked.
abbrev pub key_of {ℓ} : {K : Type ℓ} → ℕ → Dict K ℕ → Option K
key_of id [] = none
key_of id ((k, i) ∷ m) = if i == id then some k else key_of id m

module _ {ℓ κ} {K : Type ℓ} {D : Type κ} where
  -- `self.nodes.get(&id).ok_or(FsError::NotFound)`
  abbrev pub find : ℕ → Tree K D → Result (Node K D) FsError
  find id t = ok_or (get t.nodes id) not_found

  -- The node is written back, as through `get_mut`.
  abbrev pub put : ℕ → Node K D → Tree K D → Tree K D
  put id n t = record t { nodes = insert t.nodes id n }

  abbrev pub forget : ℕ → Tree K D → Tree K D
  forget id t = record t { nodes = remove t.nodes id }

  -- `self.nodes.remove(&id).unwrap()`: a node that is not there panics.
  abbrev pub take_node : ℕ → Action (Tree K D) FsError (Unit {0})
  take_node id t = elim (get t.nodes id) [ none ↦ none | some _ ↦ some (ok tt, forget id t) ]

  unfoldable pub new_node : ℕ → D → Action (Tree K D) FsError ℕ
  new_node parent content t =
      let id = t.node_id in
      let node : Node K D = record {
        content = content;
        id = id;
        parent_id = parent;
        children = [];
      } in
      some (ok id, record { nodes = insert t.nodes id node; node_id = wrapping_succ t.node_id })

  -- `Tree::new`
  unfoldable pub new : D → Tree K D
  new content =
      let node : Node K D = record {
        content = content;
        id = root_id;
        parent_id = no_parent;
        children = [];
      } in
      record { nodes = insert [] root_id node; node_id = wrapping_succ root_id }

  unfoldable pub get_node : ℕ → Tree K D → Result D FsError
  get_node id t = elim (find id t) [ ok n ↦ ok n.content | err e ↦ err e ]

  -- A write through `get_node_mut`.
  unfoldable pub set_node : ℕ → D → Action (Tree K D) FsError (Unit {0})
  set_node id content = do n ← reads (find id); modify (put id (record n { content = content }))

  unfoldable pub get_children : ℕ → Tree K D → Result (Dict K ℕ) FsError
  get_children parent t = elim (find parent t) [ ok n ↦ ok n.children | err e ↦ err e ]

module _ {ℓ κ} {K : Type ℓ} {D : Type κ} ⦃e : PartialEq K⦄ where
  unfoldable pub get_child : ℕ → K → Tree K D → Result ℕ FsError
  get_child parent key t = elim (find parent t) [
    | ok n ↦ ok_or (get n.children key) not_found
    | err e ↦ err e
  ]

  unlink : ℕ → ℕ → Action (Tree K D) FsError (Unit {0})
  unlink id parent = do
    pnode ← reads (find parent)
    key ← lift (ok_or (key_of id pnode.children) not_found)
    modify (put parent (record pnode { children = remove pnode.children key }))

  unfoldable pub delete_node_from_parent : ℕ → Action (Tree K D) FsError (Unit {0})
  unfolding unlink
  delete_node_from_parent id = if id == root_id then pure tt else do
    n ← reads (find id)
    if n.parent_id == no_parent then pure tt else unlink id n.parent_id

  -- The node that the source returns is dropped by every caller.
  unfoldable pub delete_node : ℕ → Action (Tree K D) FsError (Unit {0})
  delete_node id = do
    n ← reads (find id)
    if id == root_id || not (is_empty n.children)
        then raise forbidden
        else do delete_node_from_parent id; take_node id

  unfoldable pub delete_subtree_within : ℕ → ℕ → Action (Tree K D) FsError (Unit {0})
  delete_subtree_within zero id = no_return
  delete_subtree_within (suc fuel) id = do
    n ← reads (find id)
    for_each (delete_subtree_within fuel) (values n.children)
    delete_node_from_parent id
    if not (id == root_id) then modify (forget id) else pure tt

  -- Ids are given in ascending order, so no path of the tree is longer than the next id.
  unfoldable pub delete_subtree : ℕ → Action (Tree K D) FsError (Unit {0})
  unfolding delete_subtree_within
  delete_subtree id t = delete_subtree_within t.node_id id t

  link : ℕ → K → ℕ → Action (Tree K D) FsError ℕ
  link parent key id = do
    pnode ← reads (find parent)
    modify (put parent (record pnode { children = insert pnode.children key id }))
    pure id

  -- What `add_child` does about a node that has the key.
  replace_existing : Option ℕ → Bool → Action (Tree K D) FsError (Unit {0})
  replace_existing none overwrite = pure tt
  replace_existing (some old) overwrite =
      if not overwrite then raise exists else attempt (delete_subtree old)

  unfoldable pub add_child : ℕ → K → D → Bool → Action (Tree K D) FsError ℕ
  unfolding link replace_existing
  add_child parent key content overwrite = do
    pnode ← reads (find parent)
    replace_existing (get pnode.children key) overwrite
    id ← new_node parent content
    link parent key id

  -- The walk of `move_node` from the new parent to the root: it must not meet the node.
  unfoldable pub outside : ℕ → ℕ → ℕ → Action (Tree K D) FsError (Unit {0})
  outside zero id ancestor = no_return
  outside (suc fuel) id ancestor =
      if ancestor == id then raise forbidden else if ancestor == root_id then pure tt else do
        n ← reads (find ancestor)
        if n.parent_id == no_parent then pure tt else outside fuel id n.parent_id

  -- The node that a move replaces. A link to a missing node panics.
  replaced : ℕ → K → Bool → Action (Tree K D) FsError (Option ℕ)
  replaced new_parent new_name overwrite = do
    pnode ← reads (find new_parent)
    elim (get pnode.children new_name) [
      | none ↦ pure {A = Option ℕ} none
      | some cid ↦ λ t. elim (get t.nodes cid) [
        | none ↦ none
        | some cnode ↦
            (if not overwrite || not (is_empty cnode.children)
              then some (err exists, t)
              else some (ok (some cid), t))
      ]
    ]

  adopt : ℕ → ℕ → Action (Tree K D) FsError (Unit {0})
  adopt id new_parent t = elim (get t.nodes id) [
    | none ↦ none
    | some n ↦ some (ok tt, put id (record n { parent_id = new_parent }) t)
  ]

  relink : ℕ → ℕ → K → Action (Tree K D) FsError (Unit {0})
  relink id new_parent new_name t = elim (get t.nodes new_parent) [
    | none ↦ none
    | some pnode ↦
        some
          (ok tt, put new_parent (record pnode { children = insert pnode.children new_name id }) t)
  ]

  unfoldable pub move_node : ℕ → ℕ → K → Bool → Action (Tree K D) FsError (Unit {0})
  unfolding outside replaced adopt relink
  move_node id new_parent new_name overwrite =
      if id == root_id then raise forbidden else if id == new_parent then raise forbidden else do
        (λ t. outside t.node_id id new_parent t)
        dest ← replaced new_parent new_name overwrite
        delete_node_from_parent id
        adopt id new_parent
        elim dest [ none ↦ pure {A = Unit {0}} tt | some old ↦ modify (forget old) ]
        relink id new_parent new_name
