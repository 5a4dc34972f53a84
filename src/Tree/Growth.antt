-- ===== src/Tree/Growth.antt =====
-- src/tree.rs: a new node, and a child that is added, leave a tree.
use dav_server_rs.Common.{
  ℕ, ◌+◌, ◌<◌, ◌≡◌, ◌≢◌, refl, subst, Bool, none, some, [], ok, PartialEq, nat_eq, arith,
  wrapping_succ, All, inl, inr, u64_limit, ◌⊎◌,
}
use dav_server_rs.Common.Dict.{Dict, get, insert, get-insert, get-insert_self}
use dav_server_rs.Tree.{Node, Tree, root_id, add_child, get_node}
use dav_server_rs.Tree.Adding.{with_child, leaf, add_child-with_child, with_child-IsAdded}
use dav_server_rs.Tree.Shape.{IsLink, AreLinks, IsTree, AreLinks-weaken, All-weaken, put-IsTree}
use dav_server_rs.Tree.Links.{AreLinks-insert}

module _ {K D : Type 0} where
  -- The tree that `new_node` leaves.
  abbrev with_node : Tree K D → ℕ → D → Tree K D
  with_node t parent content = record {
    nodes =
        insert t.nodes t.node_id
          (record { content = content; id = t.node_id; parent_id = parent; children = [] });
    node_id = wrapping_succ t.node_id;
  }

  -- Links lead to nodes that have been added, never to the next identifier.
  unlinked-fresh :
      (t : Tree K D) (i : ℕ) (children : Dict K ℕ)
      → IsTree t
      → AreLinks t i children
      → All (λ b. b.1 ≢ t.node_id) children
  unlinked-fresh t i children w (links, _) =
      All-weaken (λ b. IsLink t i b.1) (λ b. b.1 ≢ t.node_id) children
        (λ b l q. ground (arith, w.bounded b.1 l.node l.present)) links

  IsLink-with_node :
      (t : Tree K D) (parent : ℕ) (content : D) (i c : ℕ)
      → IsTree t
      → IsLink t i c
      → IsLink (with_node t parent content) i c
  IsLink-with_node t parent content i c w l = record {
    later = l.later;
    node = l.node;
    present = ground (
      arith,
      w.bounded c l.node l.present,
      l.present,
      get-insert t.nodes t.node_id c
          (record { content = content; id = t.node_id; parent_id = parent; children = [] }),
    );
    named = l.named;
  }

  with_node-IsTree :
      (t : Tree K D) (parent : ℕ) (content : D)
      → IsTree t
      → t.node_id + 1 < u64_limit
      → IsTree (with_node t parent content)
  with_node-IsTree t parent content w small = record {
    counter = omega (arith, w.counter);
    root = w.root;
    rooted = ground (arith, w.rooted, w.counter, get-insert t.nodes t.node_id root_id leaf);
    bounded = λ i m h. elim (cases i m h) [
      | inl (here, _) ↦ ground (arith, w.counter)
      | inr old ↦ omega (arith, w.bounded i m old)
    ];
    linked = λ i m h. elim (cases i m h) [
      | inl (_, new) ↦
          subst (λ (n : Node K D). AreLinks (with_node t parent content) i n.children) new (tt, tt)
      | inr old ↦
          AreLinks-weaken t (with_node t parent content) i m.children
            (λ c. IsLink-with_node t parent content i c w) (w.linked i m old)
    ];
  }
    where
      leaf : Node K D
      leaf = record { content = content; id = t.node_id; parent_id = parent; children = [] }

      cases :
          (i : ℕ) (m : Node K D)
          → get (with_node t parent content).nodes i ≡ some m
          → ((t.node_id ≡ i) × (leaf ≡ m)) ⊎ (get t.nodes i ≡ some m)
      cases i m h = ground (arith, get-insert t.nodes t.node_id i leaf)

module _ {K D : Type 0} ⦃e : PartialEq K⦄ where
  pub with_child-IsTree :
      (t : Tree K D) (parent : ℕ) (p : Node K D) (key : K) (content : D)
      → IsTree t
      → t.node_id + 1 < u64_limit
      → get t.nodes parent ≡ some p
      → IsTree (with_child t parent p key content)
  with_child-IsTree t parent p key content w small found =
      let t' = with_node t parent content in
      let n : Node K D = leaf t.node_id parent content in
      let (_, before) = w.bounded parent p found in
      let w' = with_node-IsTree t parent content w small in
      let kept : get t'.nodes parent ≡ some p =
        ground (arith, get-insert t.nodes t.node_id parent n) in
      put-IsTree t' parent p (record p { children = insert p.children key t.node_id }) kept w' refl
        (AreLinks-insert t' parent p.children key t.node_id
          (record {
            later = before;
            node = n;
            present = get-insert_self t.nodes t.node_id n;
            named = refl;
          })
          (unlinked-fresh t parent p.children w (w.linked parent p found))
          (w'.linked parent p kept))

  -- A child under a new key: it gets the next identifier, and the tree is one again.
  pub add_child-IsTree :
      (t : Tree K D) (parent : ℕ) (p : Node K D) (key : K) (content : D) (overwrite : Bool)
      → IsTree t
      → t.node_id + 1 < u64_limit
      → get t.nodes parent ≡ some p
      → get p.children key ≡ none
      → (t' : Tree K D) × (add_child parent key content overwrite t ≡ some (ok t.node_id, t'))
        × IsTree t'
        × (t'.node_id ≡ t.node_id + 1)
        × (get_node t.node_id t' ≡ ok content)
  add_child-IsTree t parent p key content overwrite w small found absent =
      let apart : parent ≢ t.node_id = λ q. omega (arith, w.bounded parent p found) in
      let added = with_child-IsAdded t parent p key content apart (rw found refl) in
      (
        with_child t parent p key content,
        add_child-with_child t parent p key content overwrite apart (rw found refl) absent,
        with_child-IsTree t parent p key content w small found,
        omega arith,
        added.stored,
      )
