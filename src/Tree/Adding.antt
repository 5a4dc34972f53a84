-- ===== src/Tree/Adding.antt =====
-- src/tree.rs: what `add_child` changes, and what it leaves.
use dav_server_rs.Common.{
  ℕ, ◌+◌, ◌%◌, ◌^◌, ◌≡◌, ◌≢◌, refl, sym, ap, ◌∙◌, Bool, none, some, [], ok, PartialEq, nat_eq,
  arith, wrapping_succ,
}
use dav_server_rs.Common.Dict.{get, insert, get-insert_self, get-insert_ne}
use dav_server_rs.Tree.{
  Node, Tree, find, new_node, add_child, get_child, get_node, get_children, link, replace_existing,
}

module _ {ℓ κ} {K : Type ℓ} {D : Type κ} ⦃e : PartialEq K⦄ where
  -- The node that is added, and the tree with it.
  abbrev pub leaf : ℕ → ℕ → D → Node K D
  leaf id parent content = record { content = content; id = id; parent_id = parent; children = [] }

  abbrev pub with_child : Tree K D → ℕ → Node K D → K → D → Tree K D
  with_child t parent p key content = record {
    nodes =
        insert (insert t.nodes t.node_id (leaf t.node_id parent content)) parent
          (record p { children = insert p.children key t.node_id });
    node_id = wrapping_succ t.node_id;
  }

  pub add_child-with_child :
      (t : Tree K D) (parent : ℕ) (p : Node K D) (key : K) (content : D) (overwrite : Bool)
      → parent ≢ t.node_id
      → find parent t ≡ ok p
      → get p.children key ≡ none
      → add_child parent key content overwrite t
        ≡ some (ok t.node_id, with_child t parent p key content)
  unfolding add_child new_node link replace_existing
  add_child-with_child t parent p key content overwrite h f n =
      let stays : get (insert t.nodes t.node_id (leaf t.node_id parent content)) parent
          ≡ get t.nodes parent =
        get-insert_ne t.nodes (leaf t.node_id parent content) (λ q. h (sym q)) in
      let there : get t.nodes parent ≡ some p = ground arith in rw (there, n, stays, there) refl

  -- A child that is added under a new key is found there, empty, with its data, and names its parent;
  -- the counter of identifiers moves on by one, within 64 bits; no other node and no other link is
  -- touched.
  pub record IsAdded (t : Tree K D) (parent : ℕ) (key : K) (content : D) (id : ℕ) (t' : Tree K D)
      : Type (ℓ ⊔ κ) where
    pub linked : get_child parent key t' ≡ ok id
    pub stored : get_node id t' ≡ ok content
    pub childless : get_children id t' ≡ ok []
    pub parentage :
        (child : Node K D) × (find id t' ≡ ok child) × (child.parent_id ≡ parent) × (child.id ≡ id)
    pub counted : t'.node_id ≡ (t.node_id + 1) % 2 ^ 64
    pub kept : get_node parent t' ≡ get_node parent t
    pub siblings : (k : K) → key ≢ k → get_child parent k t' ≡ get_child parent k t
    pub others : (j : ℕ) → parent ≢ j → id ≢ j → find j t' ≡ find j t

  pub with_child-IsAdded :
      (t : Tree K D) (parent : ℕ) (p : Node K D) (key : K) (content : D)
      → parent ≢ t.node_id
      → find parent t ≡ ok p
      → IsAdded t parent key content t.node_id (with_child t parent p key content)
  unfolding get_child get_node get_children
  with_child-IsAdded t parent p key content h f =
      let child = leaf t.node_id parent content in
      let inner = insert t.nodes t.node_id child in
      let new = record p { children = insert p.children key t.node_id } in
      let there : get t.nodes parent ≡ some p = ground arith in
      let at_parent : get (insert inner parent new) parent ≡ some new =
        get-insert_self inner parent new in
      let at_child : get (insert inner parent new) t.node_id ≡ some child =
        get-insert_ne inner new h ∙ get-insert_self t.nodes t.node_id child in
      record {
        linked = rw (at_parent, get-insert_self p.children key t.node_id, get_child) refl;
        stored = rw (at_child, get_node) refl;
        childless = rw (at_child, get_children) refl;
        parentage = (child, rw at_child refl, refl, refl);
        counted = refl;
        kept = rw (at_parent, there, get_node) refl;
        siblings =
            λ k d. rw (at_parent, there, get-insert_ne p.children t.node_id d, get_child) refl;
        others = λ j a b. rw (get-insert_ne inner new a, get-insert_ne t.nodes child b) refl;
      }

  -- Adding a child under a new key to a node that exists succeeds, with or without `overwrite`, where
  -- the next identifier is not taken: the child is found there, empty, with its data and its parent,
  -- the counter moves on by one, within 64 bits, and no other node or link is touched.
  pub add_child-IsAdded :
      (t : Tree K D) (parent : ℕ) (p : Node K D) (key : K) (content : D) (overwrite : Bool)
      → get t.nodes t.node_id ≡ none
      → find parent t ≡ ok p
      → get p.children key ≡ none
      → (t' : Tree K D) × (add_child parent key content overwrite t ≡ some (ok t.node_id, t'))
        × IsAdded t parent key content t.node_id t'
  add_child-IsAdded t parent p key content overwrite fresh f n =
      let apart : parent ≢ t.node_id = λ q.
        (let missing : get t.nodes parent ≡ none = ap (get t.nodes) q ∙ fresh in ground arith) in
      (
        with_child t parent p key content,
        add_child-with_child t parent p key content overwrite apart f n,
        with_child-IsAdded t parent p key content apart f,
      )
