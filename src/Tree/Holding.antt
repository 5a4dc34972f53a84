-- ===== src/Tree/Holding.antt =====
-- src/tree.rs: a node that is unlinked from its parent is still in the map of nodes.
use dav_server_rs.Common.{
  ℕ, ◌≡◌, refl, ok, sym, ap, ◌∙◌, some, PartialEq, ◌==◌, nat_eq, arith, inl, inr, Bool-cases,
  Option-cases,
}
use dav_server_rs.Common.Dict.{get, insert, remove, get-insert_self, get-insert_ne}
use dav_server_rs.Tree.{
  Node, Tree, root_id, no_parent, key_of, unlink, delete_node_from_parent, put, take_node, forget,
}
use dav_server_rs.Tree.Ends.{Keeps}

module _ {K D : Type 0} ⦃e : PartialEq K⦄ where
  -- A node stays in the map while it is unlinked.
  abbrev pub IsHeld : ℕ → Tree K D → Type 0
  IsHeld id t = (n : Node K D) × (get t.nodes id ≡ some n)

  put-IsHeld : (t : Tree K D) (k id : ℕ) (p : Node K D) → IsHeld id t → IsHeld id (put k p t)
  put-IsHeld t k id p (n, found) = elim (Bool-cases (k == id)) [
    | inl here ↦
        let same : k ≡ id = ground arith in
        (p, ap (get (insert t.nodes k p)) (sym same) ∙ get-insert_self t.nodes k p)
    | inr other ↦ (n, get-insert_ne t.nodes p (λ q. ground arith) ∙ found)
  ]

  pub delete_node_from_parent-IsHeld :
      (id : ℕ) (t : Tree K D)
      → IsHeld id t
      → Keeps (IsHeld id) (delete_node_from_parent {K = K} {D = D} id t)
  unfolding delete_node_from_parent unlink
  delete_node_from_parent-IsHeld id t (n, found) = elim (Bool-cases (id == root_id)) [
    | inl root ↦ rw root (n, found)
    | inr other ↦ elim (Bool-cases (n.parent_id == no_parent)) [
      | inl orphan ↦ rw (other, found, orphan) (n, found)
      | inr child ↦ elim (Option-cases (get t.nodes n.parent_id)) [
        | inl missing ↦ rw (other, found, child, missing) (n, found)
        | inr (p, above) ↦ elim (Option-cases (key_of id p.children)) [
          | inl unnamed ↦ rw (other, found, child, above, unnamed) (n, found)
          | inr (key, named) ↦
              rw (other, found, child, above, named)
                (put-IsHeld t n.parent_id id (record p { children = remove p.children key })
                  (n, found))
        ]
      ]
    ]
  ]

  -- It is taken out without a panic.
  pub take_node-held :
      (id : ℕ) (t : Tree K D) → IsHeld id t → take_node id t ≡ some (ok tt, forget id t)
  take_node-held id t (n, found) = rw (found, take_node) refl
