-- ===== src/Tree/Deleting.antt =====
-- src/tree.rs: the deletions return, and leave a tree.
use dav_server_rs.Common.{
  ℕ, zero, suc, ◌+◌, ◌≤◌, ◌<◌, ◌≡◌, ◌≢◌, refl, sym, ap, subst, ◌∙◌, not, ◌||◌, some, Result, ok,
  PartialEq, ◌==◌, nat_eq, arith, All, inl, inr, Bool-cases, Option-cases, if◌then◌else◌, is_empty,
}
use dav_server_rs.Common.Dict.{get, remove, values}
use dav_server_rs.Fs.{FsError}
use dav_server_rs.Tree.{
  Node, Tree, forget, root_id, no_parent, key_of, unlink, delete_node_from_parent, delete_node,
  delete_subtree_within, delete_subtree, put, take_node,
}
use dav_server_rs.Tree.Ends.{Ends, Keeps, Ends-next, Ends-and, for_each-Keeps}
use dav_server_rs.Tree.Holding.{IsHeld, take_node-held, delete_node_from_parent-IsHeld}
use dav_server_rs.Tree.Monad.{Action, for_each, modify, pure, ◌>>◌}
use dav_server_rs.Tree.Shape.{IsLink, IsTree, All-weaken, put-IsTree, put-cases, forget-IsTree}
use dav_server_rs.Tree.Links.{All-values, AreLinks-remove, remove-key_of}

-- What is watched while nodes are taken out: the next identifier, and a property that the tree keeps
-- when a link or a node is taken out, and when data is written that `R` relates to the old data.
pub record Frame (K D : Type 0) ⦃e : PartialEq K⦄ (R : D → D → Type 0) : Type 1 where
  pub limit : ℕ
  pub kept : Tree K D → Type 0
  pub unlinked :
      (t : Tree K D) (p : ℕ) (n : Node K D) (key : K)
      → get t.nodes p ≡ some n
      → kept t
      → kept (put p (record n { children = remove n.children key }) t)
  pub forgotten : (t : Tree K D) (id : ℕ) → kept t → kept (forget id t)
  pub written :
      (t : Tree K D) (id : ℕ) (n : Node K D) (content : D)
      → get t.nodes id ≡ some n
      → R content n.content
      → kept t
      → kept (put id (record n { content = content }) t)

module _ {K D : Type 0} ⦃e : PartialEq K⦄ {R : D → D → Type 0} where
  -- A tree in a frame.
  pub record IsTreeAt (bound : Frame K D R) (t : Tree K D) : Type 0 where
    pub tree : IsTree t
    pub next_id : t.node_id ≡ bound.limit
    pub kept : bound.kept t

module _ {K D : Type 0} where
  abbrev pub IsUnlinked : ℕ → Tree K D → Type 0
  IsUnlinked id t = (i : ℕ) (n : Node K D) → get t.nodes i ≡ some n → All (λ b. b.1 ≢ id) n.children

  -- Only the node that a node names as its parent links to it.
  named_parent :
      (t : Tree K D) (id i : ℕ) (n m : Node K D)
      → IsTree t
      → get t.nodes id ≡ some n
      → get t.nodes i ≡ some m
      → n.parent_id ≢ i
      → All (λ b. b.1 ≢ id) m.children
  named_parent t id i n m w found h other =
      All-weaken (λ b. IsLink t i b.1) (λ b. b.1 ≢ id) m.children
        (λ b l q.
          let same : some l.node ≡ some n = sym l.present ∙ ap (get t.nodes) q ∙ found in
          let one : l.node ≡ n = cc in
          other (sym (ap (λ (m : Node K D). m.parent_id) one) ∙ l.named))
        (w.linked i m h).0

module _ {K D : Type 0} ⦃e : PartialEq K⦄ {R : D → D → Type 0} where
  -- A round for each child: children come later than their parent, and before the next identifier.
  pub for_children-Keeps {κ} :
      {E : Type κ} (bound : Frame K D R) (id : ℕ) (n : Node K D) (t : Tree K D)
      → IsTreeAt bound t
      → get t.nodes id ≡ some n
      → (f : ℕ → Action (Tree K D) E (Unit {0}))
      → ((c : ℕ)
          → id < c
          → c < bound.limit
          → (s : Tree K D) → IsTreeAt bound s
          → Keeps (IsTreeAt bound) (f c s))
      → Keeps (IsTreeAt bound) (for_each f (values n.children) t)
  for_children-Keeps bound id n t w found f h =
      for_each-Keeps (IsTreeAt bound) f (values n.children) t
        (All-values (λ c. (s : Tree K D) → IsTreeAt bound s → Keeps (IsTreeAt bound) (f c s))
          n.children
          (All-weaken (λ b. IsLink t id b.1)
            (λ b. (s : Tree K D) → IsTreeAt bound s → Keeps (IsTreeAt bound) (f b.1 s)) n.children
            (λ b l. h b.1 l.later (omega (arith, w.next_id, w.tree.bounded b.1 l.node l.present)))
            (w.tree.linked id n found).0))
        w

  -- The postcondition of an unlinking.
  abbrev Unlinks : Frame K D R → ℕ → Result (Unit {0}) FsError → Tree K D → Type 0
  Unlinks bound id r t = IsTreeAt bound t × (r ≡ ok tt → id ≢ root_id → IsUnlinked id t)

  unlink-Ends :
      (bound : Frame K D R) (id : ℕ) (n : Node K D) (t : Tree K D)
      → IsTreeAt bound t
      → get t.nodes id ≡ some n
      → Ends (Unlinks bound id) (unlink {K = K} {D = D} id n.parent_id t)
  unfolding unlink
  unlink-Ends bound id n t w found = elim (Option-cases (get t.nodes n.parent_id)) [
    | inl missing ↦ rw missing (w, λ r. cc)
    | inr (p, above) ↦ elim (Option-cases (key_of id p.children)) [
      | inl unnamed ↦ rw (above, unnamed) (w, λ r. cc)
      | inr (key, named) ↦
          let p' : Node K D = record p { children = remove p.children key } in
          let links = w.tree.linked n.parent_id p above in
          rw (above, named)
            (
              record {
                tree =
                    put-IsTree t n.parent_id p p' above w.tree refl
                      (AreLinks-remove t n.parent_id p.children key links);
                next_id = w.next_id;
                kept = bound.unlinked t n.parent_id p key above w.kept;
              },
              λ _ _ i m h. elim (put-cases t n.parent_id p p' above i m h) [
                | inl (_, new) ↦
                    subst (λ (m : Node K D). All (λ b. b.1 ≢ id) m.children) new
                      (remove-key_of p.children id key links.1 named)
                | inr (other, old) ↦ named_parent t id i n m w.tree found old other
              ],
            )
    ]
  ]

  delete_node_from_parent-Ends :
      (bound : Frame K D R) (id : ℕ) (t : Tree K D)
      → IsTreeAt bound t
      → Ends (Unlinks bound id) (delete_node_from_parent {K = K} {D = D} id t)
  unfolding delete_node_from_parent
  delete_node_from_parent-Ends bound id t w = elim (Bool-cases (id == root_id)) [
    | inl root ↦ rw root (w, λ _ other. absurd (other (ground arith)))
    | inr other ↦ elim (Option-cases (get t.nodes id)) [
      | inl missing ↦ rw (other, missing) (w, λ r. cc)
      | inr (n, found) ↦ elim (Bool-cases (n.parent_id == no_parent)) [
        | inl orphan ↦
            rw (other, found, orphan)
              (
                w,
                λ _ _ i m h.
                    named_parent t id i n m w.tree found h
                      (λ q. ground (arith, w.tree.bounded i m h)),
              )
        | inr child ↦ rw (other, found, child) (unlink-Ends bound id n t w found)
      ]
    ]
  ]

  -- Unlinking and then taking out.
  delete-Keeps :
      (bound : Frame K D R) (id : ℕ) (t : Tree K D)
      → IsTreeAt bound t
      → id ≢ root_id
      → Keeps (IsTreeAt bound) ((delete_node_from_parent id >> modify (forget id)) t)
  delete-Keeps bound id t w other =
      Ends-next (Unlinks bound id) (λ _ s. IsTreeAt bound s) (delete_node_from_parent id t)
        (λ _. modify (forget id)) (delete_node_from_parent-Ends bound id t w)
        (λ _ s (w', alone). record {
          tree = forget-IsTree s id w'.tree other (alone refl other);
          next_id = w'.next_id;
          kept = bound.forgotten s id w'.kept;
        })
        (λ _ s (w', _). w')

  -- Unlinking, and then taking out a node that is there.
  take-Keeps :
      (bound : Frame K D R) (id : ℕ) (t : Tree K D)
      → IsTreeAt bound t
      → IsHeld id t
      → id ≢ root_id
      → Keeps (IsTreeAt bound) ((delete_node_from_parent id >> take_node id) t)
  take-Keeps bound id t w held other =
      Ends-next (λ r s. Unlinks bound id r s × IsHeld id s) (λ _ s. IsTreeAt bound s)
        (delete_node_from_parent id t) (λ _. take_node id)
        (Ends-and (Unlinks bound id) (λ _ s. IsHeld id s) (delete_node_from_parent id t)
          (delete_node_from_parent-Ends bound id t w) (delete_node_from_parent-IsHeld id t held))
        (λ _ s ((w', alone), (n, there)).
          subst (Keeps (IsTreeAt bound)) (sym (take_node-held id s (n, there))) (record {
            tree = forget-IsTree s id w'.tree other (alone refl other);
            next_id = w'.next_id;
            kept = bound.forgotten s id w'.kept;
          }))
        (λ _ s ((w', _), _). w')

  pub delete_node-Keeps :
      (bound : Frame K D R) (id : ℕ) (t : Tree K D)
      → IsTreeAt bound t
      → Keeps (IsTreeAt bound) (delete_node {K = K} id t)
  unfolding delete_node
  delete_node-Keeps bound id t w = elim (Option-cases (get t.nodes id)) [
    | inl missing ↦ rw missing w
    | inr (n, found) ↦ elim (Bool-cases (id == root_id || not (is_empty n.children))) [
      | inl busy ↦ rw (found, busy) w
      | inr free ↦ rw (found, free) (take-Keeps bound id t w (n, found) (λ q. ground arith))
    ]
  ]

  delete_subtree_within-Keeps :
      (bound : Frame K D R) (fuel id : ℕ) (t : Tree K D)
      → 0 < fuel
      → bound.limit ≤ fuel + id
      → IsTreeAt bound t
      → Keeps (IsTreeAt bound) (delete_subtree_within {K = K} fuel id t)
  unfolding delete_subtree_within
  delete_subtree_within-Keeps bound zero id t more enough w = absurd (omega arith)
  delete_subtree_within-Keeps bound (suc fuel) id t more enough w =
      elim (Option-cases (get t.nodes id)) [
        | inl missing ↦ rw missing w
        | inr (n, found) ↦ rw found (
            Ends-next (λ _ s. IsTreeAt bound s) (λ _ s. IsTreeAt bound s)
              (for_each (delete_subtree_within {K = K} fuel) (values n.children) t)
              (λ _.
                delete_node_from_parent id
                >> (if not (id == root_id) then modify (forget id) else pure tt))
              (for_children-Keeps bound id n t w found (delete_subtree_within {K = K} fuel)
                (λ c later before s.
                  delete_subtree_within-Keeps bound fuel c s (omega arith) (omega arith)))
              (λ _ s w'. take_out-Keeps s w') (λ _ _ w'. w'))
      ]
    where
      take_out-Keeps :
          (s : Tree K D)
          → IsTreeAt bound s
          → Keeps (IsTreeAt bound) (
              (delete_node_from_parent id
                  >> (if not (id == root_id) then modify (forget id) else pure tt))
                s)
      take_out-Keeps s w' = elim (Bool-cases (id == root_id)) [
        | inr other ↦ rw other (delete-Keeps bound id s w' (λ q. ground arith))
        | inl root ↦ rw root (
            Ends-next (Unlinks bound id) (λ _ s. IsTreeAt bound s) (delete_node_from_parent id s)
              (λ _. pure tt) (delete_node_from_parent-Ends bound id s w') (λ _ _ (kept, _). kept)
              (λ _ _ (kept, _). kept))
      ]

  pub delete_subtree-Keeps :
      (bound : Frame K D R) (id : ℕ) (t : Tree K D)
      → IsTreeAt bound t
      → Keeps (IsTreeAt bound) (delete_subtree {K = K} id t)
  unfolding delete_subtree
  delete_subtree-Keeps bound id t w =
      delete_subtree_within-Keeps bound t.node_id id t (omega (arith, w.tree.counter))
        (omega (arith, w.next_id)) w
