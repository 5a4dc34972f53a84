-- ===== src/Tree/Shape.antt =====
-- src/tree.rs: the shape of the tree, and the three changes that the operations are made of: a node
-- is written back, a node is taken out, and a node is added.
use dav_server_rs.Common.{
  ℕ, ◌<◌, ◌≡◌, ◌≢◌, sym, ap, subst, ◌∙◌, true, none, some, List, [], ◌∷◌, ◌==◌, nat_eq, arith, All,
  inl, inr, Bool-cases, Option-cases, if◌then◌else◌, ◌⊎◌,
}
use dav_server_rs.Common.Dict.{Dict, get, get-insert, get-remove}
use dav_server_rs.Tree.{Node, Tree, put, forget, root_id}

pub All-weaken {ℓ} :
    {A : Type ℓ} (P Q : A → Type 0) (xs : List A) → ((x : A) → P x → Q x) → All P xs → All Q xs
All-weaken P Q [] f h = tt
All-weaken P Q (x ∷ xs) f (p, h) = (f x p, All-weaken P Q xs f h)

All-zip {ℓ} :
    {A : Type ℓ} (P Q R : A → Type 0) (xs : List A)
    → ((x : A) → P x → Q x → R x)
    → All P xs
    → All Q xs
    → All R xs
All-zip P Q R [] f h k = tt
All-zip P Q R (x ∷ xs) f (p, h) (q, k) = (f x p q, All-zip P Q R xs f h k)

-- No node is linked twice.
abbrev pub AreDistinct {ℓ} : {K : Type ℓ} → Dict K ℕ → Type 0
AreDistinct [] = Unit
AreDistinct ((k, i) ∷ m) = All (λ b. b.1 ≢ i) m × AreDistinct m

module _ {K D : Type 0} where
  -- The link from a node to a child: the child comes later, and names the node as its parent.
  pub record IsLink (t : Tree K D) (parent child : ℕ) : Type 0 where
    pub later : parent < child
    pub node : Node K D
    pub present : get t.nodes child ≡ some node
    pub named : node.parent_id ≡ parent

  abbrev pub AreLinks : Tree K D → ℕ → Dict K ℕ → Type 0
  AreLinks t parent children = All (λ b. IsLink t parent b.1) children × AreDistinct children

  pub record IsTree (t : Tree K D) : Type 0 where
    pub counter : root_id < t.node_id
    pub root : Node K D
    pub rooted : get t.nodes root_id ≡ some root
    pub bounded : (i : ℕ) (n : Node K D) → get t.nodes i ≡ some n → (0 < i) × (i < t.node_id)
    pub linked : (i : ℕ) (n : Node K D) → get t.nodes i ≡ some n → AreLinks t i n.children

  pub AreLinks-weaken :
      (t t' : Tree K D) (parent : ℕ) (children : Dict K ℕ)
      → ((child : ℕ) → IsLink t parent child → IsLink t' parent child)
      → AreLinks t parent children
      → AreLinks t' parent children
  AreLinks-weaken t t' parent children f (links, distinct) = (
    All-weaken (λ b. IsLink t parent b.1) (λ b. IsLink t' parent b.1) children (λ b. f b.1) links,
    distinct,
  )

  module _ (t : Tree K D) (id : ℕ) (n n' : Node K D) (found : get t.nodes id ≡ some n) where
    get-put : (j : ℕ) → get (put id n' t).nodes j ≡ (if id == j then some n' else get t.nodes j)
    get-put j = get-insert t.nodes id j n'

    found_again : (j : ℕ) (m : Node K D) → (id == j) ≡ true → get t.nodes j ≡ some m → n ≡ m
    found_again j m here h =
        let same_id : id ≡ j = ground arith in
        let same_node : some n ≡ some m = sym found ∙ ap (get t.nodes) same_id ∙ h in cc

    IsLink-put :
        (same : n'.parent_id ≡ n.parent_id) (parent child : ℕ)
        → IsLink t parent child
        → IsLink (put id n' t) parent child
    IsLink-put same parent child l = elim (Bool-cases (id == child)) [
      | inl here ↦ record {
        later = l.later;
        node = n';
        present = ground (arith, get-put child);
        named =
            same
            ∙ ap (λ (m : Node K D). m.parent_id) (found_again child l.node here l.present)
            ∙ l.named;
      }
      | inr other ↦ record {
        later = l.later;
        node = l.node;
        present = ground (arith, get-put child, l.present);
        named = l.named;
      }
    ]

    pub put-cases :
        (j : ℕ) (m : Node K D)
        → get (put id n' t).nodes j ≡ some m
        → ((id ≡ j) × (n' ≡ m)) ⊎ ((id ≢ j) × (get t.nodes j ≡ some m))
    put-cases j m h = ground (arith, get-put j)

    -- A node with the same parent, and links of its own, is written back.
    pub put-IsTree :
        IsTree t → n'.parent_id ≡ n.parent_id → AreLinks t id n'.children → IsTree (put id n' t)
    put-IsTree w same links = record {
      counter = w.counter;
      root = (root_of w).0;
      rooted = (root_of w).1;
      bounded = λ i m h. elim (put-cases i m h) [
        | inl (here, _) ↦ subst (λ i. (0 < i) × (i < t.node_id)) here (w.bounded id n found)
        | inr (_, old) ↦ w.bounded i m old
      ];
      linked = λ i m h. elim (put-cases i m h) [
        | inl (here, e) ↦
            subst (λ (m : Node K D). AreLinks (put id n' t) i m.children) e
              (subst (λ i. AreLinks (put id n' t) i n'.children) here
                (AreLinks-weaken t (put id n' t) id n'.children (IsLink-put same id) links))
        | inr (_, old) ↦
            AreLinks-weaken t (put id n' t) i m.children (IsLink-put same i) (w.linked i m old)
      ];
    }
      where
        root_of : IsTree t → (r : Node K D) × (get (put id n' t).nodes root_id ≡ some r)
        root_of w = elim (Bool-cases (id == root_id)) [
          | inl here ↦ (n', ground (arith, get-put root_id))
          | inr other ↦ (w.root, ground (arith, get-put root_id, w.rooted))
        ]

  -- A node that nothing links to, other than the root, is taken out.
  pub forget-IsTree :
      (t : Tree K D) (id : ℕ)
      → IsTree t
      → id ≢ root_id
      → ((i : ℕ) (n : Node K D) → get t.nodes i ≡ some n → All (λ b. b.1 ≢ id) n.children)
      → IsTree (forget id t)
  forget-IsTree t id w other unlinked = record {
    counter = w.counter;
    root = w.root;
    rooted = ground (arith, get-remove t.nodes id root_id, w.rooted);
    bounded = λ i m h. w.bounded i m (old i m h);
    linked = λ i m h.
        let (links, distinct) = w.linked i m (old i m h) in
        (
          All-zip (λ b. IsLink t i b.1) (λ b. b.1 ≢ id) (λ b. IsLink (forget id t) i b.1) m.children
              (λ b l ne. record {
                later = l.later;
                node = l.node;
                present = ground (arith, get-remove t.nodes id b.1, l.present);
                named = l.named;
              })
              links (unlinked i m (old i m h)),
          distinct,
        );
  }
    where
      old : (i : ℕ) (m : Node K D) → get (forget id t).nodes i ≡ some m → get t.nodes i ≡ some m
      old i m h = ground (arith, get-remove t.nodes id i)

  -- The next identifier is free.
  pub fresh : (t : Tree K D) → IsTree t → get t.nodes t.node_id ≡ none
  fresh t w = elim (Option-cases (get t.nodes t.node_id)) [
    | inl free ↦ free
    | inr (n, taken) ↦ absurd (omega (arith, w.bounded t.node_id n taken))
  ]
