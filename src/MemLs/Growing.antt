-- ===== src/MemLs/Growing.antt =====
-- src/memls.rs: a node that is created for a path excludes nothing.
use dav_server_rs.Common.{
  ℕ, ◌≤◌, ◌≡◌, ◌≢◌, refl, sym, ap, subst, ◌∙◌, none, some, List, [], ◌∷◌, ok, err, Bytes, arith,
  nat_eq, list_eq, inl, inr, ◌⊎◌, length, Option-cases, ◌==◌, Bool-cases, if◌then◌else◌,
}
use dav_server_rs.Common.Dict.{Dict, get, insert, get-insert}
use dav_server_rs.Fs.{FsError}
use dav_server_rs.Ls.{DavLock}
use dav_server_rs.MemLs.Exclusion.{
  HasChild, Leads, stop, down, IsAbove, AreAlike, AreCompatible, IsExclusive,
}
use dav_server_rs.MemLs.Walk.{Locks}
use dav_server_rs.Tree
use dav_server_rs.Tree.{Node, root_id, add_child}
use dav_server_rs.Tree.Adding.{with_child, leaf}

get_nil : (m : Dict Bytes ℕ) (k : Bytes) → m ≡ [] → get m k ≡ none
unfolding get
get_nil [] k h = refl
get_nil (b ∷ m) k h = absurd (ground arith)

module _ {Element : Type 0} where
  pub absent :
      (t : Locks Element) (id : ℕ) (seg : Bytes) (n : Node Bytes (List (DavLock Element)))
      (fault : FsError)
      → get t.nodes id ≡ some n
      → Tree.get_child id seg t ≡ err fault
      → get n.children seg ≡ none
  unfolding Tree.get_child
  absent t id seg n fault found e = elim (Option-cases (get n.children seg)) [
    | inl free ↦ free
    | inr (c, taken) ↦ absurd (ground arith)
  ]

  pub linked_child :
      (t : Locks Element) (id : ℕ) (seg : Bytes) (n : Node Bytes (List (DavLock Element))) (c : ℕ)
      → get t.nodes id ≡ some n
      → Tree.get_child id seg t ≡ ok c
      → get n.children seg ≡ some c
  unfolding Tree.get_child
  linked_child t id seg n c found e = elim (Option-cases (get n.children seg)) [
    | inl free ↦ absurd (ground arith)
    | inr (c', taken) ↦ ground arith
  ]

  -- A node that is new in a tree: empty, without children, and linked from one node.
  pub record IsGrown (t : Locks Element) (parent c : ℕ) (t' : Locks Element) : Type 0 where
    pub new : Node Bytes (List (DavLock Element))
    pub present : get t'.nodes c ≡ some new
    pub unlocked : new.content ≡ []
    pub childless : new.children ≡ []
    pub old :
        (i : ℕ) (n' : Node Bytes (List (DavLock Element)))
        → i ≢ c
        → get t'.nodes i ≡ some n'
        → (n : Node Bytes (List (DavLock Element))) × (get t.nodes i ≡ some n)
          × (n'.content ≡ n.content)
    pub links : (i k : ℕ) → HasChild t' i k → ((i ≡ parent) × (k ≡ c)) ⊎ HasChild t i k

  pub with_child-IsGrown :
      (t : Locks Element) (parent : ℕ) (p : Node Bytes (List (DavLock Element))) (key : Bytes)
      → get t.nodes parent ≡ some p
      → parent ≢ t.node_id
      → IsGrown t parent t.node_id (with_child t parent p key [])
  with_child-IsGrown t parent p key found apart = record {
    new = child;
    present = ground (arith, at t.node_id, before t.node_id);
    unlocked = refl;
    childless = refl;
    old = λ i n' other there. elim (cases i n' there) [
      | inl (here, e) ↦ (
        p,
        subst (λ i. get t.nodes i ≡ some p) here found,
        ap (λ (n : Node Bytes (List (DavLock Element))). n.content) (sym e),
      )
      | inr (inl (here, _)) ↦ absurd (other (sym here))
      | inr (inr kept) ↦ (n', kept, refl)
    ];
    links = λ i k (n', key', there, linked). elim (cases i n' there) [
      | inl (here, e) ↦
          let linked' : get (insert p.children key t.node_id) key' ≡ some k =
            subst (λ (n : Node Bytes (List (DavLock Element))). get n.children key' ≡ some k)
              (sym e) linked in
          elim (Bool-cases (key == key')) [
            | inl same ↦ inl (sym here, ground (arith, get-insert p.children key key' t.node_id))
            | inr apart' ↦ inr (
              p,
              key',
              subst (λ i. get t.nodes i ≡ some p) here found,
              ground (arith, get-insert p.children key key' t.node_id),
            )
          ]
      | inr (inl (_, e)) ↦ absurd (
          ground (
            arith,
            get_nil n'.children key'
                (ap (λ (n : Node Bytes (List (DavLock Element))). n.children) (sym e)),
          ))
      | inr (inr kept) ↦ inr (n', key', kept, linked)
    ];
  }
    where
      child : Node Bytes (List (DavLock Element))
      child = leaf t.node_id parent []

      new_parent : Node Bytes (List (DavLock Element))
      new_parent = record p { children = insert p.children key t.node_id }

      at :
          (j : ℕ)
          → get (with_child t parent p key []).nodes j
            ≡ (if parent == j then some new_parent else get (insert t.nodes t.node_id child) j)
      at j = get-insert (insert t.nodes t.node_id child) parent j new_parent

      before :
          (j : ℕ)
          → get (insert t.nodes t.node_id child) j
            ≡ (if t.node_id == j then some child else get t.nodes j)
      before j = get-insert t.nodes t.node_id j child

      cases :
          (j : ℕ) (m : Node Bytes (List (DavLock Element)))
          → get (with_child t parent p key []).nodes j ≡ some m
          → ((parent ≡ j) × (new_parent ≡ m))
            ⊎ (((t.node_id ≡ j) × (child ≡ m)) ⊎ (get t.nodes j ≡ some m))
      cases j m h = elim (Bool-cases (parent == j)) [
        | inl here ↦ inl (ground arith, ground (arith, at j))
        | inr other ↦ elim (Bool-cases (t.node_id == j)) [
          | inl here ↦ inr (inl (ground arith, ground (arith, at j, before j)))
          | inr other' ↦ inr (inr (ground (arith, at j, before j)))
        ]
      ]

  pub Leads-last : (t : Locks Element) (i j : ℕ) → Leads t i j → (i ≡ j) ⊎ IsAbove t i j
  Leads-last t i _ stop = inl refl
  Leads-last t i _ (down {j = j} way link) = inr (j, way, link)

  compatible_nil : (above : List (DavLock Element)) → AreCompatible above []
  compatible_nil [] = tt
  compatible_nil (l ∷ above) = (λ _. tt, compatible_nil above)

  module _ (t t' : Locks Element) (parent c : ℕ) (grown : IsGrown t parent c t') where
    pub new_node :
        (n : Node Bytes (List (DavLock Element))) → get t'.nodes c ≡ some n → grown.new ≡ n
    new_node n found = let same : some grown.new ≡ some n = sym grown.present ∙ found in cc

    pub no_child : (k : ℕ) → HasChild t' c k → ⊥
    no_child k (n, key, found, linked) = absurd (
        ground (
          arith,
          get_nil n.children key (
              ap (λ (n : Node Bytes (List (DavLock Element))). n.children) (sym (new_node n found))
              ∙ grown.childless),
        ))

    Leads-grown : (i j : ℕ) → Leads t' i j → (j ≡ c) ⊎ Leads t i j
    Leads-grown i _ stop = inr stop
    Leads-grown i _ (down {j = j} {c = k} way link) = elim (Leads-grown i j way) [
      | inl at_leaf ↦ absurd (no_child k (subst (λ j. HasChild t' j k) at_leaf link))
      | inr way' ↦ elim (grown.links j k link) [
        | inl (_, new) ↦ inl new
        | inr link' ↦ inr (down way' link')
      ]
    ]

    -- Above the new node are its parent and what is above that.
    pub IsAbove-grown :
        (i j : ℕ) → IsAbove t' i j → ((j ≡ c) × ((i ≡ parent) ⊎ IsAbove t i parent)) ⊎ IsAbove t i j
    IsAbove-grown i j (k, way, link) = elim (Leads-grown i k way) [
      | inl at_leaf ↦ absurd (no_child j (subst (λ k. HasChild t' k j) at_leaf link))
      | inr way' ↦ elim (grown.links k j link) [
        | inl (here, new) ↦ inl (new, Leads-last t i parent (subst (Leads t i) here way'))
        | inr link' ↦ inr (k, way', link')
      ]
    ]

    pub content_cases :
        (i : ℕ) (n : Node Bytes (List (DavLock Element)))
        → get t'.nodes i ≡ some n
        → ((i ≡ c) × (n.content ≡ []))
          ⊎ ((i ≢ c)
              × (m : Node Bytes (List (DavLock Element))) × (get t.nodes i ≡ some m)
              × (n.content ≡ m.content))
    content_cases i n found = elim (Bool-cases (i == c)) [
      | inl here ↦
          let at_c : i ≡ c = ground arith in
          inl (
            at_c,
            ap (λ (n : Node Bytes (List (DavLock Element))). n.content)
                  (sym (new_node n (subst (λ i. get t'.nodes i ≡ some n) at_c found)))
                ∙ grown.unlocked,
          )
      | inr other ↦
          let apart : i ≢ c = λ q. ground arith in
          let (m, was, e) = grown.old i n apart found in inr (apart, m, was, e)
    ]

    pub grown-IsExclusive : IsExclusive t → IsExclusive t'
    grown-IsExclusive h = record {
      alike = λ i n found. elim (content_cases i n found) [
        | inl (_, empty) ↦
            inl (subst (λ (xs : List (DavLock Element)). length xs ≤ 1) (sym empty) (omega arith))
        | inr (_, m, was, e) ↦ subst AreAlike (sym e) (h.alike i m was)
      ];
      compatible = λ i j n m above found found'. elim (content_cases j m found') [
        | inl (_, empty) ↦ subst (AreCompatible n.content) (sym empty) (compatible_nil n.content)
        | inr (apart, m', was', e') ↦ elim (content_cases i n found) [
          | inl (_, empty) ↦ subst (λ xs. AreCompatible xs m.content) (sym empty) tt
          | inr (_, n', was, e) ↦ elim (IsAbove-grown i j above) [
            | inl (at_leaf, _) ↦ absurd (apart at_leaf)
            | inr above' ↦
                subst (λ xs. AreCompatible xs m.content) (sym e)
                  (subst (AreCompatible n'.content) (sym e')
                    (h.compatible i j n' m' above' was was'))
          ]
        ]
      ];
    }
