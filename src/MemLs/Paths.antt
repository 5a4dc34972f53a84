-- ===== src/MemLs/Paths.antt =====
-- src/memls.rs: the walks along a path return, and what they return is a node of the tree.
use dav_server_rs.Common.{
  ℕ, ◌≡◌, refl, sym, subst, Bool, true, false, Option, some, List, [], ◌∷◌, Result, ok, Bytes, ◌==◌,
  nat_eq, list_eq, arith, inl, inr, Bool-cases, Option-cases, Result-cases, is_empty, any,
}
use dav_server_rs.Common.Dict.{get}
use dav_server_rs.Fs.{FsError}
use dav_server_rs.Ls.{DavLock}
use dav_server_rs.Tree
use dav_server_rs.Tree.{Node, get_node, set_node, get_children, add_child, root_id, find, put}
use dav_server_rs.MemLs.Exclusion.{IsExclusive, IsLocksAt}
use dav_server_rs.Tree.Ends.{Ends}
use dav_server_rs.Tree.Shape.{IsTree, IsLink}
use dav_server_rs.Tree.Monad.{Action, pure, reads, unwrap, ◌>>=◌}
use dav_server_rs.MemLs.{lookup_lock_from, update_node}
use dav_server_rs.MemLs.Pruning.{unwrap-set_node}
use dav_server_rs.MemLs.Room.{All-get}
use dav_server_rs.MemLs.Walk.{Locks, get_child}

module _ {Element : Type 0} where
  -- The node is there.
  abbrev pub IsPresent : ℕ → Locks Element → Type 0
  IsPresent id t = (n : Node Bytes (List (DavLock Element))) × (get t.nodes id ≡ some n)

  pub child-IsPresent :
      (t : Locks Element) (id : ℕ) (seg : Bytes) (c : ℕ)
      → IsTree t
      → Tree.get_child id seg t ≡ ok c
      → IsPresent c t
  unfolding Tree.get_child
  child-IsPresent t id seg c w e = elim (Option-cases (get t.nodes id)) [
    | inl missing ↦ absurd (ground arith)
    | inr (n, found) ↦
        let l = All-get (IsLink t id) n.children seg c (w.linked id n found).0 (ground arith) in
        (l.node, l.present)
  ]

  get_child-IsPresent :
      (t : Locks Element) (id : ℕ) (seg : Bytes) (c : ℕ)
      → IsTree t
      → IsPresent id t
      → get_child id seg t ≡ ok c
      → IsPresent c t
  unfolding get_child
  get_child-IsPresent t id seg c w here e = elim (Bool-cases (is_empty seg)) [
    | inl same ↦ subst (λ c. IsPresent c t) {x = id} (ground arith) here
    | inr other ↦ child-IsPresent t id seg c w (rw other at e)
  ]

  pub content_of :
      (t : Locks Element) (id : ℕ) (here : IsPresent id t) → get_node id t ≡ ok here.0.content
  unfolding get_node
  content_of t id (n, found) = rw (found, get_node) refl

  pub children_of :
      (t : Locks Element) (id : ℕ) (here : IsPresent id t) → get_children id t ≡ ok here.0.children
  unfolding get_children
  children_of t id (n, found) = rw (found, get_children) refl

module _ {Element : Type 0} (E : Type 0) where
  -- A node that is there is read without a panic.
  pub read_node :
      {A : Type 0} (t : Locks Element) (id : ℕ) (content : List (DavLock Element))
      (f : List (DavLock Element) → Action (Locks Element) E A)
      → get_node id t ≡ ok content
      → (unwrap (reads {E = FsError} (get_node id)) >>= f) t ≡ f content t
  read_node t id content f e = rw (e, unwrap) refl

  -- Finding a lock changes nothing, and what is found is a node with the lock.
  abbrev pub Finds : Locks Element → Bytes → Result (Option ℕ) E → Locks Element → Type 0
  Finds t token r s =
      (s ≡ t)
      × ((id : ℕ)
          → r ≡ ok (some id)
          → (here : IsPresent id t) × (any (λ l. l.token == token) here.0.content ≡ true))

  pub lookup_lock_from-Ends :
      (t : Locks Element) (token : Bytes) (id : ℕ) (segs : List Bytes)
      → IsTree t
      → IsPresent id t
      → Ends (Finds t token) (lookup_lock_from {E = E} token id segs t)
  unfolding lookup_lock_from
  lookup_lock_from-Ends t token id [] w here = (refl, λ id e. absurd (ground arith))
  lookup_lock_from-Ends t token id (seg ∷ segs) w here = elim (Result-cases (get_child id seg t)) [
    | inr (fault, e) ↦ rw (e, lookup_lock_from) (refl, λ id e. absurd (ground arith))
    | inl (c, e) ↦
        let (n, found) = get_child-IsPresent t id seg c w here e in
        rw (e, lookup_lock_from)
          (subst (Ends (Finds t token))
            (sym (read_node t c n.content (visit c) (content_of t c (n, found))))
            (visit-Ends c (n, found) (lookup_lock_from-Ends t token c segs w (n, found))))
  ]
    where
      visit : ℕ → List (DavLock Element) → Action (Locks Element) E (Option ℕ)
      visit c node = elim (any (λ l. l.token == token) node) [
        | true ↦ pure (some c)
        | false ↦ lookup_lock_from token c segs
      ]

      visit-Ends :
          (c : ℕ) (here : IsPresent c t)
          → Ends (Finds t token) (lookup_lock_from {E = E} token c segs t)
          → Ends (Finds t token) (visit c here.0.content t)
      visit-Ends c (n, found) deeper =
          let decide : Bool → Action (Locks Element) E (Option ℕ) =
            λ held. elim held [ true ↦ pure (some c) | false ↦ lookup_lock_from token c segs ] in
          elim (Bool-cases (any (λ l. l.token == token) n.content)) [
            | inr other ↦ subst (λ held. Ends (Finds t token) (decide held t)) (sym other) deeper
            | inl held ↦
                subst (λ held. Ends (Finds t token) (decide held t)) (sym held)
                  (
                    refl,
                    λ id' e'.
                        subst
                          (λ c.
                            (here : IsPresent c t) × (any (λ l. l.token == token) here.0.content
                              ≡ true))
                          {x = c} (ground arith) ((n, found), held),
                  )
          ]

  pub update_node-Ends :
      (bound id : ℕ) (f : List (DavLock Element) → List (DavLock Element)) (t : Locks Element)
      → IsLocksAt bound t
      → (here : IsPresent id t)
      → IsExclusive (put id (record here.0 { content = f here.0.content }) t)
      → Ends
          (λ r s. IsLocksAt bound s × (r ≡ ok tt) × (get_node id s ≡ ok (f here.0.content)))
          (update_node {E = E} id f t)
  unfolding update_node
  update_node-Ends bound id f t w (n, found) keeps =
      subst (Ends (λ r s. IsLocksAt bound s × (r ≡ ok tt) × (get_node id s ≡ ok (f n.content))))
        (sym (
          read_node t id n.content (λ node. unwrap (set_node {K = Bytes} id (f node)))
            (content_of t id (n, found))))
        (unwrap-set_node E bound id (f n.content) n t w found keeps)

  pub stored-IsPresent :
      (t : Locks Element) (id : ℕ) (content : List (DavLock Element))
      → get_node id t ≡ ok content
      → IsPresent id t
  unfolding get_node
  stored-IsPresent t id content e = elim (Option-cases (get t.nodes id)) [
    | inl missing ↦ absurd (ground arith)
    | inr there ↦ there
  ]
