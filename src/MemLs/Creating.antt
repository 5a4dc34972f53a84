-- ===== src/MemLs/Creating.antt =====
-- src/memls.rs: the path that is created for a lock ends in a node with room for it.
use dav_server_rs.Common.{
  ℕ, ◌+◌, ◌≤◌, ◌<◌, ◌≡◌, ◌≢◌, refl, sym, ap, subst, ◌∙◌, Bool, false, Option, none, some, List, [],
  ◌∷◌, Result, ok, Bytes, arith, nat_eq, list_eq, inl, inr, length, u64_limit, Result-cases, All,
}
use dav_server_rs.Common.Dict.{get}
use dav_server_rs.Ls.{DavLock}
use dav_server_rs.MemLs.{create_from}
use dav_server_rs.MemLs.Exclusion.{HasChild, Leads, down, IsLocksAt}
use dav_server_rs.MemLs.Growing.{
  absent, linked_child, IsGrown, with_child-IsGrown, no_child, IsAbove-grown, content_cases,
  grown-IsExclusive, Leads-last, new_node,
}
use dav_server_rs.MemLs.Granting.{Leads-first}
use dav_server_rs.MemLs.Passing.{Passes}
use dav_server_rs.MemLs.Paths.{IsPresent, child-IsPresent}
use dav_server_rs.MemLs.Room.{
  Fits, FitsWhereDeep, HasRoom, AreFittingAbove, HasChild-unique, HasChild-IsLink,
}
use dav_server_rs.MemLs.Walk.{Locks}
use dav_server_rs.Tree
use dav_server_rs.Tree.{Node, root_id, add_child}
use dav_server_rs.Tree.Adding.{with_child, add_child-with_child}
use dav_server_rs.Tree.Ends.{Ends, Ends-weaken}
use dav_server_rs.Tree.Growth.{with_child-IsTree}
use dav_server_rs.Tree.Monad.{unwrap}
use dav_server_rs.Tree.Shape.{IsTree, fresh}

module _ {Element : Type 0} (shared deep : Bool) where
  -- Where nothing is locked, and no child is, the walk passes.
  new-Passes :
      (t t' : Locks Element) (parent c : ℕ) (segs : List Bytes)
      → IsGrown t parent c t'
      → Passes shared deep t' c segs
  new-Passes t t' parent c [] grown = (
    λ n found. fits n found,
    λ is_deep j m way there. elim (Leads-first t' c j way) [
      | inl here ↦ fits m (subst (λ j. get t'.nodes j ≡ some m) (sym here) there)
      | inr (k, link, _) ↦ absurd (no_child t t' parent c grown k link)
    ],
  )
    where
      fits :
          (n : Node Bytes (List (DavLock Element)))
          → get t'.nodes c ≡ some n
          → All (Fits shared deep) n.content
      fits n found =
          subst (All (Fits shared deep))
            (sym grown.unlocked
              ∙ ap (λ (n : Node Bytes (List (DavLock Element))). n.content)
                  (new_node t t' parent c grown n found))
            tt
  new-Passes t t' parent c (seg ∷ segs) grown = (
    λ n found.
        subst (All (FitsWhereDeep shared deep))
          (sym grown.unlocked
            ∙ ap (λ (n : Node Bytes (List (DavLock Element))). n.content)
                (new_node t t' parent c grown n found))
          tt,
    λ n k found linked. absurd (no_child t t' parent c grown k (n, seg, found, linked)),
  )

  -- The nodes above a child are its parent and the nodes above that.
  child-AreFittingAbove :
      (t : Locks Element) (id c : ℕ) (n : Node Bytes (List (DavLock Element)))
      → IsTree t
      → get t.nodes id ≡ some n
      → HasChild t id c
      → All (FitsWhereDeep shared deep) n.content
      → AreFittingAbove shared deep t id
      → AreFittingAbove shared deep t c
  child-AreFittingAbove t id c n w found link own above i m (k, way, link') there =
      let same : k ≡ id = HasChild-unique t k id c w link' link in
      elim (Leads-last t i id (subst (Leads t i) same way)) [
        | inr up ↦ above i m up there
        | inl here ↦
            let same : some n ≡ some m = sym found ∙ ap (get t.nodes) (sym here) ∙ there in
            let one : n ≡ m = cc in
            subst
              (λ (m : Node Bytes (List (DavLock Element))).
                All (FitsWhereDeep shared deep) m.content)
              one own
      ]

  grown-AreFittingAbove :
      (t t' : Locks Element) (id c : ℕ) (n : Node Bytes (List (DavLock Element)))
      → IsTree t
      → get t.nodes c ≡ none
      → IsGrown t id c t'
      → get t.nodes id ≡ some n
      → All (FitsWhereDeep shared deep) n.content
      → AreFittingAbove shared deep t id
      → AreFittingAbove shared deep t' c
  grown-AreFittingAbove t t' id c n w free grown found own above i m up there =
      elim (content_cases t t' id c grown i m there) [
        | inl (_, empty) ↦ subst (All (FitsWhereDeep shared deep)) (sym empty) tt
        | inr (_, m', was, e) ↦
            subst (All (FitsWhereDeep shared deep)) (sym e)
              (elim (IsAbove-grown t t' id c grown i c up) [
                | inl (_, inr up') ↦ above i m' up' was
                | inl (_, inl here) ↦
                    let same : some n ≡ some m' = sym found ∙ ap (get t.nodes) (sym here) ∙ was in
                    let one : n ≡ m' = cc in
                    subst
                      (λ (m : Node Bytes (List (DavLock Element))).
                        All (FitsWhereDeep shared deep) m.content)
                      one own
                | inr (k, _, link) ↦
                    let l = HasChild-IsLink t k c w link in absurd (ground (arith, l.present))
              ])
      ]

module _ {Element : Type 0} (E : Type 0) (shared deep : Bool) where
  -- A path that is created: its end has room for the lock, and no more identifiers are given than the
  -- path has names.
  abbrev pub Creates : ℕ → Result ℕ E → Locks Element → Type 0
  Creates most r s =
      (bound : ℕ) × (bound ≤ most)
      × IsLocksAt bound s
      × (id : ℕ) × (r ≡ ok id)
      × (n : Node Bytes (List (DavLock Element))) × (get s.nodes id ≡ some n)
      × HasRoom shared deep s id n

  Creates-weaken :
      (most most' : ℕ) (o : Option (Result ℕ E × Locks Element))
      → most ≤ most'
      → Ends (Creates most) o
      → Ends (Creates most') o
  Creates-weaken most most' o h = λ ends.
      Ends-weaken (Creates most) (Creates most') o ends
        (λ r s (b, le, w, id, e, n, found, room). (b, omega arith, w, id, e, n, found, room))

  pub create_from-Ends :
      (bound id : ℕ) (segs : List Bytes) (t : Locks Element)
      → IsLocksAt bound t
      → bound + length segs < u64_limit
      → IsPresent id t
      → AreFittingAbove shared deep t id
      → Passes shared deep t id segs
      → Ends (Creates (bound + length segs)) (create_from {E = E} id segs t)
  unfolding create_from
  create_from-Ends bound id [] t w small (n, found) above (own, below) = (
    bound,
    omega arith,
    w,
    id,
    refl,
    n,
    found,
    record {
      own = own n found;
      above = above;
      below = λ is_deep j m (k, way, link). below is_deep j m (down way link);
    },
  )
  create_from-Ends bound id (seg ∷ segs) t w small (n, found) above (own, rest) =
      elim (Result-cases (Tree.get_child id seg t)) [
        | inl (c, e) ↦
            let linked = linked_child t id seg n c found e in
            rw e (
              Creates-weaken (bound + length segs) (bound + length (seg ∷ segs))
                (create_from c segs t) (omega arith)
                (create_from-Ends bound c segs t w (omega arith)
                  (child-IsPresent t id seg c w.tree e)
                  (child-AreFittingAbove shared deep t id c n w.tree found (n, seg, found, linked)
                    (own n found) above)
                  (rest n c found linked)))
        | inr (fault, e) ↦
            let t' = with_child t id n seg [] in
            let apart : id ≢ t.node_id = λ q. omega (arith, w.tree.bounded id n found) in
            let free = absent t id seg n fault found e in
            let added = add_child-with_child t id n seg [] false apart (rw found refl) free in
            let small' : t.node_id + 1 < u64_limit = omega (arith, w.next_id) in
            let grown = with_child-IsGrown t id n seg found apart in
            let w' = with_child-IsTree t id n seg [] w.tree small' found in
            rw (e, added, unwrap)
              (Creates-weaken (bound + 1 + length segs) (bound + length (seg ∷ segs))
                (create_from t.node_id segs t') (omega arith)
                (create_from-Ends (bound + 1) t.node_id segs t'
                  (record {
                    tree = w';
                    next_id = omega (arith, w.next_id);
                    kept = grown-IsExclusive t t' id t.node_id grown w.kept;
                  })
                  (omega arith) (grown.new, grown.present)
                  (grown-AreFittingAbove shared deep t t' id t.node_id n w.tree (fresh t w.tree)
                    grown found (own n found) above)
                  (new-Passes shared deep t t' id t.node_id segs grown)))
      ]
