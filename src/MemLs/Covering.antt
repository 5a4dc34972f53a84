-- ===== src/MemLs/Covering.antt =====
-- src/memls.rs: the locks that cover a path, in a tree of locks that exclude one another.
use dav_server_rs.Common.{
  ℕ, suc, ◌+◌, ◌<◌, ◌≡◌, sym, subst, true, not, ◌&&◌, some, List, [], ◌∷◌, ◌++◌, ◌∙◌, false, Bytes,
  All, All-append, All-retain, append-nil, arith, nat_eq, list_eq, inl, inr, Result-cases, length,
  ltb, is_empty, false,
}
use dav_server_rs.Common.Dict.{get}
use dav_server_rs.DavPath.{DavPath}
use dav_server_rs.Ls.{DavLock}
use dav_server_rs.MemLs.Agreement.{list_from-append}
use dav_server_rs.MemLs.Granting.{lock_query}
use dav_server_rs.MemLs.Check.{list_from, list_locks}
use dav_server_rs.MemLs.Exclusion.{
  HasChild, Leads, stop, down, IsAbove, IsShared, AreAlike, IsExclusive, thin-AreAlike,
}
use dav_server_rs.MemLs.Growing.{linked_child}
use dav_server_rs.MemLs.Passing.{covered, list_locks_from_root, path_to_segs-nonempty}
use dav_server_rs.MemLs.Paths.{content_of}
use dav_server_rs.MemLs.Room.{HasChild-IsLink}
use dav_server_rs.MemLs.Thinning.{retain-IsThinned}
use dav_server_rs.MemLs.Walk.{Locks, path_to_segs, get_child}
use dav_server_rs.Tree
use dav_server_rs.Tree.{Node, root_id}
use dav_server_rs.Tree.Shape.{IsTree, All-weaken}

module _ {Element : Type 0} where
  -- Each lock of the one list is shared, and so is each lock of the other.
  abbrev ArePairs : List (DavLock Element) → List (DavLock Element) → Type 0
  ArePairs xs ys = All (λ x. All (λ y. IsShared x × IsShared y) ys) xs

  append-AreAlike :
      (xs ys : List (DavLock Element))
      → AreAlike xs
      → AreAlike ys
      → ArePairs xs ys
      → AreAlike (xs ++ ys)
  append-AreAlike [] ys h k pairs = k
  append-AreAlike (x ∷ xs) [] h k pairs = subst AreAlike (sym (append-nil (x ∷ xs))) h
  append-AreAlike (x ∷ xs) (y ∷ ys) h k (p, pairs) = inr (
      All-append IsShared (x ∷ xs) (y ∷ ys)
        (
          p.0.0,
          All-weaken (λ x. All (λ y. IsShared x × IsShared y) (y ∷ ys)) IsShared xs (λ _ q. q.0.0)
              pairs,
        )
        (All-weaken (λ y. IsShared x × IsShared y) IsShared (y ∷ ys) (λ _ q. q.1) p))

  -- Everything below a node agrees with the locks.
  abbrev ArePairsBelow : List (DavLock Element) → Locks Element → ℕ → Type 0
  ArePairsBelow locks t id =
      (j : ℕ) (m : Node Bytes (List (DavLock Element)))
      → IsAbove t id j
      → get t.nodes j ≡ some m
      → ArePairs locks m.content

  Leads-cons : (t : Locks Element) (i c j : ℕ) → HasChild t i c → Leads t c j → Leads t i j
  Leads-cons t i c _ link stop = down stop link
  Leads-cons t i c _ link (down {j = k} way last) = down (Leads-cons t i c k link way) last

  -- The deep locks of a node, below it.
  kept_pairs :
      (last_seg : ℕ) (t : Locks Element) (i id : ℕ) (n : Node Bytes (List (DavLock Element)))
      → IsExclusive t
      → get t.nodes id ≡ some n
      → i < last_seg
      → ArePairsBelow (covered i last_seg n.content) t id
  kept_pairs last_seg t i id n h found before j m up there =
      All-retain (λ lock. not (ltb i last_seg && not lock.deep))
        (λ x. All (λ y. IsShared x × IsShared y) m.content) n.content
        (All-weaken (λ x. x.deep ≡ true → All (λ y. IsShared x × IsShared y) m.content)
          (λ x.
            not (ltb i last_seg && not x.deep) ≡ true
            → All (λ y. IsShared x × IsShared y) m.content)
          n.content (λ x q covers. q (ground arith)) (h.compatible id j n m up found there))

  list_from-AreAlike :
      (last_seg : ℕ) (t : Locks Element) (i id : ℕ) (locks : List (DavLock Element))
      (segs : List Bytes) (n : Node Bytes (List (DavLock Element)))
      → IsTree t
      → IsExclusive t
      → All (λ s. is_empty s ≡ false) segs
      → i + length segs ≡ last_seg
      → get t.nodes id ≡ some n
      → AreAlike locks
      → (0 < length segs → ArePairsBelow locks t id)
      → AreAlike (list_from last_seg t (suc i) id locks segs)
  unfolding list_from get_child
  list_from-AreAlike last_seg t i id locks [] n w h named at found alike below = alike
  list_from-AreAlike last_seg t i id locks (seg ∷ segs) n w h (is_named, named) at found alike
        below =
      elim (Result-cases (Tree.get_child id seg t)) [
        | inr (fault, e) ↦ rw (is_named, e, list_from, get_child) alike
        | inl (c, e) ↦
            let link : HasChild t id c = (n, seg, found, linked_child t id seg n c found e) in
            let l = HasChild-IsLink t id c w link in
            let kept = covered (suc i) last_seg l.node.content in
            let under = below (omega arith) c l.node (id, stop, link) l.present in
            rw (is_named, e, content_of t c (l.node, l.present), list_from, get_child)
              (list_from-AreAlike last_seg t (suc i) c (locks ++ kept) segs l.node w h named
                (omega arith) l.present
                (append-AreAlike locks kept alike
                  (thin-AreAlike
                    (retain-IsThinned (λ lock. not (ltb (suc i) last_seg && not lock.deep))
                      l.node.content)
                    (h.alike c l.node l.present))
                  (All-weaken (λ x. All (λ y. IsShared x × IsShared y) l.node.content)
                    (λ x. All (λ y. IsShared x × IsShared y) kept) locks
                    (λ x q.
                      All-retain (λ lock. not (ltb (suc i) last_seg && not lock.deep))
                        (λ y. IsShared x × IsShared y) l.node.content
                        (All-weaken (λ y. IsShared x × IsShared y) _ l.node.content (λ y p _. p) q))
                    under))
                (λ more j m (k, way, last) there.
                  All-append (λ x. All (λ y. IsShared x × IsShared y) m.content) locks kept
                    (below (omega arith) j m (k, Leads-cons t id c k link way, last) there)
                    (kept_pairs last_seg t (suc i) c l.node h l.present (omega arith) j m
                      (k, way, last) there)))
      ]

  -- Of the locks that cover a path there is at most one, or all are shared.
  pub list_locks-AreAlike :
      (path : DavPath) (t : Locks Element) → IsTree t → IsExclusive t → AreAlike (list_locks path t)
  list_locks-AreAlike path t w h =
      let segs = path_to_segs path false in
      let own = covered 0 (length segs) w.root.content in
      subst AreAlike
        (list_from-append (lock_query false) (length segs) t 1 root_id own segs
          ∙ sym (list_locks_from_root path t w.root w.rooted))
        (list_from-AreAlike (length segs) t 0 root_id own segs w.root w h
          (path_to_segs-nonempty path) (omega arith) w.rooted
          (thin-AreAlike
            (retain-IsThinned (λ lock. not (ltb 0 (length segs) && not lock.deep)) w.root.content)
            (h.alike root_id w.root w.rooted))
          (λ more j m up there.
            kept_pairs (length segs) t 0 root_id w.root h w.rooted (omega arith) j m up there))
