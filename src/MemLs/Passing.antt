-- ===== src/MemLs/Passing.antt =====
-- src/memls.rs: where both checks of `lock` pass, its path has room for the lock.
use dav_server_rs.Common.{
  ℕ, suc, ◌+◌, ◌-◌, ◌≡◌, refl, sym, ap, subst, ◌∙◌, Bool, true, false, not, ◌&&◌, some, List, [],
  ◌∷◌, ◌++◌, Result, ok, err, Bytes, All, All-append_inv, retain-All, All-retain_inv, arith, nat_eq,
  list_eq, option_eq, length, ltb, is_empty, split_on, retain,
}
use dav_server_rs.Common.Dict.{get}
use dav_server_rs.DavPath.{DavPath, as_bytes, segments}
use dav_server_rs.Fs.{FsError}
use dav_server_rs.Ls.{DavLock}
use dav_server_rs.MemLs.Agreement.{check_locks_to_path-eq-verdict, list_from-append}
use dav_server_rs.MemLs.Check.{check_locks_to_path, list_from, list_locks}
use dav_server_rs.MemLs.Granting.{lock_query, verdict-Fits, AreFittingFrom}
use dav_server_rs.MemLs.Paths.{content_of}
use dav_server_rs.MemLs.Room.{Fits, FitsWhereDeep, HasChild-IsLink}
use dav_server_rs.MemLs.Walk.{Locks, path_to_segs, get_child, lookup_from, lookup_node}
use dav_server_rs.Tree
use dav_server_rs.Tree.{Node, get_node, root_id}
use dav_server_rs.Tree.Shape.{IsTree, All-weaken}

-- No segment of a path is empty.
pub path_to_segs-nonempty :
    (path : DavPath) → All (λ s. is_empty s ≡ false) (path_to_segs path false)
unfolding path_to_segs segments
path_to_segs-nonempty path =
    All-weaken (λ s. not (is_empty s) ≡ true) (λ s. is_empty s ≡ false) (segments (as_bytes path))
      (λ s h. ground arith)
      (retain-All (λ (s : Bytes). not (is_empty s)) (split_on b'/' (as_bytes path)))

module _ {Element : Type 0} where
  abbrev pub covered : ℕ → ℕ → List (DavLock Element) → List (DavLock Element)
  covered i last_seg content = retain (λ lock. not (ltb i last_seg && not lock.deep)) content

  tree_child :
      (t : Locks Element) (id : ℕ) (n : Node Bytes (List (DavLock Element))) (seg : Bytes) (c : ℕ)
      → get t.nodes id ≡ some n
      → get n.children seg ≡ some c
      → Tree.get_child id seg t ≡ ok c
  unfolding Tree.get_child
  tree_child t id n seg c found linked = rw (found, linked, Tree.get_child) refl

  walk_child :
      (t : Locks Element) (id : ℕ) (n : Node Bytes (List (DavLock Element))) (seg : Bytes) (c : ℕ)
      → is_empty seg ≡ false
      → get t.nodes id ≡ some n
      → get n.children seg ≡ some c
      → get_child id seg t ≡ ok c
  unfolding get_child
  walk_child t id n seg c named found linked = rw named (tree_child t id n seg c found linked)

  pub list_locks_from_root :
      (path : DavPath) (t : Locks Element) (root : Node Bytes (List (DavLock Element)))
      → get t.nodes root_id ≡ some root
      → list_locks path t
        ≡ covered 0 (length (path_to_segs path false)) root.content
          ++ list_from (length (path_to_segs path false)) t 1 root_id [] (path_to_segs path false)
  unfolding list_locks path_to_segs list_from get_child
  list_locks_from_root path t root rooted =
      let segs = segments (as_bytes path) in
      let one_less : suc (length segs) - 1 ≡ length segs = omega arith in
      ap (λ last. list_from last t 0 root_id [] ([] ∷ segs)) one_less
      ∙ ap
          (λ (content : Result (List (DavLock Element)) FsError). elim content [
            | err _ ↦ []
            | ok node ↦ list_from (length segs) t 1 root_id (covered 0 (length segs) node) segs
          ])
          (content_of t root_id (root, rooted))
      ∙ list_from-append (lock_query false) (length segs) t 1 root_id
          (covered 0 (length segs) root.content) segs

module _ {Element : Type 0} (shared deep : Bool) where
  -- The locks that a walk meets, from the locks of a node down, are no obstacle.
  abbrev pub Passes : Locks Element → ℕ → List Bytes → Type 0
  Passes t id [] =
      ((n : Node Bytes (List (DavLock Element)))
        → get t.nodes id ≡ some n
        → All (Fits shared deep) n.content)
      × (deep ≡ true → AreFittingFrom shared deep t id)
  Passes t id (seg ∷ segs) =
      ((n : Node Bytes (List (DavLock Element)))
        → get t.nodes id ≡ some n
        → All (FitsWhereDeep shared deep) n.content)
      × ((n : Node Bytes (List (DavLock Element))) (c : ℕ)
          → get t.nodes id ≡ some n
          → get n.children seg ≡ some c
          → Passes t c segs)

  list_from-Passes :
      (last_seg : ℕ) (t : Locks Element) (i id : ℕ) (n : Node Bytes (List (DavLock Element)))
      (segs : List Bytes)
      → IsTree t
      → All (λ s. is_empty s ≡ false) segs
      → i + length segs ≡ last_seg
      → get t.nodes id ≡ some n
      → All
          (Fits shared deep)
          (covered i last_seg n.content ++ list_from last_seg t (suc i) id [] segs)
      → (deep ≡ true
          → (id' : ℕ) → lookup_from id segs t ≡ some id'
          → AreFittingFrom shared deep t id')
      → Passes t id segs
  unfolding list_from lookup_from
  list_from-Passes last_seg t i id n [] w named at found fits below = (
    λ n' found'.
        let same : some n ≡ some n' = sym found ∙ found' in
        let one : n ≡ n' = cc in
        subst (λ (n : Node Bytes (List (DavLock Element))). All (Fits shared deep) n.content) one
          (All-weaken _ (Fits shared deep) n.content (λ l f. f (ground arith))
            (All-retain_inv (λ lock. not (ltb i last_seg && not lock.deep)) (Fits shared deep)
              n.content
              (All-append_inv (Fits shared deep) (covered i last_seg n.content) [] fits).0)),
    λ is_deep. below is_deep id refl,
  )
  list_from-Passes last_seg t i id n (seg ∷ segs) w (is_named, named) at found fits below =
      let (own, rest) = All-append_inv (Fits shared deep) (covered i last_seg n.content) _ fits in
      (
        λ n' found'.
            let same : some n ≡ some n' = sym found ∙ found' in
            let one : n ≡ n' = cc in
            subst
              (λ (n : Node Bytes (List (DavLock Element))).
                All (FitsWhereDeep shared deep) n.content)
              one
              (All-weaken _ (FitsWhereDeep shared deep) n.content (λ l f is_deep. f (ground arith))
                (All-retain_inv (λ lock. not (ltb i last_seg && not lock.deep)) (Fits shared deep)
                  n.content own)),
        λ n' c found' linked.
            let l = HasChild-IsLink t id c w (n', seg, found', linked) in
            let child = l.node in
            list_from-Passes last_seg t (suc i) c child segs w named (omega arith) l.present
              (subst (All (Fits shared deep)) (step n' c child found' linked l.present) rest)
              (λ is_deep id' reached.
                below is_deep id'
                  (rw (tree_child t id n' seg c found' linked, lookup_from) reached)),
      )
    where
      step :
          (n' : Node Bytes (List (DavLock Element))) (c : ℕ)
          (child : Node Bytes (List (DavLock Element)))
          → get t.nodes id ≡ some n'
          → get n'.children seg ≡ some c
          → get t.nodes c ≡ some child
          → list_from last_seg t (suc i) id [] (seg ∷ segs)
            ≡ covered (suc i) last_seg child.content ++ list_from last_seg t (suc (suc i)) c [] segs
      step n' c child found' linked present =
          rw
            (
              walk_child t id n' seg c is_named found' linked,
              content_of t c (child, present),
              list_from,
            )
            (list_from-append (lock_query shared) last_seg t (suc (suc i)) c
              (covered (suc i) last_seg child.content) segs)

  pub check_locks_to_path-Passes :
      (path : DavPath) (t : Locks Element)
      → IsTree t
      → check_locks_to_path (lock_query shared) path t ≡ ok tt
      → (deep ≡ true → (id : ℕ) → lookup_node path t ≡ some id → AreFittingFrom shared deep t id)
      → Passes t root_id (path_to_segs path false)
  unfolding lookup_node
  check_locks_to_path-Passes path t w free below =
      list_from-Passes (length (path_to_segs path false)) t 0 root_id w.root
        (path_to_segs path false) w (path_to_segs-nonempty path) (omega arith) w.rooted
        (subst (All (Fits shared deep)) (list_locks_from_root path t w.root w.rooted) (
          verdict-Fits shared deep (list_locks path t)
            (sym (check_locks_to_path-eq-verdict (lock_query shared) path t) ∙ free)))
        below
