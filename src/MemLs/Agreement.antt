-- ===== src/MemLs/Agreement.antt =====
-- The check on the way to a path and the list of the locks that cover it are two walks of the code:
-- the check is a function of that list.
use dav_server_rs.Common.{
  ℕ, suc, ◌-◌, ◌≡◌, refl, fun_ext, sym, ap, ◌∙◌, Bool, true, false, not, ◌&&◌, ◌||◌, none, some,
  List, [], ◌∷◌, ◌++◌, Result, ok, err, arith, Bytes, if◌then◌else◌, any, find, retain, ltb, length,
  append_assoc, append-nil, inl, inr, Bool-cases, Result-cases,
}
use dav_server_rs.Common.{◌>>=◌}
use dav_server_rs.DavPath.{DavPath}
use dav_server_rs.Ls.{DavLock}
use dav_server_rs.Tree.{root_id, get_node}
use dav_server_rs.MemLs.Walk.{Locks, path_to_segs, get_child}
use dav_server_rs.MemLs.Check.{
  Query, Seen, holds, see, see_all, scan_path, conflict, get_or_insert, check_locks_to_path,
  list_from, list_locks,
}

module _ {Element : Type 0} (q : Query) where
  -- The first exclusive lock that the caller does not hold is fatal. With a lock of its own, or
  -- where shared locks are no obstacle, the caller passes; else the first lock is the conflict.
  abbrev pub verdict : List (DavLock Element) → Result (Unit {0}) (DavLock Element)
  verdict locks = elim (find (λ l. not (holds q l) && not l.shared) locks) [
    | some l ↦ err l
    | none ↦
        (if any (holds q) locks || q.shared_ok
          then ok tt
          else elim (find (λ l. not (holds q l)) locks) [ none ↦ ok tt | some l ↦ err l ])
  ]

  abbrev covers : Bool → DavLock Element → Bool
  covers above lock = not (above && not lock.deep)

  see-skipped :
      (above : Bool) (seen : Seen Element) (l : DavLock Element)
      → (above && not l.deep) ≡ true
      → see q above seen l ≡ ok seen
  unfolding see
  see-skipped above seen l h = rw h refl

  see-covered :
      (above : Bool) (seen : Seen Element) (l : DavLock Element)
      → (above && not l.deep) ≡ false
      → see q above seen l ≡ see q false seen l
  unfolding see
  see-covered above seen l h = rw h refl

  see_all-retain :
      (above : Bool) (seen : Seen Element) (node : List (DavLock Element))
      → see_all q above seen node ≡ see_all q false seen (retain (covers above) node)
  unfolding see_all
  see_all-retain above seen [] = refl
  see_all-retain above seen (l ∷ node) = elim (Bool-cases (above && not l.deep)) [
    | inl skipped ↦ rw (see-skipped above seen l skipped, skipped) (see_all-retain above seen node)
    | inr covered ↦
        rw (see-covered above seen l covered, covered)
          (ap (λ f. see q false seen l >>= f) (fun_ext λ s. see_all-retain above s node))
  ]

  see_all-append :
      (seen : Seen Element) (xs ys : List (DavLock Element))
      → see_all q false seen (xs ++ ys) ≡ (see_all q false seen xs >>= λ s. see_all q false s ys)
  unfolding see_all
  see_all-append seen [] ys = refl
  see_all-append seen (x ∷ xs) ys = elim (Result-cases (see q false seen x)) [
    | inl (s, e) ↦ rw e (see_all-append s xs ys)
    | inr (l, e) ↦ rw e refl
  ]

  pub list_from-append :
      (last_seg : ℕ) (tree : Locks Element) (i node_id : ℕ) (locks : List (DavLock Element))
      (segs : List Bytes)
      → list_from last_seg tree i node_id locks segs
        ≡ locks ++ list_from last_seg tree i node_id [] segs
  unfolding list_from
  list_from-append last_seg tree i node_id locks [] = sym (append-nil locks)
  list_from-append last_seg tree i node_id locks (seg ∷ segs) =
      elim (Result-cases (get_child node_id seg tree)) [
        | inr (_, e) ↦ rw (e, list_from) (sym (append-nil locks))
        | inl (n, e) ↦ elim (Result-cases (get_node n tree)) [
          | inr (_, e') ↦ rw (e, e', list_from) (sym (append-nil locks))
          | inl (node, e') ↦
              let kept = retain (covers (ltb i last_seg)) node in
              rw (e, e', list_from)
                (list_from-append last_seg tree (suc i) n (locks ++ kept) segs
                  ∙ append_assoc locks kept (list_from last_seg tree (suc i) n [] segs)
                  ∙ ap (λ r. locks ++ r) (sym (list_from-append last_seg tree (suc i) n kept segs)))
        ]
      ]

  scan_path-list_from :
      (last_seg : ℕ) (tree : Locks Element) (i node_id : ℕ) (seen : Seen Element)
      (segs : List Bytes)
      → scan_path q last_seg tree i node_id seen segs
        ≡ see_all q false seen (list_from last_seg tree i node_id [] segs)
  unfolding scan_path list_from
  scan_path-list_from last_seg tree i node_id seen [] = unfold see_all in refl
  scan_path-list_from last_seg tree i node_id seen (seg ∷ segs) =
      elim (Result-cases (get_child node_id seg tree)) [
        | inr (_, e) ↦ rw (e, scan_path, list_from) (unfold see_all in refl)
        | inl (n, e) ↦ elim (Result-cases (get_node n tree)) [
          | inr (_, e') ↦ rw (e, e', scan_path, list_from) (unfold see_all in refl)
          | inl (node, e') ↦
              let kept = retain (covers (ltb i last_seg)) node in
              let rest = list_from last_seg tree (suc i) n [] segs in
              rw (e, e', scan_path, list_from)
                (ap (λ r. r >>= λ s. scan_path q last_seg tree (suc i) n s segs)
                    (see_all-retain (ltb i last_seg) seen node)
                  ∙ ap (λ f. see_all q false seen kept >>= f)
                      (fun_ext λ s. scan_path-list_from last_seg tree (suc i) n s segs)
                  ∙ sym (see_all-append seen kept rest)
                  ∙ ap (see_all q false seen)
                      (sym (list_from-append last_seg tree (suc i) n kept segs)))
        ]
      ]

  -- What the walk still finds, from what it has seen.
  abbrev verdict_from : Seen Element → List (DavLock Element) → Result (Unit {0}) (DavLock Element)
  verdict_from seen locks = elim (find (λ l. not (holds q l) && not l.shared) locks) [
    | some l ↦ err l
    | none ↦
        (if seen.holds_lock || any (holds q) locks then ok tt else elim seen.first_lock_seen [
          | some l ↦ err l
          | none ↦
              (if q.shared_ok
                then ok tt
                else elim (find (λ l. not (holds q l)) locks) [ none ↦ ok tt | some l ↦ err l ])
        ])
  ]

  held_step :
      (seen : Seen Element) (l : DavLock Element) (locks : List (DavLock Element))
      → holds q l ≡ true
      → verdict_from (record seen { holds_lock = true }) locks ≡ verdict_from seen (l ∷ locks)
  held_step seen l locks h = ground arith

  blocked_step :
      (seen : Seen Element) (l : DavLock Element) (locks : List (DavLock Element))
      → holds q l ≡ false
      → l.shared ≡ false
      → err l ≡ verdict_from seen (l ∷ locks)
  blocked_step seen l locks h s = ground arith

  shared_step :
      (seen : Seen Element) (l : DavLock Element) (locks : List (DavLock Element))
      → holds q l ≡ false
      → l.shared ≡ true
      → verdict_from
          (if not q.shared_ok
            then record seen { first_lock_seen = get_or_insert seen.first_lock_seen l }
            else seen)
          locks
        ≡ verdict_from seen (l ∷ locks)
  shared_step seen l locks h s = ground arith

  see_held :
      (seen : Seen Element) (l : DavLock Element)
      → holds q l ≡ true
      → see q false seen l ≡ ok (record seen { holds_lock = true })
  unfolding see
  see_held seen l h = rw h refl

  see_exclusive :
      (seen : Seen Element) (l : DavLock Element)
      → holds q l ≡ false
      → l.shared ≡ false
      → see q false seen l ≡ err l
  unfolding see
  see_exclusive seen l h s = ground arith

  abbrev remember : Seen Element → DavLock Element → Seen Element
  remember seen l =
      if not q.shared_ok
      then record seen { first_lock_seen = get_or_insert seen.first_lock_seen l }
      else seen

  see_shared :
      (seen : Seen Element) (l : DavLock Element)
      → holds q l ≡ false
      → l.shared ≡ true
      → see q false seen l ≡ ok (remember seen l)
  unfolding see
  see_shared seen l h s = ground arith

  see_all-verdict_from :
      (seen : Seen Element) (locks : List (DavLock Element))
      → (see_all q false seen locks >>= conflict) ≡ verdict_from seen locks
  unfolding see_all
  see_all-verdict_from seen [] = unfold conflict in ground arith
  see_all-verdict_from seen (l ∷ locks) = elim (Bool-cases (holds q l)) [
    | inl held ↦ rw (see_held seen l held) (
        see_all-verdict_from (record seen { holds_lock = true }) locks
        ∙ held_step seen l locks held)
    | inr other ↦ elim (Bool-cases l.shared) [
      | inr exclusive ↦
          rw (see_exclusive seen l other exclusive) (blocked_step seen l locks other exclusive)
      | inl is_shared ↦
          rw (see_shared seen l other is_shared) (
            see_all-verdict_from (remember seen l) locks ∙ shared_step seen l locks other is_shared)
    ]
  ]

  -- The check on the way to a path decides by the locks that `list_locks` lists for it: an exclusive
  -- lock that the caller does not hold is returned, the first of them; with none, a caller that
  -- holds one of the locks passes, and so does one that accepts shared locks; any other is refused
  -- with the first lock, if there is one.
  pub check_locks_to_path-eq-verdict :
      (path : DavPath) (tree : Locks Element)
      → check_locks_to_path q path tree ≡ verdict (list_locks path tree)
  unfolding check_locks_to_path list_locks
  check_locks_to_path-eq-verdict path tree =
      let segs = path_to_segs path true in
      let seen : Seen Element = record { holds_lock = false; first_lock_seen = none } in
      ap (λ r. r >>= conflict) (scan_path-list_from (length segs - 1) tree 0 root_id seen segs)
      ∙ see_all-verdict_from seen (list_from (length segs - 1) tree 0 root_id [] segs)
      ∙ ground arith
