-- ===== src/MemLs/Locking.antt =====
-- src/memls.rs: `lock` returns, and leaves a tree of locks that exclude one another.
use dav_server_rs.Common.{
  List, ℕ, ◌+◌, ◌≤◌, ◌<◌, ◌≡◌, refl, sym, subst, Bool, true, false, Option, some, [], ◌∷◌, ◌++◌,
  Result, ok, Bytes, nat_eq, list_eq, arith, inl, inr, Option-cases, if◌then◌else◌, length,
  u64_limit,
}
use dav_server_rs.DavPath.{DavPath}
use dav_server_rs.Ls.{DavLock}
use dav_server_rs.MemLs.{update_node, get_or_create_path_node, lock, deadline}
use dav_server_rs.MemLs.Deadlines.{IsOnTime, deadline-KeepsUnless}
use dav_server_rs.Common.Dict.{get}
use dav_server_rs.MemLs.Check.{check_locks_to_path, check_locks_from_path}
use dav_server_rs.MemLs.Creating.{Creates, create_from-Ends}
use dav_server_rs.MemLs.Exclusion.{IsLocksAt}
use dav_server_rs.MemLs.Granting.{lock_query, AreFittingFrom, Clears, check_locks_from_node-Ends}
use dav_server_rs.MemLs.Passing.{check_locks_to_path-Passes}
use dav_server_rs.MemLs.Paths.{update_node-Ends}
use dav_server_rs.MemLs.Prune.{prune_expired_locks}
use dav_server_rs.MemLs.Pruning.{prune_expired_locks-Keeps}
use dav_server_rs.MemLs.Room.{AreFittingAbove, HasRoom, IsAbove-later, add-IsExclusive}
use dav_server_rs.MemLs.Walk.{Locks, lookup_node, path_to_segs}
use dav_server_rs.Tree.{root_id, Node}
use dav_server_rs.Tree.Ends.{
  Ends, Ends-next, Ends-weaken, Keeps, KeepsUnless, KeepsUnless-next, Keeps-KeepsUnless,
}
use dav_server_rs.Tree.Monad.{Action, pure, reads, ◌>>=◌, ◌>>◌}
use dav_server_rs.Tree.Shape.{IsTree}

module _ {Element : Type 0} where
  -- A tree that has given at most so many identifiers.
  abbrev pub IsLocksBelow : ℕ → Locks Element → Type 0
  IsLocksBelow most t = (bound : ℕ) × (bound ≤ most) × IsLocksAt bound t

  -- What the check below the path finds, where it is made.
  abbrev IsClear : Bool → Bool → DavPath → Locks Element → Type 0
  IsClear shared deep path t =
      deep ≡ true → (id : ℕ) → lookup_node path t ≡ some id → AreFittingFrom shared deep t id

  abbrev ClearsBelow :
      Bool
      → Bool
      → DavPath
      → Locks Element
      → Result (Unit {0}) (DavLock Element)
      → Locks Element
      → Type 0
  ClearsBelow shared deep path t r s = (s ≡ t) × (r ≡ ok tt → IsClear shared deep path t)

  from_path-Ends :
      (shared deep : Bool) (path : DavPath) (t : Locks Element)
      → IsTree t
      → Ends
          (ClearsBelow shared deep path t)
          ((if deep then check_locks_from_path (lock_query shared) path else pure tt) t)
  unfolding check_locks_from_path
  from_path-Ends shared false path t w = (refl, λ _ is_deep. absurd (ground arith))
  from_path-Ends shared true path t w = elim (Option-cases (lookup_node path t)) [
    | inl missing ↦
        rw (missing, check_locks_from_path) (refl, λ _ _ id there. absurd (ground arith))
    | inr (id, there) ↦
        rw (there, check_locks_from_path)
          (Ends-weaken (Clears shared true t id) (ClearsBelow shared true path t) _
            (check_locks_from_node-Ends shared true t.node_id id t (omega (arith, w.counter))
              (omega arith) w)
            (λ r s (same, fits). (
              same,
              λ e _ id' there'.
                  subst (AreFittingFrom shared true t) {x = id} (ground arith) (fits e),
            )))
  ]

  -- Nothing is above the root.
  root-AreFittingAbove :
      (shared deep : Bool) (t : Locks Element) → IsTree t → AreFittingAbove shared deep t root_id
  root-AreFittingAbove shared deep t w i m up there =
      absurd (omega (arith, IsAbove-later t i root_id w up, w.bounded i m there))

  module _ (bound now stamp : ℕ) (token : Bytes) (path : DavPath) (principal : Option Bytes)
      (owner : Option Element) (timeout : Option ℕ) (shared deep : Bool) where
    abbrev most : ℕ
    most = bound + length (path_to_segs path false)

    abbrev slock : Option ℕ → DavLock Element
    slock timeout_at = record {
      token = token;
      path = path;
      principal = principal;
      owner = owner;
      timeout_at = timeout_at;
      timeout = timeout;
      shared = shared;
      deep = deep;
    }

    abbrev grant : Action (Locks Element) (DavLock Element) (DavLock Element)
    grant = do
      node_id ← get_or_create_path_node path
      timeout_at ← deadline stamp timeout
      update_node node_id (λ node. node ++ slock timeout_at ∷ [])
      pure (slock timeout_at)

    -- The addition to the node that has been made.
    add-Keeps :
        (timeout_at : Option ℕ) (b id : ℕ) (n : Node Bytes (List (DavLock Element)))
        (s : Locks Element)
        → b ≤ most
        → IsLocksAt b s
        → (found : get s.nodes id ≡ some n) → HasRoom shared deep s id n
        → Keeps (IsLocksBelow most) (
            (update_node {E = DavLock Element} id (λ node. node ++ slock timeout_at ∷ [])
                >> pure (slock timeout_at))
              s)
    add-Keeps timeout_at b id n s le w found room =
        Ends-next _ (λ _ s. IsLocksBelow most s)
          (update_node id (λ node. node ++ slock timeout_at ∷ []) s) _
          (Ends-weaken _ (λ _ s'. IsLocksAt b s') _
            (update_node-Ends (DavLock Element) b id (λ node. node ++ slock timeout_at ∷ []) s w
              (n, found)
              (add-IsExclusive shared deep (slock timeout_at) refl refl s id n w.tree found room
                w.kept))
            (λ _ _ (w', _, _). w'))
          (λ _ _ w'. (b, le, w')) (λ _ _ w'. (b, le, w'))

    -- Both checks have passed: the lock is added, if the time at which it ends is one.
    grant-KeepsUnless :
        (t : Locks Element)
        → IsLocksAt bound t
        → most < u64_limit
        → check_locks_to_path (lock_query shared) path t ≡ ok tt
        → IsClear shared deep path t
        → KeepsUnless (¬ IsOnTime stamp timeout) (IsLocksBelow most) (grant t)
    unfolding get_or_create_path_node
    grant-KeepsUnless t w small free clear =
        KeepsUnless-next (¬ IsOnTime stamp timeout) (Creates (DavLock Element) shared deep most)
          (IsLocksBelow most) (get_or_create_path_node path t) _
          (create_from-Ends (DavLock Element) shared deep bound root_id (path_to_segs path false) t
            w small (w.tree.root, w.tree.rooted) (root-AreFittingAbove shared deep t w.tree)
            (check_locks_to_path-Passes shared deep path t w.tree free clear))
          (λ id s (b, le, w', id', e, n, found, room).
            deadline-KeepsUnless (IsLocksBelow most) stamp timeout _ s (λ timeout_at.
              Keeps-KeepsUnless (¬ IsOnTime stamp timeout) (IsLocksBelow most) _ (
                subst
                  (λ id. Keeps (IsLocksBelow most) (
                    (update_node {E = DavLock Element} id (λ node. node ++ slock timeout_at ∷ [])
                        >> pure (slock timeout_at))
                      s))
                  {x = id'} (ground arith) (add-Keeps timeout_at b id' n s le w' found room))))
          (λ _ s (b, le, w', _, _, _, _, _). (b, le, w'))

    pub lock-KeepsUnless :
        (t : Locks Element)
        → IsLocksAt bound t
        → most < u64_limit
        → KeepsUnless
            (¬ IsOnTime stamp timeout)
            (IsLocksBelow most)
            (lock now stamp token path principal owner timeout shared deep t)
    unfolding lock
    lock-KeepsUnless t w small =
        let X : Type 0 = ¬ IsOnTime stamp timeout in
        KeepsUnless-next X (λ _ s. IsLocksAt bound s) (IsLocksBelow most)
          (prune_expired_locks now t) _ (prune_expired_locks-Keeps (DavLock Element) bound now t w)
          (λ _ s w'.
            KeepsUnless-next X
              (λ r s'. IsLocksAt bound s' × (check_locks_to_path (lock_query shared) path s' ≡ r))
              (IsLocksBelow most) (reads (check_locks_to_path (lock_query shared) path) s) _
              (w', refl)
              (λ _ s₁ (w₁, free).
                KeepsUnless-next X (ClearsBelow shared deep path s₁) (IsLocksBelow most)
                  ((if deep then check_locks_from_path (lock_query shared) path else pure tt) s₁) _
                  (from_path-Ends shared deep path s₁ w₁.tree)
                  (λ _ s₂ (same, clear).
                    subst (λ s. KeepsUnless X (IsLocksBelow most) (grant s)) (sym same)
                      (grant-KeepsUnless s₁ w₁ small free (clear refl)))
                  (λ _ s₂ (same, _). (bound, omega arith, subst (IsLocksAt bound) (sym same) w₁)))
              (λ _ s₁ (w₁, _). (bound, omega arith, w₁)))
          (λ _ s w'. (bound, omega arith, w'))
