-- ===== src/MemLs/Pruning.antt =====
-- src/memls.rs: pruning returns, and leaves a tree of locks: the recursion has fuel enough, and no
-- `unwrap` panics.
use dav_server_rs.Common.{
  ℕ, zero, suc, ◌+◌, ◌≤◌, ◌<◌, ◌≡◌, refl, Bool, true, false, not, some, List, ok, Bytes, nat_eq,
  list_eq, option_eq, arith, inl, inr, Option-cases, if◌then◌else◌, is_empty, retain,
}
use dav_server_rs.Common.Dict.{get, values, get-insert_self}
use dav_server_rs.Ls.{DavLock}
use dav_server_rs.Tree.{put, Node, get_node, set_node, get_children, delete_node, root_id}
use dav_server_rs.Tree.Deleting.{delete_node-Keeps, for_children-Keeps}
use dav_server_rs.Tree.Shape.{put-IsTree}
use dav_server_rs.Tree.Ends.{Ends, Keeps, Ends-next, attempt-Keeps}
use dav_server_rs.Tree.Monad.{pure, attempt, unwrap, for_each}
use dav_server_rs.MemLs.Thinning.{retain-IsThinned}
use dav_server_rs.MemLs.Exclusion.{IsExclusive, IsLocksAt, locking, thin-IsExclusive}
use dav_server_rs.MemLs.Walk.{Locks}
use dav_server_rs.MemLs.Prune.{is_expired, prune_node, prune_expired_at, prune_expired_locks}

module _ {Element : Type 0} (E : Type 0) where
  -- A node that is there is written, without a panic.
  pub unwrap-set_node :
      (bound : ℕ) (id : ℕ) (content : List (DavLock Element))
      (n : Node Bytes (List (DavLock Element))) (t : Locks Element)
      → IsLocksAt bound t
      → get t.nodes id ≡ some n
      → IsExclusive (put id (record n { content = content }) t)
      → Ends {E = E}
          (λ r s. IsLocksAt bound s × (r ≡ ok tt) × (get_node id s ≡ ok content))
          (unwrap (set_node {K = Bytes} id content) t)
  unfolding set_node get_node
  unwrap-set_node bound id content n t w found keeps =
      rw (found, set_node, Ends)
        (
          record {
            tree =
                put-IsTree t id n (record n { content = content }) found w.tree refl
                  (w.tree.linked id n found);
            next_id = w.next_id;
            kept = keeps;
          },
          refl,
          rw (get-insert_self t.nodes id (record n { content = content }), get_node) refl,
        )

  -- Taking out a node that has no lock left.
  pub drop-Keeps :
      (bound : ℕ) (id : ℕ) (unused : Bool) (s : Locks Element)
      → IsLocksAt bound s
      → Keeps (IsLocksAt bound) ((if unused then attempt {F = E} (delete_node id) else pure tt) s)
  drop-Keeps bound id true s w =
      attempt-Keeps E (IsLocksAt bound) (delete_node id) s
        (delete_node-Keeps (locking bound) id s w)
  drop-Keeps bound id false s w = w

  prune_node-Keeps :
      (bound : ℕ) (now id : ℕ) (t : Locks Element)
      → IsLocksAt bound t
      → Keeps (IsLocksAt bound) (prune_node {E = E} now id t)
  unfolding prune_node get_node
  prune_node-Keeps bound now id t w = elim (Option-cases (get t.nodes id)) [
    | inl missing ↦ rw (missing, get_node, prune_node) w
    | inr (n, found) ↦
        let kept = retain (λ lock. not (is_expired now lock)) n.content in
        rw (found, get_node, prune_node)
          (Ends-next (λ r s. IsLocksAt bound s × (r ≡ ok tt) × (get_node id s ≡ ok kept))
            (λ _ s. IsLocksAt bound s) (unwrap (set_node {K = Bytes} id kept) t)
            (λ _. if is_empty kept then attempt (delete_node id) else pure tt)
            (unwrap-set_node bound id kept n t w found (
              thin-IsExclusive t id n kept found
                (retain-IsThinned (λ lock. not (is_expired now lock)) n.content) w.kept))
            (λ _ s (w', _, _). drop-Keeps bound id (is_empty kept) s w') (λ _ _ (w', _, _). w'))
  ]

  prune_expired_at-Keeps :
      (bound : ℕ) (fuel now id : ℕ) (t : Locks Element)
      → 0 < fuel
      → bound ≤ fuel + id
      → IsLocksAt bound t
      → Keeps (IsLocksAt bound) (prune_expired_at {E = E} fuel now id t)
  unfolding prune_expired_at get_children
  prune_expired_at-Keeps bound zero now id t more enough w = absurd (omega arith)
  prune_expired_at-Keeps bound (suc fuel) now id t more enough w =
      elim (Option-cases (get t.nodes id)) [
        | inl missing ↦ rw (missing, get_children, prune_expired_at) w
        | inr (n, found) ↦
            rw (found, get_children, prune_expired_at)
              (Ends-next (λ _ s. IsLocksAt bound s) (λ _ s. IsLocksAt bound s)
                (for_each (prune_expired_at {E = E} fuel now) (values n.children) t)
                (λ _. prune_node now id)
                (for_children-Keeps (locking bound) id n t w found
                  (prune_expired_at {E = E} fuel now)
                  (λ c later before s.
                    prune_expired_at-Keeps bound fuel now c s (omega arith) (omega arith)))
                (λ _ s w'. prune_node-Keeps bound now id s w') (λ _ _ w'. w'))
      ]

  pub prune_expired_locks-Keeps :
      (bound : ℕ) (now : ℕ) (t : Locks Element)
      → IsLocksAt bound t
      → Keeps (IsLocksAt bound) (prune_expired_locks {E = E} now t)
  unfolding prune_expired_locks
  prune_expired_locks-Keeps bound now t w =
      prune_expired_at-Keeps bound t.node_id now root_id t (omega (arith, w.tree.counter))
        (omega (arith, w.next_id)) w
