-- ===== src/MemLs/Prune.antt =====
-- src/memls.rs: dropping the locks whose time has run out.
use dav_server_rs.Common.{
  ℕ, zero, suc, Bool, false, not, none, some, ok, err, nat_eq, list_eq, option_eq, if◌then◌else◌,
  is_empty, retain, leb,
}
use dav_server_rs.Common.Dict.{values}
use dav_server_rs.Ls.{DavLock}
use dav_server_rs.Tree.{root_id, get_node, set_node, get_children, delete_node}
use dav_server_rs.Tree.Monad.{Action, pure, attempt, unwrap, for_each, ◌>>◌}
use dav_server_rs.MemLs.Walk.{Locks}

module _ {Element : Type 0} where
  unfoldable pub is_expired : ℕ → DavLock Element → Bool
  is_expired now lock = elim lock.timeout_at [ none ↦ false | some t ↦ leb t now ]

  module _ {E : Type 0} where
    -- The end of a round of pruning: the locks of the node itself.
    unfoldable pub prune_node : ℕ → ℕ → Action (Locks Element) E (Unit {0})
    unfolding is_expired
    prune_node now node_id tree = elim (get_node node_id tree) [
      | err _ ↦ some (ok tt, tree)
      | ok node ↦
          (let kept = retain (λ lock. not (is_expired now lock)) node in
            (do
              unwrap (set_node node_id kept)
              if is_empty kept then attempt (delete_node node_id) else pure tt)
              tree)
    ]

    unfoldable pub prune_expired_at : ℕ → ℕ → ℕ → Action (Locks Element) E (Unit {0})
    unfolding prune_node
    prune_expired_at zero now node_id tree = none
    prune_expired_at (suc fuel) now node_id tree = elim (get_children node_id tree) [
      | err _ ↦ some (ok tt, tree)
      | ok children ↦
          (do for_each (prune_expired_at fuel now) (values children); prune_node now node_id) tree
    ]

    -- A path of the tree is no longer than the next id.
    unfoldable pub prune_expired_locks : ℕ → Action (Locks Element) E (Unit {0})
    prune_expired_locks now tree = prune_expired_at tree.node_id now root_id tree
