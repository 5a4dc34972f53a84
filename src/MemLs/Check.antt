-- ===== src/MemLs/Check.antt =====
-- src/memls.rs: the checks for conflicting locks on the way to a path and below it, and the locks
-- that cover a path.
use dav_server_rs.Common.{
  ℕ, zero, suc, ◌+◌, ◌-◌, Bool, true, false, not, ◌||◌, ◌&&◌, Option, none, some, List, [], ◌∷◌,
  ◌++◌, Result, ok, err, ◌==◌, nat_eq, list_eq, option_eq, if◌then◌else◌, is_empty, any, retain,
  leb, ltb, length, Bytes,
}
use dav_server_rs.Common
use dav_server_rs.Common.Dict.{values}
use dav_server_rs.DavPath.{DavPath}
use dav_server_rs.Ls.{DavLock}
use dav_server_rs.Tree.{root_id, get_node, get_children}
use dav_server_rs.Tree.Monad.{Action, pure, lift, for_each, ◌>>◌}
use dav_server_rs.MemLs.Walk.{Locks, path_to_segs, get_child, lookup_node}

-- What a check is made for.
pub record Query : Type 0 where
  pub principal : Option Bytes
  pub ignore_principal : Bool
  pub submitted_tokens : List Bytes
  pub shared_ok : Bool

-- What the walk to a path has met.
pub record Seen (Element : Type 0) : Type 0 where
  pub holds_lock : Bool
  pub first_lock_seen : Option (DavLock Element)

module _ {Element : Type 0} where
  -- The token was submitted, by the principal of the lock.
  unfoldable pub holds : Query → DavLock Element → Bool
  holds q nl =
      any (λ t. nl.token == t) q.submitted_tokens
      && (q.ignore_principal || q.principal == nl.principal)

  -- `get_or_insert`
  abbrev pub get_or_insert : Option (DavLock Element) → DavLock Element → Option (DavLock Element)
  get_or_insert none nl = some nl
  get_or_insert (some l) nl = some l

  -- One lock on the way to the path; `above` says that its node is not the last.
  unfoldable pub see :
      Query → Bool → Seen Element → DavLock Element → Result (Seen Element) (DavLock Element)
  see q above seen nl =
      if above && not nl.deep
      then ok seen
      else if holds q nl
      then ok (record seen { holds_lock = true })
      else if not nl.shared
      then err nl
      else if not q.shared_ok
      then ok (record seen { first_lock_seen = get_or_insert seen.first_lock_seen nl })
      else ok seen

  unfoldable pub see_all :
      Query → Bool → Seen Element → List (DavLock Element) → Result (Seen Element) (DavLock Element)
  see_all q above seen [] = ok seen
  see_all q above seen (nl ∷ locks) =
      Common.◌>>=◌ (see q above seen nl) (λ seen'. see_all q above seen' locks)

  -- The loop over the segments, of which `last_seg` is the last.
  unfoldable pub scan_path :
      Query
      → ℕ
      → Locks Element
      → ℕ
      → ℕ
      → Seen Element
      → List Bytes
      → Result (Seen Element) (DavLock Element)
  scan_path q last_seg tree i node_id seen [] = ok seen
  scan_path q last_seg tree i node_id seen (seg ∷ segs) = elim (get_child node_id seg tree) [
    | err _ ↦ ok seen
    | ok n ↦ elim (get_node n tree) [
      | err _ ↦ ok seen
      | ok node_locks ↦
          Common.◌>>=◌ (see_all q (ltb i last_seg) seen node_locks)
            (λ seen'. scan_path q last_seg tree (suc i) n seen' segs)
    ]
  ]

  -- The conflict that is left when the walk has ended.
  unfoldable pub conflict : Seen Element → Result (Unit {0}) (DavLock Element)
  conflict seen =
      if seen.holds_lock then ok tt else elim seen.first_lock_seen [ none ↦ ok tt | some l ↦ err l ]

  unfoldable pub check_locks_to_path :
      Query → DavPath → Locks Element → Result (Unit {0}) (DavLock Element)
  check_locks_to_path q path tree =
      let segs = path_to_segs path true in
      Common.◌>>=◌
        (scan_path q (length segs - 1) tree 0 root_id
          (record { holds_lock = false; first_lock_seen = none }) segs)
        conflict

  -- The first lock of a node below the path that conflicts.
  unfoldable pub check_node : Query → List (DavLock Element) → Result (Unit {0}) (DavLock Element)
  check_node q [] = ok tt
  check_node q (nl ∷ locks) =
      if (not nl.shared || not q.shared_ok)
        && (not (any (λ t. t == nl.token) q.submitted_tokens)
            || (not q.ignore_principal && not (q.principal == nl.principal)))
      then err nl
      else check_node q locks

  unfoldable pub check_locks_from_node :
      ℕ → Query → ℕ → Action (Locks Element) (DavLock Element) (Unit {0})
  check_locks_from_node zero q node_id tree = none
  check_locks_from_node (suc fuel) q node_id tree = elim (get_node node_id tree) [
    | err _ ↦ some (ok tt, tree)
    | ok node_locks ↦
        (do
          lift (check_node q node_locks)
          elim (get_children node_id tree) [
            | err _ ↦ pure tt
            | ok children ↦ for_each (check_locks_from_node fuel q) (values children)
          ])
          tree
  ]

  unfoldable pub check_locks_from_path :
      Query → DavPath → Action (Locks Element) (DavLock Element) (Unit {0})
  check_locks_from_path q path tree = elim (lookup_node path tree) [
    | none ↦ some (ok tt, tree)
    | some node_id ↦ check_locks_from_node tree.node_id q node_id tree
  ]

  -- The loop of `list_locks`.
  unfoldable pub list_from :
      ℕ → Locks Element → ℕ → ℕ → List (DavLock Element) → List Bytes → List (DavLock Element)
  list_from last_seg tree i node_id locks [] = locks
  list_from last_seg tree i node_id locks (seg ∷ segs) = elim (get_child node_id seg tree) [
    | err _ ↦ locks
    | ok n ↦ elim (get_node n tree) [
      | err _ ↦ locks
      | ok node ↦
          list_from last_seg tree (suc i) n
            (locks ++ retain (λ lock. not (ltb i last_seg && not lock.deep)) node) segs
    ]
  ]

  unfoldable pub list_locks : DavPath → Locks Element → List (DavLock Element)
  list_locks path tree =
      let segs = path_to_segs path true in list_from (length segs - 1) tree 0 root_id [] segs
