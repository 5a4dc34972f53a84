-- ===== src/MemLs.antt =====
-- src/memls.rs: the lock system in memory. Its state is the tree of locks (the map `locks` beside it
-- is never used); the mutex makes each method one step. A method takes the time that
-- `SystemTime::now()` returns to its pruning, and to its time stamp where it makes one; `lock` takes
-- the fresh token that `Uuid::new_v4()` returns.
pub mod Walk
pub mod Prune
pub mod Check
pub mod Agreement
pub mod Thinning
pub mod Exclusion
pub mod Room
pub mod Granting
pub mod Passing
pub mod Growing
pub mod Creating
pub mod Locking
pub mod Covering
pub mod Pruning
pub mod Paths
pub mod Returns
pub mod Deadlines
pub mod Calls
use dav_server_rs.Common.{
  ℕ, zero, suc, ◌+◌, ◌-◌, ◌*◌, Bool, true, false, not, ◌||◌, ◌&&◌, Option, none, some, List, [],
  ◌∷◌, ◌++◌, Result, ok, err, ◌==◌, nat_eq, list_eq, option_eq, if◌then◌else◌, is_empty, any,
  retain, leb, ltb, length, Bytes,
}
use dav_server_rs.Common
use dav_server_rs.Common.Dict.{Dict, values}
use dav_server_rs.DavPath.{DavPath, as_bytes, segments}
use dav_server_rs.Fs.{FsError}
use dav_server_rs.Ls.{DavLock}
use dav_server_rs.Tree
use dav_server_rs.Tree.{
  root_id, get_node, set_node, get_children, add_child, delete_node, delete_subtree,
}
use dav_server_rs.Tree.Monad.{
  Action, pure, no_return, raise, lift, reads, modify, attempt, unwrap, for_each, ◌>>=◌, ◌>>◌,
}
use dav_server_rs.MemLs.Walk.{Locks, path_to_segs, get_child, lookup_node}
use dav_server_rs.MemLs.Prune.{prune_expired_locks}
use dav_server_rs.MemLs.Check.{Query, check_locks_to_path, check_locks_from_path, list_locks}

-- The first time that a `SystemTime` cannot hold, in nanoseconds: on Unix its seconds
-- are an i64.
abbrev pub system_time_limit : ℕ
system_time_limit = 9223372036854775808 * 1000000000

module _ {Element : Type 0} where
  -- `timeout.map(|d| SystemTime::now() + d)`: the addition panics where it overflows.
  unfoldable pub deadline : {E : Type 0} → ℕ → Option ℕ → Action (Locks Element) E (Option ℕ)
  deadline stamp none = pure none
  deadline stamp (some d) =
      if ltb (stamp + d) system_time_limit then pure (some (stamp + d)) else no_return

  -- `MemLs::new`
  abbrev pub new : Locks Element
  new = Tree.new []

  module _ {E : Type 0} where
    -- `unwrap` of a node that is not there panics.
    unfoldable pub create_from : ℕ → List Bytes → Action (Locks Element) E ℕ
    create_from node_id [] = pure node_id
    create_from node_id (seg ∷ segs) = do
      n ← (λ tree. elim (Tree.get_child node_id seg tree) [
        | ok n ↦ some (ok n, tree)
        | err _ ↦ unwrap (add_child node_id seg [] false) tree
      ])
      create_from n segs

    unfoldable pub get_or_create_path_node : DavPath → Action (Locks Element) E ℕ
    unfolding create_from
    get_or_create_path_node path = create_from root_id (path_to_segs path false)

    -- A write through the reference to the locks of a node.
    unfoldable pub update_node :
        ℕ → (List (DavLock Element) → List (DavLock Element)) → Action (Locks Element) E (Unit {0})
    update_node node_id f = do
      node ← unwrap (reads (get_node node_id))
      unwrap (set_node node_id (f node))

    unfoldable pub lookup_lock_from : Bytes → ℕ → List Bytes → Action (Locks Element) E (Option ℕ)
    lookup_lock_from token node_id [] tree = some (ok none, tree)
    lookup_lock_from token node_id (seg ∷ segs) tree = elim (get_child node_id seg tree) [
      | err _ ↦ some (ok none, tree)
      | ok n ↦
          (do
            node ← unwrap (reads (get_node n))
            elim (any (λ l. l.token == token) node) [
              | true ↦ pure (some n)
              | false ↦ lookup_lock_from token n segs
            ])
            tree
    ]

    unfoldable pub lookup_lock : DavPath → Bytes → Action (Locks Element) E (Option ℕ)
    unfolding lookup_lock_from
    lookup_lock path token = lookup_lock_from token root_id (path_to_segs path true)

  unfoldable pub lock :
      ℕ
      → ℕ
      → Bytes
      → DavPath
      → Option Bytes
      → Option Element
      → Option ℕ
      → Bool
      → Bool
      → Action (Locks Element) (DavLock Element) (DavLock Element)
  lock now stamp token path principal owner timeout shared deep = do
    let q : Query = record {
      principal = none;
      ignore_principal = true;
      submitted_tokens = [];
      shared_ok = shared;
    }
    prune_expired_locks now
    reads (check_locks_to_path q path)
    if deep then check_locks_from_path q path else pure tt
    node_id ← get_or_create_path_node path
    timeout_at ← deadline stamp timeout
    let slock : DavLock Element = record {
      token = token;
      path = path;
      principal = principal;
      owner = owner;
      timeout_at = timeout_at;
      timeout = timeout;
      shared = shared;
      deep = deep;
    }
    update_node node_id (λ node. node ++ slock ∷ [])
    pure slock

  -- `node.remove(idx)`: the first lock with the token.
  abbrev pub remove_token : Bytes → List (DavLock Element) → List (DavLock Element)
  remove_token token [] = []
  remove_token token (l ∷ node) =
      let rest = remove_token token node in if l.token == token then node else l ∷ rest

  abbrev pub with_token : Bytes → List (DavLock Element) → Option (DavLock Element)
  with_token token [] = none
  with_token token (l ∷ node) = if l.token == token then some l else with_token token node

  -- `get_node_mut(node_id).unwrap()`, and `unwrap` of the position of the token there, which panics
  -- where no lock has it.
  unfoldable pub expect_token :
      {E : Type 0} → ℕ → Bytes → Action (Locks Element) E (DavLock Element)
  expect_token node_id token = do
    node ← unwrap (reads (get_node node_id))
    elim (with_token token node) [ none ↦ no_return | some l ↦ pure l ]

  unfoldable pub unlock : ℕ → DavPath → Bytes → Action (Locks Element) (Unit {0}) (Unit {0})
  unlock now path token = do
    prune_expired_locks now
    found ← lookup_lock path token
    elim found [
      | none ↦ raise tt
      | some node_id ↦ do
        expect_token node_id token
        update_node node_id (remove_token token)
        node ← unwrap (reads (get_node node_id))
        if is_empty node then attempt (delete_node node_id) else pure tt
    ]

  -- The lock that a refresh gives a new timeout, the first with the token.
  abbrev pub refresh_token :
      Option ℕ → Option ℕ → Bytes → List (DavLock Element) → List (DavLock Element)
  refresh_token timeout_at timeout token [] = []
  refresh_token timeout_at timeout token (l ∷ node) =
      let rest = refresh_token timeout_at timeout token node in
      if l.token == token
      then record l { timeout_at = timeout_at; timeout = timeout } ∷ node
      else l ∷ rest

  unfoldable pub refresh :
      ℕ → ℕ → DavPath → Bytes → Option ℕ → Action (Locks Element) (Unit {0}) (DavLock Element)
  refresh now stamp path token timeout = do
    prune_expired_locks now
    found ← lookup_lock path token
    elim found [
      | none ↦ raise tt
      | some node_id ↦ do
        expect_token node_id token
        timeout_at ← deadline stamp timeout
        update_node node_id (refresh_token timeout_at timeout token)
        expect_token node_id token
    ]

  unfoldable pub check :
      ℕ
      → DavPath
      → Option Bytes
      → Bool
      → Bool
      → List Bytes
      → Action (Locks Element) (DavLock Element) (Unit {0})
  check now path principal ignore_principal deep submitted_tokens = do
    let q : Query = record {
      principal = principal;
      ignore_principal = ignore_principal;
      submitted_tokens = submitted_tokens;
      shared_ok = false;
    }
    prune_expired_locks now
    reads (check_locks_to_path q path)
    if deep then check_locks_from_path q path else pure tt

  unfoldable pub discover : ℕ → DavPath → Action (Locks Element) (Unit {0}) (List (DavLock Element))
  discover now path = do prune_expired_locks now; reads (λ tree. ok (list_locks path tree))

  unfoldable pub delete : DavPath → Action (Locks Element) (Unit {0}) (Unit {0})
  delete path tree = elim (lookup_node path tree) [
    | none ↦ some (ok tt, tree)
    | some node_id ↦ attempt (delete_subtree node_id) tree
  ]
