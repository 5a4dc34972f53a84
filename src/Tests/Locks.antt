-- ===== src/Tests/Locks.antt =====
-- Runs of the lock system, as in the tests of src/memls.rs, and its properties at an input.
use dav_server_rs.Common.{
  ◌≤◌, ◌≡◌, refl, Bytes, codes, none, some, true, false, [], ◌∷◌, ok, err, Option, ℕ, Bool, Result,
  arith, All, ◌⊎◌, ◌↔◌,
}
use dav_server_rs.Common.Dict.{get, insert, remove}
use dav_server_rs.DavPath.{DavPath, segments, as_bytes}
use dav_server_rs.HandleLock.{get_timeout, get_timeout_lem}
use dav_server_rs.DavHeaders.Timeout.{seconds, infinite}
use dav_server_rs.Ls.{DavLock}
use dav_server_rs.MemLs.Calls.{
  Call, lock, check, refresh, unlock, discover, delete, total_cost, IsPunctual, Reaches,
  calls_return, calls_exclude,
}
use dav_server_rs.MemLs.Exclusion.{AreAlike}
use dav_server_rs.Tree.Shape.{IsTree}
use dav_server_rs.Common.{u64_limit, ◌<◌, ◌+◌, List}
use dav_server_rs.MemLs
use dav_server_rs.MemLs.Walk.{Locks, path_to_segs, get_child, lookup_node}
use dav_server_rs.MemLs.Check.{Query, check_locks_to_path, list_locks}
use dav_server_rs.MemLs.Agreement.{verdict, check_locks_to_path-eq-verdict}
use dav_server_rs.Tree.Monad.{◌>>◌, Action}
use dav_server_rs.Tree

abbrev at : Bytes → DavPath
at path = record { fullpath = path; pfxlen = none }

-- What a run opens.
memls : Unit {0}
unfolding MemLs.lock MemLs.discover MemLs.unlock MemLs.check MemLs.delete
    MemLs.Check.check_locks_to_path MemLs.Check.check_locks_from_path
    MemLs.Check.check_locks_from_node MemLs.Check.check_node MemLs.Check.scan_path
    MemLs.Check.see_all MemLs.Check.see MemLs.Check.conflict MemLs.Check.list_locks
    MemLs.Check.list_from path_to_segs get_child lookup_node MemLs.Walk.lookup_from as_bytes
    segments MemLs.deadline MemLs.expect_token MemLs.get_or_create_path_node MemLs.update_node
    MemLs.lookup_lock MemLs.Prune.prune_expired_locks MemLs.Prune.prune_expired_at Tree.new
    Tree.new_node Tree.add_child Tree.get_child Tree.get_children Tree.get_node Tree.set_node
    Tree.delete_node Tree.delete_node_from_parent Tree.delete_subtree get insert remove
memls = tt

abbrev lock_at :
    Bytes
    → Bytes
    → Option ℕ
    → Bool
    → Bool
    → Action (Locks (Unit {0})) (DavLock (Unit {0})) (DavLock (Unit {0}))
lock_at token path timeout shared deep =
    MemLs.lock 0 0 token (at path) none none timeout shared deep

-- An exclusive lock on a child conflicts with a deep lock on its parent.
abbrev run : Action (Locks (Unit {0})) (DavLock (Unit {0})) (DavLock (Unit {0}))
run = do
  lock_at (codes "t1") (codes "/a/b") none false false
  lock_at (codes "t2") (codes "/a") none false true

abbrev empty : Locks (Unit {0})
empty = MemLs.new

abbrev outcome :
    Option (Result (DavLock (Unit {0})) (DavLock (Unit {0})) × Locks (Unit {0}))
    → Option (Result Bytes Bytes)
outcome none = none
outcome (some (ok l, t)) = some (ok l.token)
outcome (some (err l, t)) = some (err l.token)

abbrev tree_of :
    Option (Result (DavLock (Unit {0})) (DavLock (Unit {0})) × Locks (Unit {0})) → Locks (Unit {0})
tree_of none = empty
tree_of (some (_, t)) = t

conflict_test : outcome (run empty) ≡ some (err (codes "t1"))
unfolding memls
conflict_test = refl

abbrev query : Query
query = record {
  submitted_tokens = codes "t9" ∷ [];
  shared_ok = false;
  ignore_principal = false;
  principal = none;
}

check_locks_to_path_example :
    check_locks_to_path query (at (codes "/a/b")) (tree_of (run empty))
    ≡ verdict query (list_locks (at (codes "/a/b")) (tree_of (run empty)))
check_locks_to_path_example =
    check_locks_to_path-eq-verdict query (at (codes "/a/b")) (tree_of (run empty))

get_timeout_example :
    ((get_timeout (some (seconds 9000 ∷ [])) false false ≡ none)
      ↔ ((false ≡ true) × (seconds 9000 ≡ infinite)))
    × ((t : ℕ)
        → get_timeout (some (seconds 9000 ∷ [])) false false ≡ some t
        → (t ≤ 9000) × (t ≤ 600) × ((t ≡ 9000) ⊎ (t ≡ 600)))
get_timeout_example = get_timeout_lem (seconds 9000) [] false false

-- A lock, a check that it refuses, its end, and the end of the collection.
abbrev calls : List (Call (Unit {0}))
calls =
    lock 0 0 (codes "t1") (at (codes "/a/b")) none none (some 5) false false
    ∷ check 1 (at (codes "/a/b")) none false true []
    ∷ refresh 2 2 (at (codes "/a/b")) (codes "t1") none
    ∷ unlock 3 (at (codes "/a/b")) (codes "t1")
    ∷ discover 4 (at (codes "/a"))
    ∷ delete (at (codes "/a"))
    ∷ []

calls_cost : 2 + total_cost calls < u64_limit
unfolding path_to_segs segments as_bytes
calls_cost = omega arith

calls-IsPunctual : All IsPunctual calls
calls-IsPunctual = omega arith

calls_return_example : (s : Locks (Unit {0})) × Reaches MemLs.new calls s × IsTree s
calls_return_example = calls_return calls calls_cost calls-IsPunctual

-- Two shared locks, one of them deep and above the other, and an exclusive one that is refused.
abbrev sharing : List (Call (Unit {0}))
sharing =
    lock 0 0 (codes "t1") (at (codes "/a")) none none none true true
    ∷ lock 1 1 (codes "t2") (at (codes "/a/b")) none none none true false
    ∷ lock 2 2 (codes "t3") (at (codes "/a/b")) none none none false false
    ∷ []

sharing_cost : 2 + total_cost sharing < u64_limit
unfolding path_to_segs segments as_bytes
sharing_cost = omega arith

sharing-IsPunctual : All IsPunctual sharing
sharing-IsPunctual = omega arith

shared_state : (s : Locks (Unit {0})) × Reaches MemLs.new sharing s × IsTree s
shared_state = calls_return sharing sharing_cost sharing-IsPunctual

calls_exclude_example : AreAlike (list_locks (at (codes "/a/b")) shared_state.0)
calls_exclude_example =
    calls_exclude sharing shared_state.0 (at (codes "/a/b")) sharing_cost shared_state.1
