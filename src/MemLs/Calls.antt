-- ===== src/MemLs/Calls.antt =====
-- src/memls.rs: a sequence of calls of the lock system.
use dav_server_rs.Common.{
  ℕ, ◌+◌, ◌<◌, ◌≡◌, ◌⊎◌, All, refl, inl, inr, subst, Bool, Option, none, some, List, [], ◌∷◌,
  Result, Bytes, arith, length, u64_limit, nat_eq, list_eq, false,
}
use dav_server_rs.Common.Dict.{get, insert}
use dav_server_rs.DavPath.{DavPath}
use dav_server_rs.Ls.{DavLock}
use dav_server_rs.MemLs
use dav_server_rs.MemLs.Check.{list_locks}
use dav_server_rs.MemLs.Covering.{list_locks-AreAlike}
use dav_server_rs.MemLs.Exclusion.{IsLocksAt, AreAlike, AreCompatible}
use dav_server_rs.MemLs.Locking.{IsLocksBelow, lock-KeepsUnless}
use dav_server_rs.MemLs.Deadlines.{IsOnTime}
use dav_server_rs.MemLs.Returns.{
  unlock-Keeps, refresh-KeepsUnless, check-Keeps, discover-Keeps, delete-Keeps,
}
use dav_server_rs.MemLs.Walk.{Locks, path_to_segs}
use dav_server_rs.Tree
use dav_server_rs.Tree.Ends.{Keeps, KeepsUnless}
use dav_server_rs.Tree.Shape.{IsTree, AreLinks}

-- A call of the trait, with the times and the token that it is given.
pub data Call (Element : Type 0) : Type 0 where
  lock :
      ℕ
      → ℕ
      → Bytes
      → DavPath
      → Option Bytes
      → Option Element
      → Option ℕ
      → Bool
      → Bool
      → Call Element
  unlock : ℕ → DavPath → Bytes → Call Element
  refresh : ℕ → ℕ → DavPath → Bytes → Option ℕ → Call Element
  check : ℕ → DavPath → Option Bytes → Bool → Bool → List Bytes → Call Element
  discover : ℕ → DavPath → Call Element
  delete : DavPath → Call Element

module _ {Element : Type 0} where
  abbrev after : {A E : Type 0} → Option (Result A E × Locks Element) → Option (Locks Element)
  after none = none
  after (some (_, t)) = some t

  -- The state that a call leaves; `none` is a panic or a call that does not return.
  abbrev perform : Call Element → Locks Element → Option (Locks Element)
  perform (lock now stamp token path principal owner timeout shared deep) t =
      after (MemLs.lock now stamp token path principal owner timeout shared deep t)
  perform (unlock now path token) t = after (MemLs.unlock now path token t)
  perform (refresh now stamp path token timeout) t =
      after (MemLs.refresh now stamp path token timeout t)
  perform (check now path principal ignore_principal deep tokens) t =
      after (MemLs.check now path principal ignore_principal deep tokens t)
  perform (discover now path) t = after (MemLs.discover now path t)
  perform (delete path) t = after (MemLs.delete path t)

  -- The identifiers that a call may give: one for each name of a path that is locked.
  abbrev pub cost : Call Element → ℕ
  cost (lock now stamp token path principal owner timeout shared deep) =
      length (path_to_segs path false)
  cost (unlock now path token) = 0
  cost (refresh now stamp path token timeout) = 0
  cost (check now path principal ignore_principal deep tokens) = 0
  cost (discover now path) = 0
  cost (delete path) = 0

  abbrev pub total_cost : List (Call Element) → ℕ
  total_cost [] = 0
  total_cost (call ∷ calls) = cost call + total_cost calls

  -- The state behind a sequence of calls.
  pub data Reaches : Locks Element → List (Call Element) → Locks Element → Type 0 where
    here : {t : Locks Element} → Reaches t [] t
    next :
        (call : Call Element) {calls : List (Call Element)} {t s u : Locks Element}
        → perform call t ≡ some s
        → Reaches s calls u
        → Reaches t (call ∷ calls) u

  -- The time at which a lock ends, where a call computes one, is one that a `SystemTime` holds.
  abbrev pub IsPunctual : Call Element → Type 0
  IsPunctual (lock now stamp token path principal owner timeout shared deep) =
      IsOnTime stamp timeout
  IsPunctual (unlock now path token) = Unit
  IsPunctual (refresh now stamp path token timeout) = IsOnTime stamp timeout
  IsPunctual (check now path principal ignore_principal deep tokens) = Unit
  IsPunctual (discover now path) = Unit
  IsPunctual (delete path) = Unit

  -- How a call ends: it panics, which a punctual call does not do, or it leaves such a state.
  abbrev Outcome : Call Element → (Locks Element → Type 0) → Option (Locks Element) → Type 0
  Outcome call P o = ((o ≡ none) × (¬ IsPunctual call)) ⊎ ((s : Locks Element) × (o ≡ some s) × P s)

  KeepsUnless-after :
      {A E : Type 0} (call : Call Element) (P : Locks Element → Type 0)
      (o : Option (Result A E × Locks Element))
      → KeepsUnless (¬ IsPunctual call) P o
      → Outcome call P (after o)
  KeepsUnless-after call P none h = inl (refl, h)
  KeepsUnless-after call P (some (r, s)) h = inr (s, refl, h)

  Keeps-after :
      {A E : Type 0} (call : Call Element) (bound : ℕ) (o : Option (Result A E × Locks Element))
      → Keeps (IsLocksAt bound) o
      → Outcome call (IsLocksBelow (bound + 0)) (after o)
  Keeps-after call bound none h = absurd h
  Keeps-after call bound (some (r, s)) h = inr (s, refl, (bound, omega arith, h))

  perform-Outcome :
      (call : Call Element) (bound : ℕ) (t : Locks Element)
      → IsLocksAt bound t
      → bound + cost call < u64_limit
      → Outcome call (IsLocksBelow (bound + cost call)) (perform call t)
  perform-Outcome (lock now stamp token path principal owner timeout shared deep) bound t w small =
      KeepsUnless-after (lock now stamp token path principal owner timeout shared deep)
        (IsLocksBelow (bound + length (path_to_segs path false)))
        (MemLs.lock now stamp token path principal owner timeout shared deep t)
        (lock-KeepsUnless bound now stamp token path principal owner timeout shared deep t w small)
  perform-Outcome (unlock now path token) bound t w small =
      Keeps-after (unlock now path token) bound (MemLs.unlock now path token t)
        (unlock-Keeps bound now path token t w)
  perform-Outcome (refresh now stamp path token timeout) bound t w small =
      elim (KeepsUnless-after (refresh now stamp path token timeout) (IsLocksAt bound)
        (MemLs.refresh now stamp path token timeout t)
        (refresh-KeepsUnless bound now stamp path token timeout t w)) [
          | inl panics ↦ inl panics
          | inr (s, e, w') ↦ inr (s, e, (bound, omega arith, w'))
        ]
  perform-Outcome (check now path principal ignore_principal deep tokens) bound t w small =
      Keeps-after (check now path principal ignore_principal deep tokens) bound
        (MemLs.check now path principal ignore_principal deep tokens t)
        (check-Keeps bound now path principal ignore_principal deep tokens t w)
  perform-Outcome (discover now path) bound t w small =
      Keeps-after (discover now path) bound (MemLs.discover now path t)
        (discover-Keeps bound now path t w)
  perform-Outcome (delete path) bound t w small =
      Keeps-after (delete path) bound (MemLs.delete path t) (delete-Keeps bound path t w)

  calls-IsLocks :
      (calls : List (Call Element)) (bound : ℕ) (t : Locks Element)
      → IsLocksAt bound t
      → bound + total_cost calls < u64_limit
      → All IsPunctual calls
      → (s : Locks Element) × Reaches t calls s × (most : ℕ) × IsLocksAt most s
  calls-IsLocks [] bound t w small punctual = (t, here, bound, w)
  calls-IsLocks (call ∷ calls) bound t w small (now, later) =
      elim (perform-Outcome call bound t w (omega arith)) [
        | inl (_, late) ↦ absurd (late now)
        | inr (s, e, (b, le, w')) ↦
            let (u, reached, most, w'') = calls-IsLocks calls b s w' (omega arith) later in
            (u, next call e reached, most, w'')
      ]

  Reaches-IsLocks :
      (calls : List (Call Element)) (bound : ℕ) (t u : Locks Element)
      → IsLocksAt bound t
      → bound + total_cost calls < u64_limit
      → Reaches t calls u
      → (most : ℕ) × IsLocksAt most u
  Reaches-IsLocks [] bound t _ w small here = (bound, w)
  Reaches-IsLocks (call ∷ calls) bound t u w small (next _ {s = s} e r) =
      elim (perform-Outcome call bound t w (omega arith)) [
        | inl (panics, _) ↦ absurd (ground arith)
        | inr (s', e', (b, le, w')) ↦
            let same : s' ≡ s = ground arith in
            Reaches-IsLocks calls b s u (subst (IsLocksAt b) same w') (omega arith) r
      ]

  new-IsLocksAt : IsLocksAt 2 (MemLs.new {Element = Element})
  unfolding Tree.new insert get
  new-IsLocksAt = record {
    tree = record {
      counter = omega arith;
      root = root_node;
      rooted = refl;
      bounded = λ i n h. only i n h;
      linked = λ i n h.
          subst
            (λ (n : Tree.Node Bytes (List (DavLock Element))).
              AreLinks (MemLs.new {Element = Element}) i n.children)
            (same i n h) (tt, tt);
    };
    next_id = refl;
    kept = record {
      alike = λ i n h.
          subst (λ (n : Tree.Node Bytes (List (DavLock Element))). AreAlike n.content) (same i n h)
            (inl (omega arith));
      compatible = λ i j n m above h h'.
          subst
            (λ (n : Tree.Node Bytes (List (DavLock Element))). AreCompatible n.content m.content)
            (same i n h) tt;
    };
  }
    where
      root_node : Tree.Node Bytes (List (DavLock Element))
      root_node = record { content = []; id = 1; parent_id = 0; children = [] }

      only :
          (i : ℕ) (n : Tree.Node Bytes (List (DavLock Element)))
          → get (MemLs.new {Element = Element}).nodes i ≡ some n
          → (0 < i) × (i < 2)
      only i n h = ground arith

      same :
          (i : ℕ) (n : Tree.Node Bytes (List (DavLock Element)))
          → get (MemLs.new {Element = Element}).nodes i ≡ some n
          → root_node ≡ n
      same i n h = ground arith

  -- The lock system never panics and never loops, as long as fewer than 2^64 identifiers are given and
  -- each timeout that a lock or a refresh asks for ends at a time that a `SystemTime` holds: from its
  -- first state every sequence of calls runs to its end, each call with its answer, and leaves a tree.
  pub calls_return :
      (calls : List (Call Element))
      → 2 + total_cost calls < u64_limit
      → All IsPunctual calls
      → (s : Locks Element) × Reaches MemLs.new calls s × IsTree s
  calls_return calls small punctual =
      let (s, reached, _, w) = calls-IsLocks calls 2 MemLs.new new-IsLocksAt small punctual in
      (s, reached, w.tree)

  -- An exclusive lock excludes any other: in every state that calls lead to, as long as fewer than
  -- 2^64 identifiers are given, of the locks that are listed for a path, those of its own and the deep
  -- ones above it, there is at most one, or all are shared.
  pub calls_exclude :
      (calls : List (Call Element)) (s : Locks Element) (path : DavPath)
      → 2 + total_cost calls < u64_limit
      → Reaches MemLs.new calls s
      → AreAlike (list_locks path s)
  calls_exclude calls s path small reached =
      let (_, w) = Reaches-IsLocks calls 2 MemLs.new s new-IsLocksAt small reached in
      list_locks-AreAlike path s w.tree w.kept
