-- ===== src/MemLs/Returns.antt =====
-- src/memls.rs: every operation returns, and leaves a tree of locks.
use dav_server_rs.Common.{
  ℕ, zero, suc, ◌+◌, ◌≤◌, ◌<◌, ◌≡◌, refl, sym, subst, Bool, true, false, Option, none, some, List,
  [], ◌∷◌, Result, ok, Bytes, ◌∙◌, ◌==◌, nat_eq, list_eq, option_eq, arith, inl, inr, Bool-cases,
  Option-cases, Result-cases, if◌then◌else◌, is_empty, any,
}
use dav_server_rs.Common.Dict.{get}
use dav_server_rs.DavPath.{DavPath}
use dav_server_rs.Ls.{DavLock}
use dav_server_rs.Tree.{get_node, delete_node, delete_subtree, root_id}
use dav_server_rs.MemLs.Exclusion.{IsLocksAt, locking, thin-IsExclusive}
use dav_server_rs.MemLs.Thinning.{remove_token-IsThinned, refresh_token-IsThinned}
use dav_server_rs.Tree.Deleting.{delete_subtree-Keeps, for_children-Keeps}
use dav_server_rs.Tree.Ends.{
  Keeps, Ends-next, attempt-Keeps, KeepsUnless, KeepsUnless-next, Keeps-KeepsUnless,
  KeepsUnless-Keeps,
}
use dav_server_rs.Tree.Monad.{Action, pure, no_return, reads, attempt, next, ◌>>=◌}
use dav_server_rs.MemLs.{
  lookup_lock, update_node, unlock, refresh, check, discover, delete, remove_token, refresh_token,
  with_token, expect_token,
}
use dav_server_rs.MemLs.Check.{
  Query, check_node, check_locks_to_path, check_locks_from_node, check_locks_from_path,
}
use dav_server_rs.MemLs.Deadlines.{IsOnTime, deadline-KeepsUnless}
use dav_server_rs.MemLs.Pruning.{drop-Keeps, prune_expired_locks-Keeps}
use dav_server_rs.MemLs.Prune.{prune_expired_locks}
use dav_server_rs.MemLs.Paths.{
  IsPresent, Finds, lookup_lock_from-Ends, update_node-Ends, read_node, content_of, children_of,
}
use dav_server_rs.MemLs.Walk.{Locks, lookup_node, path_to_segs}

module _ {Element : Type 0} where
  check_locks_from_node-Keeps :
      (bound fuel : ℕ) (q : Query) (id : ℕ) (t : Locks Element)
      → 0 < fuel
      → bound ≤ fuel + id
      → IsLocksAt bound t
      → Keeps (IsLocksAt bound) (check_locks_from_node fuel q id t)
  unfolding check_locks_from_node get_node
  check_locks_from_node-Keeps bound zero q id t more enough w = absurd (omega arith)
  check_locks_from_node-Keeps bound (suc fuel) q id t more enough w =
      elim (Option-cases (get t.nodes id)) [
        | inl missing ↦ rw (missing, get_node, check_locks_from_node) w
        | inr (n, found) ↦ elim (Result-cases (check_node q n.content)) [
          | inr (l, clash) ↦ rw (found, clash, get_node, check_locks_from_node) w
          | inl (_, free) ↦
              rw (found, free, get_node, check_locks_from_node, children_of t id (n, found))
                (for_children-Keeps (locking bound) id n t w found (check_locks_from_node fuel q)
                  (λ c later before s.
                    check_locks_from_node-Keeps bound fuel q c s (omega arith) (omega arith)))
        ]
      ]

  from_path-Keeps :
      (bound : ℕ) (q : Query) (path : DavPath) (deep : Bool) (t : Locks Element)
      → IsLocksAt bound t
      → Keeps (IsLocksAt bound) ((if deep then check_locks_from_path q path else pure tt) t)
  unfolding check_locks_from_path
  from_path-Keeps bound q path false t w = w
  from_path-Keeps bound q path true t w = elim (Option-cases (lookup_node path t)) [
    | inl missing ↦ rw (missing, check_locks_from_path) w
    | inr (id, there) ↦
        rw (there, check_locks_from_path)
          (check_locks_from_node-Keeps bound t.node_id q id t (omega (arith, w.tree.counter))
            (omega (arith, w.next_id)) w)
  ]

  pub check-Keeps :
      (bound now : ℕ) (path : DavPath) (principal : Option Bytes) (ignore_principal deep : Bool)
      (submitted_tokens : List Bytes) (t : Locks Element)
      → IsLocksAt bound t
      → Keeps (IsLocksAt bound) (check now path principal ignore_principal deep submitted_tokens t)
  unfolding check
  check-Keeps bound now path principal ignore_principal deep submitted_tokens t w =
      let q : Query = record {
        principal = principal;
        ignore_principal = ignore_principal;
        submitted_tokens = submitted_tokens;
        shared_ok = false;
      } in
      Ends-next (λ _ s. IsLocksAt bound s) (λ _ s. IsLocksAt bound s) (prune_expired_locks now t) _
        (prune_expired_locks-Keeps (DavLock Element) bound now t w)
        (λ _ s w'.
          Ends-next (λ _ s. IsLocksAt bound s) (λ _ s. IsLocksAt bound s)
            (reads (check_locks_to_path q path) s) _ w'
            (λ _ s' w''. from_path-Keeps bound q path deep s' w'') (λ _ _ w''. w''))
        (λ _ _ w'. w')

  pub discover-Keeps :
      (bound now : ℕ) (path : DavPath) (t : Locks Element)
      → IsLocksAt bound t
      → Keeps (IsLocksAt bound) (discover now path t)
  unfolding discover
  discover-Keeps bound now path t w =
      Ends-next (λ _ s. IsLocksAt bound s) (λ _ s. IsLocksAt bound s) (prune_expired_locks now t) _
        (prune_expired_locks-Keeps (Unit {0}) bound now t w) (λ _ s w'. w') (λ _ _ w'. w')

  pub delete-Keeps :
      (bound : ℕ) (path : DavPath) (t : Locks Element)
      → IsLocksAt bound t
      → Keeps (IsLocksAt bound) (delete path t)
  unfolding delete
  delete-Keeps bound path t w = elim (Option-cases (lookup_node path t)) [
    | inl missing ↦ rw (missing, delete) w
    | inr (id, there) ↦
        rw (there, delete)
          (attempt-Keeps (Unit {0}) (IsLocksAt bound) (delete_subtree id) t
            (delete_subtree-Keeps (locking bound) id t w))
  ]

  root-IsPresent : (bound : ℕ) (t : Locks Element) → IsLocksAt bound t → IsPresent root_id t
  root-IsPresent bound t w = (w.tree.root, w.tree.rooted)

  -- The tree is unchanged where a lock is found.
  found-KeepsUnless :
      {A : Type 0} (X : Type 0) (bound : ℕ) (token : Bytes) (path : DavPath) (t : Locks Element)
      (k : Option ℕ → Action (Locks Element) (Unit {0}) A)
      → IsLocksAt bound t
      → KeepsUnless X (IsLocksAt bound) (k none t)
      → ((id : ℕ)
          → (here : IsPresent id t) → any (λ l. l.token == token) here.0.content ≡ true
          → KeepsUnless X (IsLocksAt bound) (k (some id) t))
      → KeepsUnless X (IsLocksAt bound) ((lookup_lock path token >>= k) t)
  unfolding lookup_lock
  found-KeepsUnless X bound token path t k w absent present =
      KeepsUnless-next X (Finds (Unit {0}) t token) (IsLocksAt bound) (lookup_lock path token t) k
        (lookup_lock_from-Ends (Unit {0}) t token root_id (path_to_segs path true) w.tree
          (root-IsPresent bound t w))
        (λ found s (same, there).
          subst (λ s. KeepsUnless X (IsLocksAt bound) (k found s)) (sym same) (at found there))
        (λ _ s (same, _). subst (IsLocksAt bound) (sym same) w)
    where
      at :
          (found : Option ℕ)
          → ((id : ℕ)
              → ◌≡◌ {A = Result (Option ℕ) (Unit {0})} (ok found) (ok (some id))
              → (here : IsPresent id t) × (any (λ l. l.token == token) here.0.content ≡ true))
          → KeepsUnless X (IsLocksAt bound) (k found t)
      at none there = absent
      at (some id) there = let (here, held) = there id refl in present id here held

  with_token-held :
      (token : Bytes) (node : List (DavLock Element))
      → any (λ l. l.token == token) node ≡ true
      → (l : DavLock Element) × (with_token token node ≡ some l)
  with_token-held token [] h = absurd (ground arith)
  with_token-held token (l ∷ node) h = elim (Bool-cases (l.token == token)) [
    | inl here ↦ (l, rw here refl)
    | inr there ↦ let (found, e) = with_token-held token node (ground arith) in (found, rw there e)
  ]

  -- The position of a token that is there is found, without a panic.
  expect_token-held :
      (t : Locks Element) (id : ℕ) (token : Bytes) (node : List (DavLock Element))
      → get_node id t ≡ ok node
      → (l : DavLock Element) × (with_token token node ≡ some l)
      → (l : DavLock Element) × (expect_token {E = Unit {0}} id token t ≡ some (ok l, t))
  unfolding expect_token
  expect_token-held t id token node stored (l, held) = (
    l,
    read_node (Unit {0}) t id node
          (λ node. elim (with_token token node) [ none ↦ no_return | some l ↦ pure l ]) stored
        ∙ rw held refl,
  )

  -- What follows it.
  expected-KeepsUnless :
      {A : Type 0} (X : Type 0) (P : Locks Element → Type 0) (t : Locks Element) (id : ℕ)
      (token : Bytes) (node : List (DavLock Element))
      (k : DavLock Element → Action (Locks Element) (Unit {0}) A)
      → get_node id t ≡ ok node
      → (l : DavLock Element) × (with_token token node ≡ some l)
      → ((l : DavLock Element) → KeepsUnless X P (k l t))
      → KeepsUnless X P ((expect_token id token >>= k) t)
  expected-KeepsUnless X P t id token node k stored held h =
      let (l, e) = expect_token-held t id token node stored held in
      subst (λ o. KeepsUnless X P (next o k)) (sym e) (h l)

  pub unlock-Keeps :
      (bound now : ℕ) (path : DavPath) (token : Bytes) (t : Locks Element)
      → IsLocksAt bound t
      → Keeps (IsLocksAt bound) (unlock now path token t)
  unfolding unlock
  unlock-Keeps bound now path token t w =
      Ends-next (λ _ s. IsLocksAt bound s) (λ _ s. IsLocksAt bound s) (prune_expired_locks now t) _
        (prune_expired_locks-Keeps (Unit {0}) bound now t w)
        (λ _ s w'. KeepsUnless-Keeps (IsLocksAt bound) _ (
          found-KeepsUnless ⊥ bound token path s _ w' w' (λ id here held.
            expected-KeepsUnless ⊥ (IsLocksAt bound) s id token here.0.content _
              (content_of s id here) (with_token-held token here.0.content held)
              (λ _.
                KeepsUnless-next ⊥ _ (IsLocksAt bound) (update_node id (remove_token token) s) _
                  (update_node-Ends (Unit {0}) bound id (remove_token token) s w' here (
                    thin-IsExclusive s id here.0 (remove_token token here.0.content) here.1
                      (remove_token-IsThinned token here.0.content) w'.kept))
                  (λ _ s' (w'', _, stored).
                    subst (KeepsUnless ⊥ (IsLocksAt bound))
                      (sym (
                        read_node (Unit {0}) s' id (remove_token token here.0.content)
                          (λ node. if is_empty node then attempt (delete_node id) else pure tt)
                          stored))
                      (Keeps-KeepsUnless ⊥ (IsLocksAt bound) _ (
                        drop-Keeps (Unit {0}) bound id
                          (is_empty (remove_token token here.0.content)) s' w'')))
                  (λ _ _ (w'', _, _). w'')))))
        (λ _ _ w'. w')

  -- The lock that a refresh has found is there again afterwards.
  with_token-refresh_token :
      (timeout_at timeout : Option ℕ) (token : Bytes) (node : List (DavLock Element))
      → any (λ l. l.token == token) node ≡ true
      → (l : DavLock Element) × (with_token token (refresh_token timeout_at timeout token node)
          ≡ some l)
  with_token-refresh_token timeout_at timeout token [] h = absurd (ground arith)
  with_token-refresh_token timeout_at timeout token (l ∷ node) h =
      elim (Bool-cases (l.token == token)) [
        | inl here ↦
            (record l { timeout_at = timeout_at; timeout = timeout }, rw here (rw here refl))
        | inr there ↦
            let (found, e) =
              with_token-refresh_token timeout_at timeout token node (ground arith) in
            (found, rw there (rw there e))
      ]

  pub refresh-KeepsUnless :
      (bound now stamp : ℕ) (path : DavPath) (token : Bytes) (timeout : Option ℕ)
      (t : Locks Element)
      → IsLocksAt bound t
      → KeepsUnless
          (¬ IsOnTime stamp timeout)
          (IsLocksAt bound)
          (refresh now stamp path token timeout t)
  unfolding refresh
  refresh-KeepsUnless bound now stamp path token timeout t w =
      let X : Type 0 = ¬ IsOnTime stamp timeout in
      KeepsUnless-next X (λ _ s. IsLocksAt bound s) (IsLocksAt bound) (prune_expired_locks now t) _
        (prune_expired_locks-Keeps (Unit {0}) bound now t w)
        (λ _ s w'. found-KeepsUnless X bound token path s _ w' w' (λ id here held.
          expected-KeepsUnless X (IsLocksAt bound) s id token here.0.content _
            (content_of s id here) (with_token-held token here.0.content held)
            (λ _. deadline-KeepsUnless (IsLocksAt bound) stamp timeout _ s (λ timeout_at.
              let new = refresh_token timeout_at timeout token here.0.content in
              KeepsUnless-next X _ (IsLocksAt bound)
                (update_node id (refresh_token timeout_at timeout token) s) _
                (update_node-Ends (Unit {0}) bound id (refresh_token timeout_at timeout token) s w'
                  here
                  (thin-IsExclusive s id here.0 new here.1
                    (refresh_token-IsThinned timeout_at timeout token here.0.content) w'.kept))
                (λ _ s' (w'', _, stored).
                  let (l, e) =
                    expect_token-held s' id token new stored
                      (with_token-refresh_token timeout_at timeout token here.0.content held) in
                  subst (KeepsUnless X (IsLocksAt bound)) (sym e) w'')
                (λ _ _ (w'', _, _). w'')))))
        (λ _ _ w'. w')
