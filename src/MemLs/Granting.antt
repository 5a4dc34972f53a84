-- ===== src/MemLs/Granting.antt =====
-- src/memls.rs: what the two checks of `lock` find out about the tree.
use dav_server_rs.Common.{
  ℕ, zero, suc, ◌+◌, ◌≤◌, ◌<◌, ◌≡◌, refl, sym, ap, subst, ◌∙◌, Bool, true, false, not, ◌&&◌, ◌||◌,
  none, some, List, [], ◌∷◌, Result, ok, Bytes, All, find-none, any-false, arith, nat_eq, list_eq,
  option_eq, inl, inr, ◌⊎◌, Bool-cases, Option-cases, Result-cases, find,
}
use dav_server_rs.Common.Dict.{Dict, get, values}
use dav_server_rs.Ls.{DavLock}
use dav_server_rs.MemLs.Agreement.{verdict}
use dav_server_rs.MemLs.Check.{Query, holds, check_node, check_locks_from_node}
use dav_server_rs.MemLs.Exclusion.{HasChild, Leads, stop, down}
use dav_server_rs.MemLs.Paths.{children_of}
use dav_server_rs.MemLs.Room.{Fits, All-get}
use dav_server_rs.MemLs.Walk.{Locks}
use dav_server_rs.Tree.{Node, get_node}
use dav_server_rs.Tree.Ends.{Ends, Ends-next, Ends-weaken}
use dav_server_rs.Tree.Monad.{Action, for_each}
use dav_server_rs.Tree.Links.{All-values}
use dav_server_rs.Tree.Shape.{IsTree, IsLink, All-weaken}

-- What `lock` asks for.
abbrev pub lock_query : Bool → Query
lock_query shared = record {
  principal = none;
  ignore_principal = true;
  submitted_tokens = [];
  shared_ok = shared;
}

All-values_inv : (P : ℕ → Type 0) (m : Dict Bytes ℕ) → All P (values m) → All (λ b. P b.1) m
All-values_inv P [] h = tt
All-values_inv P ((k, i) ∷ m) (p, h) = (p, All-values_inv P m h)

module _ {Element : Type 0} where
  -- The first step of a way.
  pub Leads-first :
      (t : Locks Element) (i j : ℕ)
      → Leads t i j
      → (i ≡ j) ⊎ ((c : ℕ) × HasChild t i c × Leads t c j)
  Leads-first t i _ stop = inl refl
  Leads-first t i _ (down {j = j} {c = d} way link) = elim (Leads-first t i j way) [
    | inl here ↦ inr (d, subst (λ i. HasChild t i d) (sym here) link, stop)
    | inr (c, first, rest) ↦ inr (c, first, down rest link)
  ]

  -- Rounds that change nothing.
  for_each-Ends :
      {E : Type 0} (P : ℕ → Type 0) (f : ℕ → Action (Locks Element) E (Unit {0})) (xs : List ℕ)
      (t : Locks Element)
      → All (λ x. Ends (λ r s. (s ≡ t) × (r ≡ ok tt → P x)) (f x t)) xs
      → Ends (λ r s. (s ≡ t) × (r ≡ ok tt → All P xs)) (for_each f xs t)
  for_each-Ends P f [] t h = (refl, λ _. tt)
  for_each-Ends P f (x ∷ xs) t (h, hs) =
      Ends-next (λ r s. (s ≡ t) × (r ≡ ok tt → P x)) (λ r s. (s ≡ t) × (r ≡ ok tt → All P (x ∷ xs)))
        (f x t) (λ _. for_each f xs) h
        (λ _ s (same, p).
          subst (λ s. Ends (λ r s. (s ≡ t) × (r ≡ ok tt → All P (x ∷ xs))) (for_each f xs s))
            (sym same)
            (Ends-weaken (λ r s. (s ≡ t) × (r ≡ ok tt → All P xs)) _ (for_each f xs t)
              (for_each-Ends P f xs t hs) (λ r s (same, ps). (same, λ e. (p refl, ps e)))))
        (λ e s (same, _). (same, λ r. cc))

  module _ (shared deep : Bool) where
    holds_none : (l : DavLock Element) → holds (lock_query shared) l ≡ false
    unfolding holds
    holds_none l = refl

    pub verdict-Fits :
        (locks : List (DavLock Element))
        → verdict (lock_query shared) locks ≡ ok tt
        → All (Fits shared deep) locks
    verdict-Fits locks h =
        elim (Option-cases (find (λ l. not (holds (lock_query shared) l) && not l.shared) locks)) [
          | inr (l, found) ↦ absurd (ground arith)
          | inl free ↦ elim (Bool-cases shared) [
            | inl yes_shared ↦
                All-weaken _ (Fits shared deep) locks
                  (λ l unmatched. (ground (arith, holds_none l), yes_shared))
                  (find-none (λ l. not (holds (lock_query shared) l) && not l.shared) locks free)
            | inr not_shared ↦
                All-weaken _ (Fits shared deep) locks
                  (λ l unmatched. absurd (ground (arith, holds_none l)))
                  (find-none (λ l. not (holds (lock_query shared) l)) locks
                    (ground (arith, any-false (holds (lock_query shared)) holds_none locks)))
          ]
        ]

    check_node-Fits :
        (locks : List (DavLock Element))
        → check_node (lock_query shared) locks ≡ ok tt
        → All (Fits shared deep) locks
    unfolding check_node
    check_node-Fits [] h = tt
    check_node-Fits (l ∷ locks) h = elim (Bool-cases (not l.shared || not shared)) [
      | inl clash ↦ absurd (ground arith)
      | inr free ↦ ((ground arith, ground arith), check_node-Fits locks (ground arith))
    ]

    abbrev pub AreFittingFrom : Locks Element → ℕ → Type 0
    AreFittingFrom t id =
        (j : ℕ) (m : Node Bytes (List (DavLock Element)))
        → Leads t id j
        → get t.nodes j ≡ some m
        → All (Fits shared deep) m.content

    -- The check below a node changes nothing; where it passes, the locks there are no obstacle.
    abbrev pub Clears :
        Locks Element → ℕ → Result (Unit {0}) (DavLock Element) → Locks Element → Type 0
    Clears t id r s = (s ≡ t) × (r ≡ ok tt → AreFittingFrom t id)

    clear_from :
        (t : Locks Element) (id : ℕ) (n : Node Bytes (List (DavLock Element)))
        → get t.nodes id ≡ some n
        → All (Fits shared deep) n.content
        → All (AreFittingFrom t) (values n.children)
        → AreFittingFrom t id
    clear_from t id n found own below j m way there = elim (Leads-first t id j way) [
      | inl here ↦
          let same : some n ≡ some m = sym found ∙ ap (get t.nodes) here ∙ there in
          let one : n ≡ m = cc in
          subst (λ (m : Node Bytes (List (DavLock Element))). All (Fits shared deep) m.content) one
            own
      | inr (c, (n', key, found', linked), rest) ↦
          let same : some n' ≡ some n = sym found' ∙ found in
          let one : n' ≡ n = cc in
          let linked' : get n.children key ≡ some c =
            subst (λ (n : Node Bytes (List (DavLock Element))). get n.children key ≡ some c) one
              linked in
          All-get (AreFittingFrom t) n.children key c
            (All-values_inv (AreFittingFrom t) n.children below) linked' j m rest there
    ]

    pub check_locks_from_node-Ends :
        (fuel id : ℕ) (t : Locks Element)
        → 0 < fuel
        → t.node_id ≤ fuel + id
        → IsTree t
        → Ends (Clears t id) (check_locks_from_node fuel (lock_query shared) id t)
    unfolding check_locks_from_node get_node
    check_locks_from_node-Ends zero id t more enough w = absurd (omega arith)
    check_locks_from_node-Ends (suc fuel) id t more enough w =
        elim (Option-cases (get t.nodes id)) [
          | inl missing ↦
              rw (missing, get_node, check_locks_from_node)
                (
                  refl,
                  λ _ j m way there. elim (Leads-first t id j way) [
                    | inl here ↦ absurd (ground (arith, ap (get t.nodes) here))
                    | inr (c, (n, key, found, linked), rest) ↦ absurd (ground arith)
                  ],
                )
          | inr (n, found) ↦ elim (Result-cases (check_node (lock_query shared) n.content)) [
            | inr (l, clash) ↦ rw (found, clash, get_node, check_locks_from_node) (refl, λ r. cc)
            | inl (_, free) ↦
                rw (found, free, get_node, check_locks_from_node, children_of t id (n, found))
                  (Ends-weaken
                    (λ r s. (s ≡ t) × (r ≡ ok tt → All (AreFittingFrom t) (values n.children)))
                    (Clears t id) _
                    (for_each-Ends (AreFittingFrom t)
                      (check_locks_from_node fuel (lock_query shared)) (values n.children) t
                      (All-values
                        (λ c.
                          Ends (Clears t c) (check_locks_from_node fuel (lock_query shared) c t))
                        n.children
                        (All-weaken (λ b. IsLink t id b.1) _ n.children
                          (λ b l.
                            (let later = l.later in
                              check_locks_from_node-Ends fuel b.1 t
                                (omega (arith, w.bounded b.1 l.node l.present)) (omega arith) w))
                          (w.linked id n found).0)))
                    (λ r s (same, h).
                      (same, λ e. clear_from t id n found (check_node-Fits n.content free) (h e))))
          ]
        ]
