-- ===== src/MemLs/Thinning.antt =====
-- src/memls.rs: what an operation that takes locks out leaves of a tree.
use dav_server_rs.Common.{
  ℕ, ◌≡◌, refl, sym, ap, subst, ◌∙◌, Bool, Option, some, List, [], ◌∷◌, Bytes, ◌==◌, nat_eq,
  list_eq, inl, inr, Bool-cases, retain,
}
use dav_server_rs.Common.Dict.{get}
use dav_server_rs.Ls.{DavLock}
use dav_server_rs.MemLs.{remove_token, refresh_token}
use dav_server_rs.MemLs.Walk.{Locks}
use dav_server_rs.Tree.Shape.{put-cases}
use dav_server_rs.Tree.{Node, put}

module _ {Element : Type 0} where
  -- Some locks are left out; the others keep their kind.
  pub data IsThinned : List (DavLock Element) → List (DavLock Element) → Type 0 where
    done : IsThinned [] []
    drop :
        {l : DavLock Element} {xs ys : List (DavLock Element)}
        → IsThinned xs ys
        → IsThinned xs (l ∷ ys)
    keep :
        {k l : DavLock Element} {xs ys : List (DavLock Element)}
        → k.shared ≡ l.shared
        → k.deep ≡ l.deep
        → IsThinned xs ys
        → IsThinned (k ∷ xs) (l ∷ ys)

  pub IsThinned-refl : (xs : List (DavLock Element)) → IsThinned xs xs
  IsThinned-refl [] = done
  IsThinned-refl (l ∷ xs) = keep refl refl (IsThinned-refl xs)

  pub IsThinned-trans :
      {ys zs : List (DavLock Element)}
      → IsThinned ys zs
      → {xs : List (DavLock Element)} → IsThinned xs ys
      → IsThinned xs zs
  IsThinned-trans done done = done
  IsThinned-trans (drop k) h = drop (IsThinned-trans k h)
  IsThinned-trans (keep s d k) (drop h) = drop (IsThinned-trans k h)
  IsThinned-trans (keep s d k) (keep s' d' h) = keep (s' ∙ s) (d' ∙ d) (IsThinned-trans k h)

  pub retain-IsThinned :
      (p : DavLock Element → Bool) (xs : List (DavLock Element)) → IsThinned (retain p xs) xs
  retain-IsThinned p [] = done
  retain-IsThinned p (l ∷ xs) = elim (Bool-cases (p l)) [
    | inl kept ↦ rw kept (keep refl refl (retain-IsThinned p xs))
    | inr dropped ↦ rw dropped (drop (retain-IsThinned p xs))
  ]

  -- A node of the later tree is one of the earlier tree, with fewer locks and fewer children.
  pub record IsLeft (n' n : Node Bytes (List (DavLock Element))) : Type 0 where
    pub content : IsThinned n'.content n.content
    pub children : (k : Bytes) (c : ℕ) → get n'.children k ≡ some c → get n.children k ≡ some c

  abbrev pub IsPruned : Locks Element → Locks Element → Type 0
  IsPruned old t =
      (i : ℕ) (n' : Node Bytes (List (DavLock Element)))
      → get t.nodes i ≡ some n'
      → (n : Node Bytes (List (DavLock Element))) × (get old.nodes i ≡ some n) × IsLeft n' n

  pub IsPruned-refl : (t : Locks Element) → IsPruned t t
  IsPruned-refl t i n h =
      (n, h, record { content = IsThinned-refl n.content; children = λ k c e. e })

  -- One node of a pruned tree is replaced by what is left of it.
  pub put-IsPruned :
      (old t : Locks Element) (id : ℕ) (n n' : Node Bytes (List (DavLock Element)))
      → get t.nodes id ≡ some n
      → IsLeft n' n
      → IsPruned old t
      → IsPruned old (put id n' t)
  put-IsPruned old t id n n' found left h i m there = elim (put-cases t id n n' found i m there) [
    | inr (_, kept) ↦ h i m kept
    | inl (here, new) ↦
        let (o, was, l) = h id n found in
        (
          o,
          ap (get old.nodes) (sym here) ∙ was,
          subst (λ (m : Node Bytes (List (DavLock Element))). IsLeft m o) new
              (record {
                content = IsThinned-trans l.content left.content;
                children = λ k c e. l.children k c (left.children k c e);
              }),
        )
  ]

  pub remove_token-IsThinned :
      (token : Bytes) (node : List (DavLock Element)) → IsThinned (remove_token token node) node
  remove_token-IsThinned token [] = done
  remove_token-IsThinned token (l ∷ node) = elim (Bool-cases (l.token == token)) [
    | inl here ↦ rw here (drop (IsThinned-refl node))
    | inr there ↦ rw there (keep refl refl (remove_token-IsThinned token node))
  ]

  pub refresh_token-IsThinned :
      (timeout_at timeout : Option ℕ) (token : Bytes) (node : List (DavLock Element))
      → IsThinned (refresh_token timeout_at timeout token node) node
  refresh_token-IsThinned timeout_at timeout token [] = done
  refresh_token-IsThinned timeout_at timeout token (l ∷ node) =
      elim (Bool-cases (l.token == token)) [
        | inl here ↦ rw here (keep refl refl (IsThinned-refl node))
        | inr there ↦
            rw there (keep refl refl (refresh_token-IsThinned timeout_at timeout token node))
      ]
