-- ===== src/Tree/Links.antt =====
-- src/tree.rs: links that are taken out and put in.
use dav_server_rs.Common.{
  ℕ, ◌≡◌, ◌≢◌, sym, subst, some, [], ◌∷◌, PartialEq, ◌==◌, nat_eq, arith, All, inl, inr, Bool-cases,
}
use dav_server_rs.Common.Dict.{Dict, insert, remove, values}
use dav_server_rs.Tree.{Tree, key_of}
use dav_server_rs.Tree.Shape.{IsLink, AreDistinct, AreLinks}

pub All-values {ℓ} :
    {K : Type ℓ} (P : ℕ → Type 0) (m : Dict K ℕ) → All (λ b. P b.1) m → All P (values m)
All-values P [] h = tt
All-values P ((k, i) ∷ m) (p, h) = (p, All-values P m h)

module _ {K : Type 0} ⦃e : PartialEq K⦄ where
  All-remove : (P : K × ℕ → Type 0) (m : Dict K ℕ) (k : K) → All P m → All P (remove m k)
  unfolding remove
  All-remove P [] k h = tt
  All-remove P ((j, i) ∷ m) k (p, h) = elim (Bool-cases (j == k)) [
    | inl same ↦ rw same (All-remove P m k h)
    | inr other ↦ rw other (p, All-remove P m k h)
  ]

  AreDistinct-remove : (m : Dict K ℕ) (k : K) → AreDistinct m → AreDistinct (remove m k)
  unfolding remove
  AreDistinct-remove [] k h = tt
  AreDistinct-remove ((j, i) ∷ m) k (p, h) = elim (Bool-cases (j == k)) [
    | inl same ↦ rw same (AreDistinct-remove m k h)
    | inr other ↦ rw other (All-remove (λ b. b.1 ≢ i) m k p, AreDistinct-remove m k h)
  ]

  -- Taking out the key of a node takes out its only link.
  pub remove-key_of :
      (m : Dict K ℕ) (id : ℕ) (k : K)
      → AreDistinct m
      → key_of id m ≡ some k
      → All (λ b. b.1 ≢ id) (remove m k)
  unfolding remove
  remove-key_of [] id k h e = tt
  remove-key_of ((j, i) ∷ m) id k (p, h) found = elim (Bool-cases (i == id)) [
    | inl here ↦
        let same : i ≡ id = ground arith in
        let rest : All (λ b. b.1 ≢ id) (remove m k) =
          All-remove (λ b. b.1 ≢ id) m k (subst (λ i. All (λ b. b.1 ≢ i) m) same p) in
        let key : j ≡ k = ground arith in rw ((e.same_iff j k).1 key) rest
    | inr there ↦ elim (Bool-cases (j == k)) [
      | inl same ↦ rw same (remove-key_of m id k h (ground arith))
      | inr other ↦ rw other ((λ q. ground arith), remove-key_of m id k h (ground arith))
    ]
  ]

  All-insert :
      (P : K × ℕ → Type 0) (m : Dict K ℕ) (k : K) (i : ℕ)
      → P (k, i)
      → All P m
      → All P (insert m k i)
  unfolding insert
  All-insert P [] k i p h = (p, tt)
  All-insert P ((j, c) ∷ m) k i p (q, h) = elim (Bool-cases (j == k)) [
    | inl same ↦ rw same (p, h)
    | inr other ↦ rw other (q, All-insert P m k i p h)
  ]

  AreDistinct-insert :
      (m : Dict K ℕ) (k : K) (i : ℕ)
      → All (λ b. b.1 ≢ i) m
      → AreDistinct m
      → AreDistinct (insert m k i)
  unfolding insert
  AreDistinct-insert [] k i new h = (tt, tt)
  AreDistinct-insert ((j, c) ∷ m) k i (p, new) (q, h) = elim (Bool-cases (j == k)) [
    | inl same ↦ rw same (new, h)
    | inr other ↦
        rw other
          (All-insert (λ b. b.1 ≢ c) m k i (λ e. p (sym e)) q, AreDistinct-insert m k i new h)
  ]

  module _ {D : Type 0} where
    -- A link is put in to a node that nothing links to.
    pub AreLinks-insert :
        (t : Tree K D) (parent : ℕ) (children : Dict K ℕ) (k : K) (child : ℕ)
        → IsLink t parent child
        → All (λ b. b.1 ≢ child) children
        → AreLinks t parent children
        → AreLinks t parent (insert children k child)
    AreLinks-insert t parent children k child l new (links, distinct) = (
      All-insert (λ b. IsLink t parent b.1) children k child l links,
      AreDistinct-insert children k child new distinct,
    )

    pub AreLinks-remove :
        (t : Tree K D) (parent : ℕ) (children : Dict K ℕ) (k : K)
        → AreLinks t parent children
        → AreLinks t parent (remove children k)
    AreLinks-remove t parent children k (links, distinct) = (
      All-remove (λ b. IsLink t parent b.1) children k links,
      AreDistinct-remove children k distinct,
    )
