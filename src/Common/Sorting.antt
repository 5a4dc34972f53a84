-- ===== src/Common/Sorting.antt =====
-- `sort_by_key`: a stable sort by a Boolean order, and what it keeps.
use mathlib.Core.Path.{◌≡◌}
use mathlib.Core.Logic.{◌⊎◌, ◌↔◌, inl, inr}
use mathlib.Core.Bool.{Bool, true, false}
use mathlib.Core.List.{List, [], ◌∷◌}
use dav_server_rs.Common.Logic.{if◌then◌else◌, Bool-cases}
use dav_server_rs.Common.Lists.{All}

module _ {ℓ} {A : Type ℓ} where
  abbrev pub Any : (A → Type 0) → List A → Type 0
  Any P [] = ⊥
  Any P (x ∷ xs) = P x ⊎ Any P xs

  -- Each element stands in the relation to all that follow it.
  abbrev pub Pairwise : (A → A → Type 0) → List A → Type 0
  Pairwise R [] = Unit
  Pairwise R (x ∷ xs) = All (R x) xs × Pairwise R xs

  module _ (le : A → A → Bool) where
    unfoldable pub sort_insert : A → List A → List A
    sort_insert x [] = x ∷ []
    sort_insert x (y ∷ ys) = if le x y then x ∷ y ∷ ys else y ∷ sort_insert x ys

    unfoldable pub sort_by : List A → List A
    sort_by [] = []
    sort_by (x ∷ xs) = sort_insert x (sort_by xs)

    All-sort_insert :
        (P : A → Type 0) (x : A) (xs : List A) → P x → All P xs → All P (sort_insert x xs)
    unfolding sort_insert
    All-sort_insert P x [] p h = (p, tt)
    All-sort_insert P x (y ∷ ys) p (q, h) = elim (Bool-cases (le x y)) [
      | inl before ↦ rw before (p, (q, h))
      | inr behind ↦ rw behind (q, All-sort_insert P x ys p h)
    ]

    pub All-sort_by : (P : A → Type 0) (xs : List A) → All P xs → All P (sort_by xs)
    unfolding sort_by
    All-sort_by P [] h = tt
    All-sort_by P (x ∷ xs) (p, h) = All-sort_insert P x (sort_by xs) p (All-sort_by P xs h)

    Any-sort_insert :
        (P : A → Type 0) (x : A) (xs : List A) → Any P (sort_insert x xs) ↔ Any P (x ∷ xs)
    unfolding sort_insert
    Any-sort_insert P x [] = ((λ h. h), (λ h. h))
    Any-sort_insert P x (y ∷ ys) = elim (Bool-cases (le x y)) [
      | inl before ↦ rw before ((λ h. h), (λ h. h))
      | inr behind ↦
          let (to, from) = Any-sort_insert P x ys in
          rw behind (
            λ h. elim h [
              | inl p ↦ inr (inl p)
              | inr q ↦ elim (to q) [ inl r ↦ inl r | inr r ↦ inr (inr r) ]
            ],
            λ h. elim h [
              | inl p ↦ inr (from (inl p))
              | inr q ↦ elim q [ inl r ↦ inl r | inr r ↦ inr (from (inr r)) ]
            ],
          )
    ]

    pub Any-sort_by : (P : A → Type 0) (xs : List A) → Any P (sort_by xs) ↔ Any P xs
    unfolding sort_by
    Any-sort_by P [] = ((λ h. h), (λ h. h))
    Any-sort_by P (x ∷ xs) =
        let (to, from) = Any-sort_by P xs in
        let (to', from') = Any-sort_insert P x (sort_by xs) in
        (
          λ h. elim (to' h) [ inl p ↦ inl p | inr q ↦ inr (to q) ],
          λ h. from' (elim h [ inl p ↦ inl p | inr q ↦ inr (from q) ]),
        )

    -- A relation that does not depend on the order is kept.
    module _ (R : A → A → Type 0) (symmetric : (a b : A) → R a b → R b a) where
      Pairwise-sort_insert :
          (x : A) (xs : List A) → All (R x) xs → Pairwise R xs → Pairwise R (sort_insert x xs)
      unfolding sort_insert
      Pairwise-sort_insert x [] h k = (tt, tt)
      Pairwise-sort_insert x (y ∷ ys) (r, h) (below, k) = elim (Bool-cases (le x y)) [
        | inl before ↦ rw before ((r, h), (below, k))
        | inr behind ↦
            rw behind
              (All-sort_insert (R y) x ys (symmetric x y r) below, Pairwise-sort_insert x ys h k)
      ]

      pub Pairwise-sort_by : (xs : List A) → Pairwise R xs → Pairwise R (sort_by xs)
      unfolding sort_by
      Pairwise-sort_by [] h = tt
      Pairwise-sort_by (x ∷ xs) (h, k) =
          Pairwise-sort_insert x (sort_by xs) (All-sort_by (R x) xs h) (Pairwise-sort_by xs k)

    -- The result is ordered, by a relation that the Boolean order decides.
    module _ (Le : A → A → Type 0) (sound : (a b : A) → le a b ≡ true → Le a b)
        (total : (a b : A) → le a b ≡ false → Le b a)
        (trans : (a b c : A) → Le a b → Le b c → Le a c) where
      All-trans : (x y : A) (ys : List A) → Le x y → All (Le y) ys → All (Le x) ys
      All-trans x y [] r h = tt
      All-trans x y (z ∷ ys) r (s, h) = (trans x y z r s, All-trans x y ys r h)

      sort_insert-Pairwise : (x : A) (xs : List A) → Pairwise Le xs → Pairwise Le (sort_insert x xs)
      unfolding sort_insert
      sort_insert-Pairwise x [] h = (tt, tt)
      sort_insert-Pairwise x (y ∷ ys) (below, h) = elim (Bool-cases (le x y)) [
        | inl before ↦
            rw before ((sound x y before, All-trans x y ys (sound x y before) below), (below, h))
        | inr behind ↦
            rw behind
              (All-sort_insert (Le y) x ys (total x y behind) below, sort_insert-Pairwise x ys h)
      ]

      pub sort_by-Pairwise : (xs : List A) → Pairwise Le (sort_by xs)
      unfolding sort_by
      sort_by-Pairwise [] = tt
      sort_by-Pairwise (x ∷ xs) = sort_insert-Pairwise x (sort_by xs) (sort_by-Pairwise xs)
