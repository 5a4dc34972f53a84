-- ===== src/Common/Dict.antt =====
-- `HashMap` as an association list in the order in which one iteration visits it. No theorem
-- depends on that order, which the library leaves open.
use mathlib.Core.Path.{◌≡◌, refl, subst}
use mathlib.Core.Logic.{◌≢◌, inl, inr}
use mathlib.Core.Option.{Option, none, some}
use mathlib.Core.List.{List, [], ◌∷◌}
use native.Mathlib.Omega.{arith}
use dav_server_rs.Common.Logic.{if◌then◌else◌, Bool-cases}
use dav_server_rs.Common.Equality.{PartialEq, ◌==◌}
use dav_server_rs.Common.Lists.{All}

abbrev pub Dict {ℓ κ} : Type ℓ → Type κ → Type (ℓ ⊔ κ)
Dict K V = List (K × V)

module _ {ℓ κ} {K : Type ℓ} {V : Type κ} where
  abbrev pub values : Dict K V → List V
  values [] = []
  values ((k, v) ∷ m) = v ∷ values m

module _ {ℓ κ} {K : Type ℓ} {V : Type κ} ⦃e : PartialEq K⦄ where
  unfoldable pub get : Dict K V → K → Option V
  get [] k = none
  get ((j, v) ∷ m) k = if j == k then some v else get m k

  unfoldable pub remove : Dict K V → K → Dict K V
  remove [] k = []
  remove ((j, v) ∷ m) k = let rest = remove m k in if j == k then rest else (j, v) ∷ rest

  -- A present key keeps its place.
  unfoldable pub insert : Dict K V → K → V → Dict K V
  insert [] k v = (k, v) ∷ []
  insert ((j, w) ∷ m) k v = let rest = insert m k v in if j == k then (k, v) ∷ m else (j, w) ∷ rest

  pub get-remove :
      (m : Dict K V) (k j : K) → get (remove m k) j ≡ (if k == j then none else get m j)
  unfolding get remove
  get-remove [] k j = ground arith
  get-remove ((i, v) ∷ m) k j =
      ground (arith, get-remove m k j, e.same_iff i k, e.same_iff i j, e.same_iff k j)

  pub get-insert :
      (m : Dict K V) (k j : K) (v : V) → get (insert m k v) j ≡ (if k == j then some v else get m j)
  unfolding get insert
  get-insert [] k j v = refl
  get-insert ((i, w) ∷ m) k j v =
      ground (arith, get-insert m k j v, e.same_iff i k, e.same_iff i j, e.same_iff k j)

  pub get-insert_self : (m : Dict K V) (k : K) (v : V) → get (insert m k v) k ≡ some v
  get-insert_self m k v = ground (arith, get-insert m k k v, e.same_iff k k)

  pub get-insert_ne : (m : Dict K V) {k j : K} (v : V) → k ≢ j → get (insert m k v) j ≡ get m j
  get-insert_ne m {k} {j} v h = ground (arith, get-insert m k j v, e.same_iff k j)

  pub get-remove_self : (m : Dict K V) (k : K) → get (remove m k) k ≡ none
  get-remove_self m k = ground (arith, get-remove m k k, e.same_iff k k)

  pub get-remove_ne : (m : Dict K V) {k j : K} → k ≢ j → get (remove m k) j ≡ get m j
  get-remove_ne m {k} {j} h = ground (arith, get-remove m k j, e.same_iff k j)

  pub get_All :
      (P : K → V → Type 0) (m : Dict K V) {k : K} {v : V}
      → All (λ b. P b.0 b.1) m
      → get m k ≡ some v
      → P k v
  unfolding get
  get_All P [] a h = absurd (ground arith)
  get_All P ((j, w) ∷ m) {k} {v} (p, a) h = elim (Bool-cases (j == k)) [
    | inl same ↦
        subst (λ w'. P k w') (ground arith) (subst (λ j'. P j' w) ((e.same_iff j k).0 same) p)
    | inr other ↦ get_All P m a (ground arith)
  ]

  -- No key stands twice.
  abbrev pub HasUniqueKeys : Dict K V → Type ℓ
  HasUniqueKeys [] = Unit
  HasUniqueKeys ((k, v) ∷ m) = All (λ b. b.0 ≢ k) m × HasUniqueKeys m
