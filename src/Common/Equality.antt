-- ===== src/Common/Equality.antt =====
-- Boolean tests on numbers, bytes and options: `==` is one operator with an instance for each type.
use Prim.Native.Nat.{ℕ, compare, Ordering}
use mathlib.Core.Path.{◌≡◌, refl}
use mathlib.Core.Logic.{◌↔◌, ◌≢◌}
use mathlib.Core.Bool.{Bool, true, false, ◌&&◌}
use mathlib.Core.Option.{Option, none, some}
use mathlib.Core.List.{List, [], ◌∷◌}
use native.Mathlib.Omega.{arith}

abbrev pub ltb : ℕ → ℕ → Bool
ltb a b = elim (compare a b) [ Ordering.lt ↦ true | _ ↦ false ]

abbrev pub leb : ℕ → ℕ → Bool
leb a b = elim (compare a b) [ Ordering.gt ↦ false | _ ↦ true ]

abbrev pub nat_beq : ℕ → ℕ → Bool
nat_beq a b = elim (compare a b) [ Ordering.eq ↦ true | _ ↦ false ]

pub nat_beq_iff : (a b : ℕ) → (nat_beq a b ≡ true) ↔ (a ≡ b)
nat_beq_iff a b = ground arith

-- A type whose values the code compares by `==`.
infix 50 ◌==◌
pub record PartialEq {ℓ} (A : Type ℓ) : Type ℓ where
  pub same : A → A → Bool
  pub same_iff : (x y : A) → (same x y ≡ true) ↔ (x ≡ y)

-- Numbers, and bytes.
instance abbrev pub nat_eq : PartialEq ℕ
nat_eq = record { same = nat_beq; same_iff = nat_beq_iff }

abbrev pub ◌==◌ {ℓ} : {A : Type ℓ} → ⦃e : PartialEq A⦄ → (x y : A) → Bool
◌==◌ ⦃e⦄ x y = e.same x y

module _ {ℓ} {A : Type ℓ} ⦃e : PartialEq A⦄ where
  pub eq_of_beq : {a b : A} → (a == b) ≡ true → a ≡ b
  eq_of_beq {a} {b} h = (e.same_iff a b).0 h

  pub beq_refl : (a : A) → (a == a) ≡ true
  beq_refl a = (e.same_iff a a).1 refl

  pub beq_of_ne : {a b : A} → a ≢ b → (a == b) ≡ false
  beq_of_ne {a} {b} h = ground (arith, e.same_iff a b)

  pub ne_of_beq : {a b : A} → (a == b) ≡ false → a ≢ b
  ne_of_beq {a} {b} h = ground (arith, e.same_iff a b)

  abbrev pub list_beq : List A → List A → Bool
  list_beq [] [] = true
  list_beq (x ∷ xs) (y ∷ ys) = e.same x y && list_beq xs ys
  list_beq _ _ = false

  pub list_beq_iff : (xs ys : List A) → (list_beq xs ys ≡ true) ↔ (xs ≡ ys)
  list_beq_iff [] [] = ground arith
  list_beq_iff [] (y ∷ ys) = ground arith
  list_beq_iff (x ∷ xs) [] = ground arith
  list_beq_iff (x ∷ xs) (y ∷ ys) = ground (arith, e.same_iff x y, list_beq_iff xs ys)

  abbrev pub option_beq : Option A → Option A → Bool
  option_beq none none = true
  option_beq (some x) (some y) = e.same x y
  option_beq _ _ = false

  pub option_beq_iff : (x y : Option A) → (option_beq x y ≡ true) ↔ (x ≡ y)
  option_beq_iff none none = ground arith
  option_beq_iff none (some y) = ground arith
  option_beq_iff (some x) none = ground arith
  option_beq_iff (some x) (some y) = ground (arith, e.same_iff x y)

  instance abbrev pub list_eq : PartialEq (List A)
  list_eq = record { same = list_beq; same_iff = list_beq_iff }

  instance abbrev pub option_eq : PartialEq (Option A)
  option_eq = record { same = option_beq; same_iff = option_beq_iff }
