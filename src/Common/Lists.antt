-- ===== src/Common/Lists.antt =====
-- Lists over the native numbers, and bytes.
use Prim.Native.Nat.{ℕ, zero, suc, ◌+◌, ◌%◌, ◌≤◌, ◌<◌, ◌-◌}
use Prim.Native.Char.{code}
use Prim.Native.String.{String}
use mathlib.Core.Path.{◌≡◌, refl, ap, sym, ◌∙◌}
use mathlib.Core.Logic.{◌⊎◌, inl, inr}
use mathlib.Core.Bool.{Bool, true, false, ◌&&◌, ◌||◌}
use mathlib.Core.Option.{Option, none, some}
use mathlib.Core.List.{List, [], ◌∷◌, ◌++◌, append_assoc, reverse, reverse-cons}
use native.Mathlib.Omega.{arith}
use dav_server_rs.Common.Logic.{if◌then◌else◌, Bool-cases}
use dav_server_rs.Common.Equality.{PartialEq, ◌==◌}

-- `u8` slices, and `str`s as their UTF-8.
abbrev pub Bytes : Type 0
Bytes = List ℕ

-- A literal of the source: its bytes, since it is ASCII.
abbrev pub codes : String → Bytes
codes String.[] = []
codes (String.◌∷◌ c s) = code c ∷ codes s

-- Rust's `u64` addition of one.
abbrev pub wrapping_succ : ℕ → ℕ
wrapping_succ n = (n + 1) % 18446744073709551616

module _ {ℓ} {A : Type ℓ} where
  abbrev pub length : List A → ℕ
  length [] = 0
  length (x ∷ xs) = suc (length xs)

  abbrev pub is_empty : List A → Bool
  is_empty [] = true
  is_empty (x ∷ xs) = false

  abbrev pub any : (A → Bool) → List A → Bool
  any p [] = false
  any p (x ∷ xs) = p x || any p xs

  abbrev pub all : (A → Bool) → List A → Bool
  all p [] = true
  all p (x ∷ xs) = p x && all p xs

  -- `iter.find(p)`
  abbrev pub find : (A → Bool) → List A → Option A
  find p [] = none
  find p (x ∷ xs) = if p x then some x else find p xs

  -- `iter.filter(p)`, `Vec::retain`
  abbrev pub retain : (A → Bool) → List A → List A
  retain p [] = []
  retain p (x ∷ xs) = if p x then x ∷ retain p xs else retain p xs

  abbrev pub take : ℕ → List A → List A
  take zero xs = []
  take (suc n) [] = []
  take (suc n) (x ∷ xs) = x ∷ take n xs

  abbrev pub drop : ℕ → List A → List A
  drop zero xs = xs
  drop (suc n) [] = []
  drop (suc n) (x ∷ xs) = drop n xs

  abbrev pub get_elem? : List A → ℕ → Option A
  get_elem? [] i = none
  get_elem? (x ∷ xs) zero = some x
  get_elem? (x ∷ xs) (suc i) = get_elem? xs i

  abbrev pub get_last? : List A → Option A
  get_last? [] = none
  get_last? (x ∷ []) = some x
  get_last? (x ∷ y ∷ r) = get_last? (y ∷ r)

  -- The list without its last element (`Vec::pop`, `&v[..v.len() - 1]`).
  abbrev pub init : List A → List A
  init [] = []
  init (x ∷ []) = []
  init (x ∷ y ∷ r) = x ∷ init (y ∷ r)

  pub length-append : (xs ys : List A) → length (xs ++ ys) ≡ length xs + length ys
  length-append [] ys = omega arith
  length-append (x ∷ xs) ys = omega (arith, length-append xs ys)

  pub is_empty-append : (xs : List A) (y : A) (ys : List A) → is_empty (xs ++ y ∷ ys) ≡ false
  is_empty-append [] y ys = refl
  is_empty-append (x ∷ xs) y ys = refl

  pub get_last?-concat : (xs : List A) (x : A) → get_last? (xs ++ x ∷ []) ≡ some x
  get_last?-concat [] x = refl
  get_last?-concat (y ∷ []) x = refl
  get_last?-concat (y ∷ z ∷ r) x = get_last?-concat (z ∷ r) x

  pub init-concat : (xs : List A) (x : A) → init (xs ++ x ∷ []) ≡ xs
  init-concat [] x = refl
  init-concat (y ∷ []) x = refl
  init-concat (y ∷ z ∷ r) x = ap (λ t. y ∷ t) (init-concat (z ∷ r) x)

  -- The last two elements popped.
  pub init-init-append : (xs : List A) (a b : A) → init (init (xs ++ a ∷ b ∷ [])) ≡ xs
  init-init-append xs a b =
      ap init (ap init (sym (append_assoc xs (a ∷ []) (b ∷ []))) ∙ init-concat (xs ++ a ∷ []) b)
      ∙ init-concat xs a

  pub drop-append : (xs ys : List A) → drop (length xs) (xs ++ ys) ≡ ys
  drop-append [] ys = refl
  drop-append (x ∷ xs) ys = drop-append xs ys

  pub take-append : (xs ys : List A) → take (length xs) (xs ++ ys) ≡ xs
  take-append [] ys = refl
  take-append (x ∷ xs) ys = ap (λ t. x ∷ t) (take-append xs ys)

module _ {ℓ} {A : Type ℓ} where
  pub length-take : (n : ℕ) (xs : List A) → n ≤ length xs → length (take n xs) ≡ n
  length-take zero xs h = refl
  length-take (suc n) [] h = absurd (omega arith)
  length-take (suc n) (x ∷ xs) h = omega (arith, length-take n xs)

  pub take-append-drop : (n : ℕ) (xs : List A) → take n xs ++ drop n xs ≡ xs
  take-append-drop zero xs = refl
  take-append-drop (suc n) [] = refl
  take-append-drop (suc n) (x ∷ xs) = ap (λ t. x ∷ t) (take-append-drop n xs)

  -- What follows the first part of a list can be replaced.
  pub take-append_take :
      (n : ℕ) (xs ys : List A) → n ≤ length xs → take n (take n xs ++ ys) ≡ take n xs
  take-append_take zero xs ys h = refl
  take-append_take (suc n) [] ys h = absurd (omega arith)
  take-append_take (suc n) (x ∷ xs) ys h = ap (λ t. x ∷ t) (take-append_take n xs ys (omega arith))

  pub drop-append_take : (n : ℕ) (xs ys : List A) → n ≤ length xs → drop n (take n xs ++ ys) ≡ ys
  drop-append_take zero xs ys h = refl
  drop-append_take (suc n) [] ys h = absurd (omega arith)
  drop-append_take (suc n) (x ∷ xs) ys h = drop-append_take n xs ys (omega arith)

module _ {ℓ} {A : Type ℓ} where
  pub length-drop_le : (n : ℕ) (xs : List A) → length (drop n xs) ≤ length xs
  length-drop_le zero xs = omega arith
  length-drop_le (suc n) [] = omega arith
  length-drop_le (suc n) (x ∷ xs) = omega (arith, length-drop_le n xs)

  pub List-cases : (xs : List A) → (xs ≡ []) ⊎ ((x : A) × (r : List A) × (xs ≡ x ∷ r))
  List-cases [] = inl refl
  List-cases (x ∷ r) = inr (x, r, refl)

  pub drop_of_get_elem? :
      (xs : List A) (i : ℕ) {x : A} → get_elem? xs i ≡ some x → drop i xs ≡ x ∷ drop (suc i) xs
  drop_of_get_elem? [] i h = absurd (ground arith)
  drop_of_get_elem? (y ∷ xs) zero h = ground arith
  drop_of_get_elem? (y ∷ xs) (suc i) h = drop_of_get_elem? xs i h

  pub lt-length_of_get_elem? :
      (xs : List A) (i : ℕ) {x : A} → get_elem? xs i ≡ some x → i < length xs
  lt-length_of_get_elem? [] i h = absurd (ground arith)
  lt-length_of_get_elem? (y ∷ xs) zero h = omega arith
  lt-length_of_get_elem? (y ∷ xs) (suc i) h = omega (arith, lt-length_of_get_elem? xs i h)

  pub take-length_pred :
      (xs ys : List A) → is_empty xs ≡ false → take (length xs - 1) (xs ++ ys) ≡ init xs
  take-length_pred [] ys h = absurd (ground arith)
  take-length_pred (x ∷ []) ys h = refl
  take-length_pred (x ∷ y ∷ r) ys h =
      let e : suc (suc (length r)) - 1 ≡ suc (suc (length r) - 1) = omega arith in
      rw e (ap (λ t. x ∷ t) (take-length_pred (y ∷ r) ys refl))

-- `xs` without its prefix `p`, if it has that prefix.
module _ {ℓ} {A : Type ℓ} ⦃e : PartialEq A⦄ where
  abbrev pub starts_with : List A → List A → Bool
  starts_with xs [] = true
  starts_with [] (y ∷ ys) = false
  starts_with (x ∷ xs) (y ∷ ys) = (x == y) && starts_with xs ys

  pub starts_with_sound :
      (xs ys : List A) → starts_with xs ys ≡ true → xs ≡ ys ++ drop (length ys) xs
  starts_with_sound xs [] h = refl
  starts_with_sound [] (y ∷ ys) h = ground arith
  starts_with_sound (x ∷ xs) (y ∷ ys) h = ground (arith, e.same_iff x y, starts_with_sound xs ys)

  pub starts_with-append : (ys zs : List A) → starts_with (ys ++ zs) ys ≡ true
  starts_with-append [] zs = refl
  starts_with-append (y ∷ ys) zs = ground (arith, e.same_iff y y, starts_with-append ys zs)

  -- `v.ends_with(&[x])`
  abbrev pub ends_with_byte : List A → A → Bool
  ends_with_byte xs x = elim (get_last? xs) [ none ↦ false | some y ↦ y == x ]

module _ {ℓ κ} {A : Type ℓ} (P : A → Type κ) where
  abbrev pub All : List A → Type κ
  All [] = Unit
  All (x ∷ xs) = P x × All xs

  pub All-append : (xs ys : List A) → All xs → All ys → All (xs ++ ys)
  All-append [] ys _ h = h
  All-append (x ∷ xs) ys (p, h) k = (p, All-append xs ys h k)

  pub All-append_inv : (xs ys : List A) → All (xs ++ ys) → All xs × All ys
  All-append_inv [] ys h = (tt, h)
  All-append_inv (x ∷ xs) ys (p, h) = let (h, k) = All-append_inv xs ys h in ((p, h), k)

  pub All-reverse : (xs : List A) → All xs → All (reverse xs)
  All-reverse [] h = tt
  All-reverse (x ∷ xs) (p, h) =
      rw reverse-cons (All-append (reverse xs) (x ∷ []) (All-reverse xs h) (p, tt))

-- `iter.position(p)`
abbrev pub position {ℓ} : {A : Type ℓ} → (A → Bool) → List A → Option ℕ
position p [] = none
position p (x ∷ xs) =
    let rest = position p xs in
    if p x then some 0 else elim rest [ none ↦ none | some i ↦ some (suc i) ]

-- `v.join(&b""[..])`
abbrev pub concat {ℓ} : {A : Type ℓ} → List (List A) → List A
concat [] = []
concat (xs ∷ xss) = xs ++ concat xss

pub concat-append {ℓ} :
    {A : Type ℓ} (xss yss : List (List A)) → concat (xss ++ yss) ≡ concat xss ++ concat yss
concat-append [] yss = refl
concat-append (xs ∷ xss) yss = rw (concat-append xss yss, append_assoc) refl

abbrev pub cons_head {ℓ} : {A : Type ℓ} → A → List (List A) → List (List A)
cons_head x [] = (x ∷ []) ∷ []
cons_head x (s ∷ ss) = (x ∷ s) ∷ ss

-- `slice.split(|&x| x == c)`: the parts between the separators, one at least.
abbrev pub split_on {ℓ} : {A : Type ℓ} ⦃e : PartialEq A⦄ → A → List A → List (List A)
split_on c [] = [] ∷ []
split_on c (x ∷ xs) = let rest = split_on c xs in if x == c then [] ∷ rest else cons_head x rest

abbrev pub zeros : ℕ → Bytes
zeros zero = []
zeros (suc n) = 0 ∷ zeros n

pub length-zeros : (n : ℕ) → length (zeros n) ≡ n
length-zeros zero = refl
length-zeros (suc n) = omega (arith, length-zeros n)

module _ {ℓ} {A : Type ℓ} (p : A → Bool) where
  pub retain-All : (xs : List A) → All (λ x. p x ≡ true) (retain p xs)
  retain-All [] = tt
  retain-All (x ∷ xs) = elim (Bool-cases (p x)) [
    | inl kept ↦ rw kept (kept, retain-All xs)
    | inr dropped ↦ rw dropped (retain-All xs)
  ]

  pub All-retain_inv :
      (P : A → Type 0) (xs : List A) → All P (retain p xs) → All (λ x. p x ≡ true → P x) xs
  All-retain_inv P [] h = tt
  All-retain_inv P (x ∷ xs) h = elim (Bool-cases (p x)) [
    | inl kept ↦ let (q, h) = rw kept at h in ((λ _. q), All-retain_inv P xs h)
    | inr dropped ↦ ((λ kept. absurd (ground arith)), All-retain_inv P xs (rw dropped at h))
  ]

  -- What is kept has the property where it is kept for it.
  pub All-retain :
      (P : A → Type 0) (xs : List A) → All (λ x. p x ≡ true → P x) xs → All P (retain p xs)
  All-retain P [] h = tt
  All-retain P (x ∷ xs) (q, h) = elim (Bool-cases (p x)) [
    | inl kept ↦ rw kept (q kept, All-retain P xs h)
    | inr dropped ↦ rw dropped (All-retain P xs h)
  ]

  pub find-none : (xs : List A) → find p xs ≡ none → All (λ x. p x ≡ false) xs
  find-none [] h = tt
  find-none (x ∷ xs) h = elim (Bool-cases (p x)) [
    | inl kept ↦ absurd (ground arith)
    | inr dropped ↦ (dropped, find-none xs (rw dropped at h))
  ]

  pub any-false : ((x : A) → p x ≡ false) → (xs : List A) → any p xs ≡ false
  any-false h [] = refl
  any-false h (x ∷ xs) = rw (h x) (any-false h xs)
