-- ===== src/Tree/Monad.antt =====
-- Actions on a state that may fail and leave the state behind, and that may run out of fuel.
use dav_server_rs.Common.{Option, none, some, List, [], ◌∷◌, Result, ok, err}

abbrev pub Action {ℓ κ μ} : Type ℓ → Type κ → Type μ → Type (ℓ ⊔ κ ⊔ μ)
Action S E A = S → Option (Result A E × S)

module _ {ℓ κ μ} {S : Type ℓ} {E : Type κ} {A : Type μ} where
  abbrev pub pure : A → Action S E A
  pure a s = some (ok a, s)

  abbrev pub raise : E → Action S E A
  raise e s = some (err e, s)

  -- The call does not return.
  abbrev pub no_return : Action S E A
  no_return s = none

  -- A method on `&self`.
  abbrev pub reads : (S → Result A E) → Action S E A
  reads f s = some (f s, s)

  abbrev pub lift : Result A E → Action S E A
  lift r s = some (r, s)

  abbrev pub next {ν} :
      {B : Type ν} → Option (Result A E × S) → (A → Action S E B) → Option (Result B E × S)
  next none f = none
  next (some (ok a, s)) f = f a s
  next (some (err e, s)) f = some (err e, s)

  infixl 5 ◌>>=◌ ◌>>◌
  abbrev pub ◌>>=◌ {ν} : {B : Type ν} → Action S E A → (A → Action S E B) → Action S E B
  ◌>>=◌ m f s = next (m s) f

  abbrev pub ◌>>◌ {ν} : {B : Type ν} → Action S E A → Action S E B → Action S E B
  m >> n = m >>= λ _. n

module _ {ℓ κ μ ν} {S : Type ℓ} {E : Type κ} {F : Type ν} {A : Type μ} where
  -- `m.ok();`: the result is dropped, the state is kept.
  abbrev pub attempt : Action S E A → Action S F (Unit {0})
  attempt m s = elim (m s) [ none ↦ none | some (_, s') ↦ some (ok tt, s') ]

  -- `m.unwrap()`: an error panics.
  abbrev pub unwrap : Action S E A → Action S F A
  unwrap m s = elim (m s) [
    | none ↦ none
    | some (r, s') ↦ elim r [ ok a ↦ some (ok a, s') | err _ ↦ none ]
  ]

module _ {ℓ κ} {S : Type ℓ} {E : Type κ} where
  abbrev pub modify : (S → S) → Action S E (Unit {0})
  modify f s = some (ok tt, f s)

  -- `for x in xs { f(x)?; }`
  abbrev pub for_each {μ} :
      {X : Type μ} → (X → Action S E (Unit {0})) → List X → Action S E (Unit {0})
  for_each f [] = pure tt
  for_each f (x ∷ xs) = f x >>= λ _. for_each f xs
