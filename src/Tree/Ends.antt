-- ===== src/Tree/Ends.antt =====
-- What an action ends in: it returns, and its result and the state that it leaves satisfy a predicate.
use dav_server_rs.Common.{
  Bool, true, false, if◌then◌else◌, refl, ◌≡◌, inl, inr, Result-cases, Option, none, some, List, [],
  ◌∷◌, Result, ok, err, All,
}
use dav_server_rs.Tree.Monad.{reads, ◌>>=◌, Action, next, attempt, for_each}

module _ {ℓ κ μ} {S : Type ℓ} {E : Type κ} {A : Type μ} where
  abbrev pub Ends : (Result A E → S → Type 0) → Option (Result A E × S) → Type 0
  Ends Q none = ⊥
  Ends Q (some (r, s)) = Q r s

  -- The rule of consequence.
  pub Ends-weaken :
      (Q R : Result A E → S → Type 0) (o : Option (Result A E × S))
      → Ends Q o
      → ((r : Result A E) (s : S) → Q r s → R r s)
      → Ends R o
  Ends-weaken Q R none q weaken = q
  Ends-weaken Q R (some (r, s)) q weaken = weaken r s q

  pub Ends-and :
      (Q R : Result A E → S → Type 0) (o : Option (Result A E × S))
      → Ends Q o
      → Ends R o
      → Ends (λ r s. Q r s × R r s) o
  Ends-and Q R none q r = q
  Ends-and Q R (some (_, s)) q r = (q, r)

  -- A property of the state, whatever the result.
  abbrev pub Keeps : (S → Type 0) → Option (Result A E × S) → Type 0
  Keeps P o = Ends (λ _ s. P s) o

  -- The same, or that holds where the action does not return.
  abbrev pub KeepsUnless : Type 0 → (S → Type 0) → Option (Result A E × S) → Type 0
  KeepsUnless X P none = X
  KeepsUnless X P (some (r, s)) = P s

  pub Keeps-KeepsUnless :
      (X : Type 0) (P : S → Type 0) (o : Option (Result A E × S)) → Keeps P o → KeepsUnless X P o
  Keeps-KeepsUnless X P none h = absurd h
  Keeps-KeepsUnless X P (some (r, s)) h = h

  pub KeepsUnless-Keeps :
      (P : S → Type 0) (o : Option (Result A E × S)) → KeepsUnless ⊥ P o → Keeps P o
  KeepsUnless-Keeps P none h = h
  KeepsUnless-Keeps P (some (r, s)) h = h

  -- What holds where the action returns without an error.
  abbrev pub OnOk : (A → S → Type 0) → Option (Result A E × S) → Type 0
  OnOk Q none = Unit
  OnOk Q (some (ok a, s)) = Q a s
  OnOk Q (some (err e, s)) = Unit

  pub OnOk-weaken :
      (Q R : A → S → Type 0) (o : Option (Result A E × S))
      → OnOk Q o
      → ((a : A) (s : S) → Q a s → R a s)
      → OnOk R o
  OnOk-weaken Q R none q weaken = tt
  OnOk-weaken Q R (some (ok a, s)) q weaken = weaken a s q
  OnOk-weaken Q R (some (err e, s)) q weaken = tt

  pub if-OnOk :
      (Q : A → S → Type 0) (b : Bool) (x y : Action S E A) (s : S)
      → (b ≡ true → OnOk Q (x s))
      → (b ≡ false → OnOk Q (y s))
      → OnOk Q ((if b then x else y) s)
  if-OnOk Q true x y s h k = h refl
  if-OnOk Q false x y s h k = k refl

module _ {ℓ κ μ ν} {S : Type ℓ} {E : Type κ} {A : Type μ} {B : Type ν} where
  pub OnOk-next :
      (Q : A → S → Type 0) (R : B → S → Type 0) (o : Option (Result A E × S)) (f : A → Action S E B)
      → OnOk Q o
      → ((a : A) (s : S) → Q a s → OnOk R (f a s))
      → OnOk R (next o f)
  OnOk-next Q R none f q h = tt
  OnOk-next Q R (some (ok a, s)) f q h = h a s q
  OnOk-next Q R (some (err e, s)) f q h = tt

  pub KeepsUnless-next :
      (X : Type 0) (Q : Result A E → S → Type 0) (P : S → Type 0) (o : Option (Result A E × S))
      (f : A → Action S E B)
      → Ends Q o
      → ((a : A) (s : S) → Q (ok a) s → KeepsUnless X P (f a s))
      → ((e : E) (s : S) → Q (err e) s → P s)
      → KeepsUnless X P (next o f)
  KeepsUnless-next X Q P none f q on_ok on_err = absurd q
  KeepsUnless-next X Q P (some (ok a, s)) f q on_ok on_err = on_ok a s q
  KeepsUnless-next X Q P (some (err e, s)) f q on_ok on_err = on_err e s q

  pub Ends-next :
      (Q : Result A E → S → Type 0) (R : Result B E → S → Type 0) (o : Option (Result A E × S))
      (f : A → Action S E B)
      → Ends Q o
      → ((a : A) (s : S) → Q (ok a) s → Ends R (f a s))
      → ((e : E) (s : S) → Q (err e) s → R (err e) s)
      → Ends R (next o f)
  Ends-next Q R none f q on_ok on_err = q
  Ends-next Q R (some (ok a, s)) f q on_ok on_err = on_ok a s q
  Ends-next Q R (some (err e, s)) f q on_ok on_err = on_err e s q

module _ {ℓ κ μ} {S : Type ℓ} {E : Type κ} {X : Type μ} (P : S → Type 0) where
  pub for_each-Keeps :
      (f : X → Action S E (Unit {0})) (xs : List X) (s : S)
      → All (λ x. (s : S) → P s → Keeps P (f x s)) xs
      → P s
      → Keeps P (for_each f xs s)
  for_each-Keeps f [] s h p = p
  for_each-Keeps f (x ∷ xs) s (h, hs) p =
      Ends-next (λ _ s. P s) (λ _ s. P s) (f x s) (λ _. for_each f xs) (h s p)
        (λ _ s' p'. for_each-Keeps f xs s' hs p') (λ _ _ p'. p')

module _ {ℓ κ μ ν} {S : Type ℓ} {E : Type κ} {A : Type μ} (F : Type ν) (P : S → Type 0) where
  pub attempt-Keeps : (m : Action S E A) (s : S) → Keeps P (m s) → Keeps P (attempt {F = F} m s)
  attempt-Keeps m s h = go (m s) h
    where
      go :
          (o : Option (Result A E × S))
          → Keeps P o
          → Keeps {E = F} {A = Unit {0}} P
              (elim o [ none ↦ none | some (_, s') ↦ some (ok tt, s') ])
      go none h = h
      go (some (r, s')) h = h

-- A method on `&self` that may fail, and what follows it.
pub reads-Ends {ℓ κ μ ν} :
    {S : Type ℓ} {E : Type κ} {A : Type μ} {B : Type ν} (Q : Result B E → S → Type 0)
    (f : S → Result A E) (k : A → Action S E B) (s : S)
    → ((a : A) → f s ≡ ok a → Ends Q (k a s))
    → ((e : E) → Q (err e) s)
    → Ends Q ((reads f >>= k) s)
reads-Ends Q f k s on_ok on_err = elim (Result-cases (f s)) [
  | inl (a, e) ↦ rw (e, Ends) (on_ok a e)
  | inr (fault, e) ↦ rw (e, Ends) (on_err fault)
]
