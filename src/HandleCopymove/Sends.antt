-- ===== src/HandleCopymove/Sends.antt =====
-- src/handle_copymove.rs: what is sent of a copy. Nothing where it succeeds; where it fails, failures.
use dav_server_rs.Common.{
  Bool, if◌then◌else◌, ◌≡◌, refl, sym, ap, subst, ◌∙◌, true, false, Option, none, some, List, [],
  ◌∷◌, ◌++◌, Result, ok, err, All, All-append, append-nil, arith, nat_eq, inl, inr, Bool-cases,
  Result-cases, Bool,
}
use dav_server_rs.DavPath.{DavPath}
use dav_server_rs.Errors.{DavError, fs_error, statuscode}
use dav_server_rs.Fs.{FsError}
use dav_server_rs.Fs.Guarded.{Call}
use dav_server_rs.Fs.Kinds.{is_success}
use dav_server_rs.HandleCopymove.{CopyAction, add_status, fetching, calling, reporting}
use dav_server_rs.HandleDelete.Reports.{IsFailure, statuscode-IsFailure}
use dav_server_rs.MultiError
use dav_server_rs.MultiError.{MultiError, Status}
use dav_server_rs.Tree.Ends.{Ends, Ends-next, Ends-weaken}
use dav_server_rs.Tree.Monad.{Action, ◌>>=◌, next}

-- What is sent in a call: nothing where it succeeds, failures, one or more, where it fails.
pub data IsSent : Result (Unit {0}) DavError → List Status → Type 0 where
  completes : IsSent (ok tt) []
  fails :
      (e : DavError) (x : Status) (xs : List Status)
      → All IsFailure (x ∷ xs)
      → IsSent (err e) (x ∷ xs)

pub IsSent-ok :
    (r : Result (Unit {0}) DavError) (added : List Status) → IsSent r added → r ≡ ok tt → added ≡ []
IsSent-ok _ _ completes q = refl
IsSent-ok _ _ (fails e x xs k) q = absurd (ground arith)

-- The last error seen, after a call.
pub IsSent-append :
    (r r' : Result (Unit {0}) DavError) (xs ys : List Status)
    → IsSent r xs
    → IsSent r' ys
    → IsSent (elim r' [ ok _ ↦ r | err e ↦ err e ]) (xs ++ ys)
IsSent-append r _ xs _ h completes = subst (IsSent r) (sym (append-nil xs)) h
IsSent-append _ _ _ _ completes (fails e y ys k) = fails e y ys k
IsSent-append _ _ _ _ (fails e' x xs h) (fails e y ys k) =
    fails e x (xs ++ y ∷ ys) (All-append IsFailure (x ∷ xs) (y ∷ ys) h k)

-- The same, where the call's result is the one that counts.
IsSent-after :
    (r : Result (Unit {0}) DavError) (e : DavError) (xs ys : List Status)
    → IsSent r xs
    → IsSent (err e) ys
    → IsSent (err e) (xs ++ ys)
IsSent-after r e xs ys h k = IsSent-append r (err e) xs ys h k

-- An error whose status is not that of a success.
abbrev pub IsError : DavError → Type 0
IsError e = is_success (statuscode e) ≡ false

abbrev pub FailsOnly : {A : Type 0} → Result A DavError → Type 0
FailsOnly (ok _) = Unit
FailsOnly (err e) = IsError e

module _ {S : Type 0} where
  abbrev pub Sends : MultiError S → Result (Unit {0}) DavError → MultiError S → Type 0
  Sends t r m = (added : List Status) × (m.sent ≡ t.sent ++ added) × IsSent r added

  pub add_status-Sends :
      (path : DavPath) (e : DavError) (t : MultiError S)
      → IsError e
      → Ends (Sends t) (add_status {A = Unit {0}} path e t)
  unfolding add_status MultiError.add_status
  add_status-Sends path e t bad =
      ((path, statuscode e) ∷ [], refl, fails e (path, statuscode e) [] (bad, tt))

  -- The same, where that has been sent before.
  abbrev pub SendsAfter :
      List Status → MultiError S → Result (Unit {0}) DavError → MultiError S → Type 0
  SendsAfter before t r m =
      (added : List Status) × (m.sent ≡ t.sent ++ added) × IsSent r (before ++ added)

  pub fail-SendsAfter :
      (retval : Result (Unit {0}) DavError) (before : List Status) (path : DavPath) (e : DavError)
      (t : MultiError S)
      → IsSent retval before
      → IsError e
      → Ends (SendsAfter before t) (add_status {A = Unit {0}} path e t)
  unfolding add_status MultiError.add_status
  fail-SendsAfter retval before path e t h bad = (
    (path, statuscode e) ∷ [],
    refl,
    IsSent-after retval e before ((path, statuscode e) ∷ []) h
        (fails e (path, statuscode e) [] (bad, tt)),
  )

  pub fetching-Sends :
      {A : Type 0} (retval : Result (Unit {0}) DavError) (before : List Status) (path : DavPath)
      (call : S → Result A FsError) (t : MultiError S) (k : A → CopyAction S (Unit {0}))
      → IsSent retval before
      → ((a : A) → call t.inner ≡ ok a → Ends (SendsAfter before t) (k a t))
      → Ends (SendsAfter before t) ((fetching path call >>= k) t)
  unfolding add_status MultiError.add_status
  fetching-Sends retval before path call t k h g = elim (Result-cases (call t.inner)) [
    | inl (a, e) ↦ rw (e, Ends) (g a e)
    | inr (fault, e) ↦
        rw (e, Ends)
          (fail-SendsAfter retval before path (fs_error fault) t h (statuscode-IsFailure fault))
  ]

  pub calling-Sends :
      (path : DavPath) (ignored : FsError → Bool) (call : Call S (Unit {0})) (t : MultiError S)
      → Ends (Sends t) (calling path ignored call t)
  calling-Sends path ignored call t = elim (Result-cases (call t.inner).0) [
    | inl (_, e) ↦ rw (e, Ends) ([], sym (append-nil t.sent), completes)
    | inr (fault, e) ↦ elim (Bool-cases (ignored fault)) [
      | inl skip ↦ rw (e, skip, Ends) ([], sym (append-nil t.sent), completes)
      | inr keep ↦
          rw (e, keep, Ends)
            (add_status-Sends path (fs_error fault) (record t { inner = (call t.inner).1 })
              (statuscode-IsFailure fault))
    ]
  ]

  pub reporting-Sends :
      (path : DavPath) (act : Action S DavError (Unit {0})) (t : MultiError S)
      → Ends (λ r _. FailsOnly r) (act t.inner)
      → Ends (Sends t) (reporting path act t)
  reporting-Sends path act t h = go (act t.inner) h
    where
      go :
          (o : Option (Result (Unit {0}) DavError × S))
          → Ends (λ r _. FailsOnly r) o
          → Ends (Sends t) (elim o [
            | none ↦ none
            | some (r, s) ↦
                let m' : MultiError S = record t { inner = s } in
                elim r [ ok _ ↦ some (ok tt, m') | err e ↦ add_status path e m' ]
          ])
      go none h = h
      go (some (ok _, s)) h = ([], sym (append-nil t.sent), completes)
      go (some (err e, s)) h = add_status-Sends path e (record t { inner = s }) h

  -- A call behind one that succeeded.
  pub next-Sends :
      (o : Option (Result (Unit {0}) DavError × MultiError S)) (t : MultiError S)
      (k : CopyAction S (Unit {0}))
      → Ends (Sends t) o
      → ((u : MultiError S) → Ends (Sends u) (k u))
      → Ends (Sends t) (next o (λ _. k))
  next-Sends o t k h g =
      Ends-next (Sends t) (Sends t) o (λ _. k) h
        (λ _ u (added, sent, done).
          Ends-weaken (Sends u) (Sends t) (k u) (g u) (λ r v (more, sent', c). (
            more,
            sent'
                ∙ ap (λ xs. xs ++ more)
                    (sent
                      ∙ ap (λ xs. t.sent ++ xs) (IsSent-ok (ok tt) added done refl)
                      ∙ append-nil t.sent),
            c,
          )))
        (λ e u q. q)

  -- A test of the code.
  pub if-Sends :
      (b : Bool) (x y : CopyAction S (Unit {0})) (t : MultiError S)
      → Ends (Sends t) (x t)
      → Ends (Sends t) (y t)
      → Ends (Sends t) ((if b then x else y) t)
  if-Sends true x y t h k = h
  if-Sends false x y t h k = k
