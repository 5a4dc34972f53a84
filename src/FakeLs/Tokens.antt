-- ===== src/FakeLs/Tokens.antt =====
-- src/fakels.rs: what a token says of its lock, and which locks are found.
use dav_server_rs.Common.{
  ℕ, ◌+◌, ◌≡◌, ◌≢◌, refl, ap, ◌∙◌, Bool, true, false, Option, none, some, [], ◌∷◌, ◌++◌, Result, ok,
  Bytes, codes, All, ◌==◌, nat_eq, list_eq, option_eq, arith, inl, inr, Bool-cases, if◌then◌else◌,
  get_elem?, split_on, cons_head, any, retain, not, All-append, beq_refl, subst, list_beq_iff, ◌↔◌,
  ◌⊎◌,
}
use dav_server_rs.Common.Dict.{get, insert, values, get-insert_self}
use dav_server_rs.Conditional.{lock_covers_path, davpath_key}
use dav_server_rs.Conditional.Covers.{below_iff}
use dav_server_rs.DavPath.{DavPath, slash}
use dav_server_rs.FakeLs.{
  FakeLocks, tm_limit, new_token, lock, refresh, discover, delete, is_deleted,
}
use dav_server_rs.Ls.{DavLock}

-- The words of a token.
split_on-word :
    (xs ys : Bytes)
    → All (λ x. x ≢ b'/') xs
    → split_on b'/' (xs ++ b'/' ∷ ys) ≡ xs ∷ split_on b'/' ys
split_on-word [] ys h = refl
split_on-word (x ∷ xs) ys (p, h) = elim (Bool-cases (x == b'/')) [
  | inl here ↦ absurd (p (ground arith))
  | inr other ↦ rw other (ap (cons_head x) (split_on-word xs ys h))
]

abbrev prefixed : Bytes → Bytes
prefixed uuid = codes "opaquetoken:" ++ uuid

unslashed : (xs : Bytes) → any (λ x. x == b'/') xs ≡ false → All (λ x. x ≢ b'/') xs
unslashed [] h = tt
unslashed (x ∷ xs) h = ((λ q. ground arith), unslashed xs (ground arith))

kind_words :
    (shared deep : Bool)
    → split_on b'/' (
        (if deep then codes "I" else codes "0")
        ++ (slash ++ (if shared then codes "S" else codes "E")))
      ≡ (if deep then codes "I" else codes "0") ∷ (if shared then codes "S" else codes "E") ∷ []
kind_words true true = refl
kind_words true false = refl
kind_words false true = refl
kind_words false false = refl

new_token-words :
    (uuid : Bytes) (shared deep : Bool)
    → All (λ x. x ≢ b'/') uuid
    → split_on b'/' (new_token uuid shared deep)
      ≡ prefixed uuid
        ∷ (if deep then codes "I" else codes "0")
        ∷ (if shared then codes "S" else codes "E")
        ∷ []
unfolding new_token
new_token-words uuid shared deep h =
    split_on-word (prefixed uuid)
      ((if deep then codes "I" else codes "0")
        ++ (slash ++ (if shared then codes "S" else codes "E")))
      (All-append (λ x. x ≢ b'/') (codes "opaquetoken:") uuid
        (unslashed (codes "opaquetoken:") refl) h)
    ∙ ap (λ ws. prefixed uuid ∷ ws) (kind_words shared deep)

shared_word : (shared : Bool) → ((if shared then codes "S" else codes "E") == codes "S") ≡ shared
shared_word true = refl
shared_word false = refl

deep_word : (deep : Bool) → ((if deep then codes "I" else codes "0") == codes "I") ≡ deep
deep_word true = refl
deep_word false = refl

any-discovered :
    {Element : Type 0} (p q : DavLock Element → Bool) (m : FakeLocks Element) (k : Bytes)
    (l : DavLock Element)
    → get m k ≡ some l
    → p l ≡ true
    → q l ≡ true
    → any p (retain q (values m)) ≡ true
unfolding get
any-discovered p q [] k l found h h' = absurd (ground arith)
any-discovered p q ((j, l') ∷ m) k l found h h' = elim (Bool-cases (j == k)) [
  | inl here ↦
      let same : l' ≡ l = ground arith in
      let kept : q l' ≡ true = ap q same ∙ h' in
      let met : p l' ≡ true = ap p same ∙ h in rw kept (rw met refl)
  | inr other ↦ let rest = any-discovered p q m k l (ground arith) h h' in ground arith
]

-- The lock's path is the deleted one, or the deleted one is the root or stands before a slash in it.
abbrev pub IsAtOrBelow : Bytes → Bytes → Type 0
IsAtOrBelow lock path =
    (lock ≡ path) ⊎ (path ≡ slash) ⊎ ((rest : Bytes) × (lock ≡ path ++ b'/' ∷ rest))

is_deleted_iff :
    {Element : Type 0} (path : DavPath) (l : DavLock Element)
    → (is_deleted path l ≡ true) ↔ IsAtOrBelow (davpath_key l.path) (davpath_key path)
unfolding is_deleted
is_deleted_iff path l =
    let lk = davpath_key l.path in
    let pk = davpath_key path in
    ground (arith, list_beq_iff lk pk, list_beq_iff pk slash, below_iff lk pk)

discover-delete-eq-retain :
    {Element : Type 0} (path path' : DavPath) (locks : FakeLocks Element)
    → discover path' (delete path locks).1
      ≡ retain (λ l. not (is_deleted path l)) (discover path' locks)
unfolding discover delete
discover-delete-eq-retain path path' [] = refl
discover-delete-eq-retain path path' ((k, l) ∷ locks) = elim (Bool-cases (is_deleted path l)) [
  | inl gone ↦ elim (Bool-cases (lock_covers_path l path')) [
    | inl covers ↦ rw (gone, covers) (rw gone (discover-delete-eq-retain path path' locks))
    | inr apart ↦ rw (gone, apart) (discover-delete-eq-retain path path' locks)
  ]
  | inr stays ↦ elim (Bool-cases (lock_covers_path l path')) [
    | inl covers ↦
        rw (stays, covers)
          (rw stays (ap (λ ls. l ∷ ls) (discover-delete-eq-retain path path' locks)))
    | inr apart ↦ rw (stays, apart) (discover-delete-eq-retain path path' locks)
  ]
]

-- What is found after a deletion is what was found before it, in the same order, without the locks
-- that are deleted; those are exactly the locks at the path or below it, whole segments counted.
pub discover-delete :
    {Element : Type 0} (path path' : DavPath) (locks : FakeLocks Element)
    → (discover path' (delete path locks).1
        ≡ retain (λ l. not (is_deleted path l)) (discover path' locks))
      × ((l : DavLock Element)
          → (is_deleted path l ≡ true) ↔ IsAtOrBelow (davpath_key l.path) (davpath_key path))
discover-delete path path' locks = (discover-delete-eq-retain path path' locks, is_deleted_iff path)

module _ {Element : Type 0} (now : ℕ) (uuid : Bytes) (path : DavPath) (principal : Option Bytes)
    (owner : Option Element) (timeout : Option ℕ) (shared deep : Bool)
    (locks : FakeLocks Element) where
  -- The lock that is granted.
  abbrev granted : DavLock Element
  granted = record {
    token = new_token uuid shared deep;
    path = path;
    principal = principal;
    owner = owner;
    timeout_at = some (now + tm_limit timeout);
    timeout = some (tm_limit timeout);
    shared = shared;
    deep = deep;
  }

  abbrev ok_lock : DavLock Element → Result (DavLock Element) (DavLock Element)
  ok_lock l = ok l

  granted-lock :
      (l : DavLock Element)
      → (lock now uuid path principal owner timeout shared deep locks).0 ≡ ok l
      → granted ≡ l
  unfolding lock
  granted-lock l e = let same : ok_lock granted ≡ ok_lock l = e in cc

  -- A lock that is granted is found for each path that it covers.
  pub discover-lock :
      (l : DavLock Element) (path' : DavPath)
      → (lock now uuid path principal owner timeout shared deep locks).0 ≡ ok l
      → lock_covers_path l path' ≡ true
      → any
          (λ l'. l'.token == l.token)
          (discover path' (lock now uuid path principal owner timeout shared deep locks).1)
        ≡ true
  unfolding lock discover
  discover-lock l path' e covers =
      subst
        (λ (l : DavLock Element).
          lock_covers_path l path' ≡ true
          → any (λ l'. l'.token == l.token)
              (retain (λ l'. lock_covers_path l' path')
                (values (insert locks granted.token granted)))
            ≡ true)
        (granted-lock l e)
        (any-discovered (λ l'. l'.token == granted.token) (λ l'. lock_covers_path l' path')
          (insert locks granted.token granted) granted.token granted
          (get-insert_self locks granted.token granted) (beq_refl granted.token))
        covers

  -- A refresh of a token that is not known, as after a restart, gives a lock with this token that is
  -- shared and deep as the lock was that the token was made for. A UUID has no slash.
  pub refresh-lock :
      (l : DavLock Element) (locks' : FakeLocks Element) (now' : ℕ) (path' : DavPath)
      (timeout' : Option ℕ)
      → (lock now uuid path principal owner timeout shared deep locks).0 ≡ ok l
      → All (λ x. x ≢ b'/') uuid
      → get locks' l.token ≡ none
      → (l' : DavLock Element) × (refresh now' path' l.token timeout' locks' ≡ (ok l', locks'))
        × (l'.token ≡ l.token)
        × (l'.shared ≡ l.shared)
        × (l'.deep ≡ l.deep)
  unfolding refresh
  refresh-lock l locks' now' path' timeout' e h =
      let token = new_token uuid shared deep in
      subst
        (λ (l : DavLock Element).
          get locks' l.token ≡ none
          → (l' : DavLock Element) × (refresh now' path' l.token timeout' locks' ≡ (ok l', locks'))
            × (l'.token ≡ l.token)
            × (l'.shared ≡ l.shared)
            × (l'.deep ≡ l.deep))
        (granted-lock l e)
        (λ unknown. (
          record {
            token = token;
            path = path';
            principal = none;
            owner = none;
            timeout_at = some (now' + tm_limit timeout');
            timeout = some (tm_limit timeout');
            shared = get_elem? (split_on b'/' token) 2 == some (codes "S");
            deep = get_elem? (split_on b'/' token) 1 == some (codes "I");
          },
          rw (unknown, refresh) refl,
          refl,
          rw (new_token-words uuid shared deep h) (shared_word shared),
          rw (new_token-words uuid shared deep h) (deep_word deep),
        ))
