-- ===== src/Tests/Fakes.antt =====
-- The fake lock system at an input.
use dav_server_rs.Common.{
  ◌≡◌, ◌≢◌, refl, true, none, some, [], ok, codes, arith, any, ◌==◌, list_eq, nat_eq, All, ◌∷◌,
  retain, not, ◌↔◌,
}
use dav_server_rs.Common.Dict.{get}
use dav_server_rs.Conditional.{lock_covers_path, davpath_key}
use dav_server_rs.DavPath.{DavPath, as_bytes}
use dav_server_rs.FakeLs
use dav_server_rs.FakeLs.{FakeLocks, new_token}
use dav_server_rs.FakeLs.Tokens.{IsAtOrBelow, discover-delete, discover-lock, refresh-lock}
use dav_server_rs.Ls.{DavLock}

abbrev collection : DavPath
collection = record { fullpath = codes "/a/"; pfxlen = none }

abbrev member : DavPath
member = record { fullpath = codes "/a/b"; pfxlen = none }

abbrev deep_lock : DavLock (Unit {0})
deep_lock = record {
  token = new_token (codes "u-1") true true;
  path = collection;
  principal = none;
  owner = none;
  timeout_at = some 120000000005;
  timeout = some 120000000000;
  shared = true;
  deep = true;
}

granted_test : (FakeLs.lock 5 (codes "u-1") collection none none none true true []).0 ≡ ok deep_lock
unfolding FakeLs.lock
granted_test = refl

covers_test : lock_covers_path deep_lock member ≡ true
unfolding lock_covers_path davpath_key as_bytes
covers_test = refl

discover-lock_example :
    any
      (λ l. l.token == deep_lock.token)
      (FakeLs.discover {Element = Unit {0}} member
        (FakeLs.lock 5 (codes "u-1") collection none none none true true []).1)
    ≡ true
discover-lock_example =
    discover-lock 5 (codes "u-1") collection none none none true true [] deep_lock member
      granted_test covers_test

unslashed_test : All (λ x. x ≢ b'/') (codes "u-1")
unslashed_test = ((λ q. omega arith), ((λ q. omega arith), ((λ q. omega arith), tt)))

unknown_test : get {V = DavLock (Unit {0})} [] deep_lock.token ≡ none
unfolding get
unknown_test = refl

refresh-lock_example :
    (l : DavLock (Unit {0})) × (FakeLs.refresh 9 member deep_lock.token none [] ≡ (ok l, []))
    × (l.token ≡ deep_lock.token)
    × (l.shared ≡ true)
    × (l.deep ≡ true)
refresh-lock_example =
    refresh-lock 5 (codes "u-1") collection none none none true true [] deep_lock [] 9 member none
      granted_test unslashed_test unknown_test

discover-delete_example :
    (FakeLs.discover member (FakeLs.delete collection ((codes "t", deep_lock) ∷ [])).1
      ≡ retain
          (λ l. not (FakeLs.is_deleted collection l))
          (FakeLs.discover member ((codes "t", deep_lock) ∷ [])))
    × ((l : DavLock (Unit {0}))
        → (FakeLs.is_deleted collection l ≡ true)
          ↔ IsAtOrBelow (davpath_key l.path) (davpath_key collection))
discover-delete_example = discover-delete collection member ((codes "t", deep_lock) ∷ [])
