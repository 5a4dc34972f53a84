-- ===== src/FakeLs.antt =====
-- src/fakels.rs: the lock system that grants every lock. Its state is the map from tokens to locks; the
-- time and the hyphenated UUID of a new token are arguments. The rule for the locks that cover a path
-- is that of src/conditional.rs, written once more.
pub mod Tokens
use dav_server_rs.Common.{
  ℕ, suc, ◌+◌, ◌-◌, Bool, true, false, not, ◌&&◌, ◌||◌, Option, none, some, List, [], ◌∷◌, ◌++◌,
  Result, ok, Bytes, codes, ◌==◌, nat_eq, list_eq, option_eq, if◌then◌else◌, ltb, length, get_elem?,
  starts_with, split_on, retain, ◌*◌, ◌/◌,
}
use dav_server_rs.Common.Dict.{Dict, get, insert, remove, values}
use dav_server_rs.Conditional.{davpath_key, lock_covers_path}
use dav_server_rs.DavPath.{DavPath, slash}
use dav_server_rs.Ls.{DavLock}

abbrev pub second : ℕ
second = 1000000000

-- `d.as_secs() > 120`
abbrev pub tm_limit : Option ℕ → ℕ
tm_limit none = 120 * second
tm_limit (some d) = if ltb 120 (d / second) then 120 * second else d

abbrev pub FakeLocks : Type 0 → Type 0
FakeLocks Element = Dict Bytes (DavLock Element)

-- The token of a new lock.
unfoldable pub new_token : Bytes → Bool → Bool → Bytes
new_token uuid shared deep =
    (codes "opaquetoken:" ++ uuid)
    ++ (slash
        ++ ((if deep then codes "I" else codes "0")
            ++ (slash ++ (if shared then codes "S" else codes "E"))))

module _ {Element : Type 0} where
  abbrev pub new : FakeLocks Element
  new = []

  unfoldable pub lock :
      ℕ
      → Bytes
      → DavPath
      → Option Bytes
      → Option Element
      → Option ℕ
      → Bool
      → Bool
      → FakeLocks Element
      → Result (DavLock Element) (DavLock Element) × FakeLocks Element
  lock now uuid path principal owner timeout shared deep locks =
      let limit = tm_limit timeout in
      let l : DavLock Element = record {
        token = new_token uuid shared deep;
        path = path;
        principal = principal;
        owner = owner;
        timeout_at = some (now + limit);
        timeout = some limit;
        shared = shared;
        deep = deep;
      } in
      (ok l, insert locks l.token l)

  unfoldable pub unlock :
      DavPath → Bytes → FakeLocks Element → Result (Unit {0}) (Unit {0}) × FakeLocks Element
  unlock path token locks = (ok tt, remove locks token)

  -- A token that is not known is taken apart.
  unfoldable pub refresh :
      ℕ
      → DavPath
      → Bytes
      → Option ℕ
      → FakeLocks Element
      → Result (DavLock Element) (Unit {0}) × FakeLocks Element
  refresh now path token timeout locks =
      let limit = tm_limit timeout in
      let v = split_on b'/' token in
      elim (get locks token) [
        | some l ↦
            let l' = record l { timeout = some limit; timeout_at = some (now + limit) } in
            (ok l', insert locks token l')
        | none ↦ (
          ok (record {
            token = token;
            path = path;
            principal = none;
            owner = none;
            timeout_at = some (now + limit);
            timeout = some limit;
            shared = get_elem? v 2 == some (codes "S");
            deep = get_elem? v 1 == some (codes "I");
          }),
          locks,
        )
      ]

  unfoldable pub check :
      DavPath
      → Option Bytes
      → Bool
      → Bool
      → List Bytes
      → FakeLocks Element
      → Result (Unit {0}) (DavLock Element) × FakeLocks Element
  check path principal ignore_principal deep submitted_tokens locks = (ok tt, locks)

  unfoldable pub discover : DavPath → FakeLocks Element → List (DavLock Element)
  discover path locks = retain (λ l. lock_covers_path l path) (values locks)

  -- The lock is at the path that is deleted, or below it.
  unfoldable pub is_deleted : DavPath → DavLock Element → Bool
  is_deleted path l =
      let del_key = davpath_key path in
      let lock_key = davpath_key l.path in
      if lock_key == del_key
      then true
      else if del_key == slash
      then true
      else starts_with lock_key del_key && get_elem? lock_key (length del_key) == some b'/'

  unfoldable pub delete :
      DavPath → FakeLocks Element → Result (Unit {0}) (Unit {0}) × FakeLocks Element
  delete path locks = (ok tt, retain (λ b. not (is_deleted path b.1)) locks)
