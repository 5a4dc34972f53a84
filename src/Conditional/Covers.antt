-- ===== src/Conditional/Covers.antt =====
-- Which locks count for a resource that an `If` list names.
use dav_server_rs.Common.{
  nat_eq, list_eq, option_eq, list_beq_iff, option_beq_iff, starts_with_sound, drop_of_get_elem?,
  starts_with-append, ℕ, suc, ◌≡◌, refl, ap, ◌∙◌, true, ◌&&◌, some, [], ◌∷◌, ◌++◌, Bytes, arith,
  ◌⊎◌, ◌↔◌, get_elem?, length, drop, starts_with, ◌==◌,
}
use dav_server_rs.DavPath.{DavPath, slash}
use dav_server_rs.Ls.{DavLock}
use dav_server_rs.Conditional.{lock_covers_path, davpath_key}

-- The path of the lock is that of the resource, or the lock is deep and its path is the root or
-- stands before a slash in the path of the resource.
abbrev pub CoversPath : {Element : Type 0} → DavLock Element → DavPath → Type 0
CoversPath lock path =
    (davpath_key lock.path ≡ davpath_key path)
    ⊎ ((lock.deep ≡ true)
        × ((davpath_key lock.path ≡ slash)
            ⊎ ((rest : Bytes) × (davpath_key path ≡ davpath_key lock.path ++ b'/' ∷ rest))))

get_elem?-append : (xs : Bytes) (x : ℕ) (ys : Bytes) → get_elem? (xs ++ x ∷ ys) (length xs) ≡ some x
get_elem?-append [] x ys = refl
get_elem?-append (y ∷ xs) x ys = get_elem?-append xs x ys

pub below_iff :
    (path lock : Bytes)
    → ((starts_with path lock && get_elem? path (length lock) == some b'/') ≡ true)
      ↔ ((rest : Bytes) × (path ≡ lock ++ b'/' ∷ rest))
below_iff path lock = (to, from)
  where
    to :
        (starts_with path lock && get_elem? path (length lock) == some b'/') ≡ true
        → (rest : Bytes) × (path ≡ lock ++ b'/' ∷ rest)
    to h =
        let begins : starts_with path lock ≡ true = ground arith in
        let next : get_elem? path (length lock) ≡ some b'/' =
          ground (arith, option_beq_iff (get_elem? path (length lock)) (some b'/')) in
        (
          drop (suc (length lock)) path,
          starts_with_sound path lock begins
              ∙ ap (λ r. lock ++ r) (drop_of_get_elem? path (length lock) next),
        )

    from :
        (rest : Bytes) × (path ≡ lock ++ b'/' ∷ rest)
        → (starts_with path lock && get_elem? path (length lock) == some b'/') ≡ true
    from (rest, e) =
        rw (e, starts_with-append lock (b'/' ∷ rest), get_elem?-append lock b'/' rest) refl

-- A lock covers a resource exactly if it is on it, or deep and above it, segments kept whole: a lock
-- on "/a" does not cover "/ab".
pub lock_covers_path_iff :
    {Element : Type 0} (lock : DavLock Element) (path : DavPath)
    → (lock_covers_path lock path ≡ true) ↔ CoversPath lock path
unfolding lock_covers_path
lock_covers_path_iff lock path =
    let lk = davpath_key lock.path in
    let pk = davpath_key path in
    ground (arith, list_beq_iff lk pk, list_beq_iff lk slash, below_iff pk lk)
