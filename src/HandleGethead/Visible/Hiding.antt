-- ===== src/HandleGethead/Visible/Hiding.antt =====
-- What a path that `ensure_visible` lets through does not name (src/handle_gethead.rs).
use dav_server_rs.Common.{
  nat_eq, subst, ℕ, zero, suc, ◌<◌, ◌≡◌, refl, Bool, true, false, ◌&&◌, some, List, [], ◌∷◌, Result,
  ok, err, Bytes, any, All, length, split_on, arith, Bool-cases, Result-cases, inl, inr,
}
use dav_server_rs.DavPath
use dav_server_rs.DavPath.{DavPath, as_bytes, parent, segments}
use dav_server_rs.DavPath.Tree.{HasPrefix, parent-HasPrefix, length-segments-parent}
use dav_server_rs.Errors.{DavError, status, fs_error, statuscode}
use dav_server_rs.Fs.Guarded.{DavMetaData, GuardedFileSystem}
use dav_server_rs.Fs.Kinds.{is_success}
use dav_server_rs.HandleDelete.Reports.{statuscode-IsFailure}
use dav_server_rs.HandleGethead.Visible.{
  DavInner, is_collection_marker, hides_direct_paths, is_dotted, check_link, check_links,
  is_not_found, ensure_visible,
}

-- The path and those above it, up to the one that is its own parent.
pub data IsAbove : DavPath → DavPath → Type 0 where
  self : (p : DavPath) → IsAbove p p
  up : (p q : DavPath) → DavPath.eq (parent p) p ≡ false → IsAbove (parent p) q → IsAbove p q

module _ {S : Type 0} (fs : GuardedFileSystem S) (s : S) where
  abbrev pub IsNoLink : DavPath → Type 0
  IsNoLink p = (meta : DavMetaData) → fs.symlink_metadata p s ≡ ok meta → meta.is_symlink ≡ false

  -- A result of the walk: no links above, or an error without a status of a success.
  abbrev pub Walked : DavPath → Result (Unit {0}) DavError → Type 0
  Walked p (ok _) = (q : DavPath) → IsAbove p q → IsNoLink q
  Walked p (err e) = is_success (statuscode e) ≡ false

  check_link-IsNoLink : (p : DavPath) → check_link fs p s ≡ ok tt → IsNoLink p
  unfolding check_link
  check_link-IsNoLink p h meta e = elim (Bool-cases meta.is_symlink) [
    | inl link ↦ absurd (ground arith)
    | inr plain ↦ plain
  ]

  check_link-fails :
      (p : DavPath) (e : DavError) → check_link fs p s ≡ err e → is_success (statuscode e) ≡ false
  unfolding check_link statuscode
  check_link-fails p e h = elim (Result-cases (fs.symlink_metadata p s)) [
    | inl (meta, m) ↦ elim (Bool-cases meta.is_symlink) [
      | inl link ↦
          let same : status 404 ≡ e = ground arith in
          subst (λ e. is_success (statuscode e) ≡ false) same refl
      | inr plain ↦ absurd (ground arith)
    ]
    | inr (fault, m) ↦ elim (Bool-cases (is_not_found fault)) [
      | inl missing ↦ absurd (ground arith)
      | inr other ↦
          let same : fs_error fault ≡ e = ground arith in
          subst (λ e. is_success (statuscode e) ≡ false) same (statuscode-IsFailure fault)
    ]
  ]

  above_self :
      (p q : DavPath) → DavPath.eq (parent p) p ≡ true → IsAbove p q → IsNoLink p → IsNoLink q
  above_self _ _ stop (self p) h = h
  above_self _ _ stop (up p q other above) h = absurd (ground arith)

  above_up :
      (p q : DavPath)
      → IsNoLink p
      → ((q : DavPath) → IsAbove (parent p) q → IsNoLink q)
      → IsAbove p q
      → IsNoLink q
  above_up _ _ h k (self p) = h
  above_up _ _ h k (up p q other above) = k q above

  Walked-parent :
      (p : DavPath) (r : Result (Unit {0}) DavError) → IsNoLink p → Walked (parent p) r → Walked p r
  Walked-parent p (ok _) h walked = λ q above. above_up p q h walked above
  Walked-parent p (err e) h walked = walked

  check_links_lem :
      (fuel : ℕ) (p : DavPath)
      → HasPrefix p
      → length (segments (as_bytes p)) < fuel
      → (r : Result (Unit {0}) DavError) × (check_links fs fuel p s ≡ some r) × Walked p r
  unfolding check_links
  check_links_lem zero p fits enough = absurd (omega arith)
  check_links_lem (suc fuel) p fits enough = elim (Result-cases (check_link fs p s)) [
    | inr (fault, e) ↦ (err fault, rw (e, check_links) refl, check_link-fails p fault e)
    | inl (_, e) ↦ elim (Bool-cases (DavPath.eq (parent p) p)) [
      | inl stop ↦ (
        ok tt,
        rw (e, stop, check_links) refl,
        λ q above. above_self p q stop above (check_link-IsNoLink p e),
      )
      | inr other ↦
          let less = length-segments-parent p fits other in
          let (r, same, walked) =
            check_links_lem fuel (parent p) (parent-HasPrefix p fits) (omega arith) in
          (r, rw (e, other, check_links) same, Walked-parent p r (check_link-IsNoLink p e) walked)
    ]
  ]

  any-false_All :
      (f : Bytes → Bool) (xs : List Bytes) → any f xs ≡ false → All (λ x. f x ≡ false) xs
  any-false_All f [] h = tt
  any-false_All f (x ∷ xs) h = (ground arith, any-false_All f xs (ground arith))

  -- What a path that is let through satisfies; any other answer has no status of a success.
  abbrev pub Lets : DavInner → DavPath → Result (Unit {0}) DavError → Type 0
  Lets inner p (ok _) =
      All (λ name. is_collection_marker name ≡ false) (split_on b'/' (as_bytes p))
      × (hides_direct_paths inner.hide_dot_prefix ≡ true
          → All (λ name. is_dotted name ≡ false) (split_on b'/' (as_bytes p)))
      × (inner.hide_symlinks ≡ true → (q : DavPath) → IsAbove p q → IsNoLink q)
  Lets inner p (err e) = is_success (statuscode e) ≡ false

  shown :
      (inner : DavInner) (p : DavPath)
      → any is_collection_marker (split_on b'/' (as_bytes p)) ≡ false
      → (hides_direct_paths inner.hide_dot_prefix && any is_dotted (split_on b'/' (as_bytes p)))
        ≡ false
      → (r : Result (Unit {0}) DavError) → (inner.hide_symlinks ≡ true → Walked p r)
      → (inner.hide_symlinks ≡ false → r ≡ ok tt)
      → Lets inner p r
  shown inner p unmarked plain (ok _) walked h = (
    any-false_All is_collection_marker _ unmarked,
    λ hides. any-false_All is_dotted _ (ground arith),
    walked,
  )
  shown inner p unmarked plain (err e) walked h = elim (Bool-cases inner.hide_symlinks) [
    | inl hides ↦ walked hides
    | inr follows ↦ let impossible = h follows in absurd (ground arith)
  ]

  -- The check of a path ends. A path that it lets through has no segment that is a marker of a
  -- collection, none that starts with a dot where such names are hidden from requests, and, where
  -- symbolic links are hidden, neither the path nor any above it is a link; a path that it refuses is
  -- answered with no status of a success.
  pub ensure_visible_lem :
      (inner : DavInner) (p : DavPath)
      → HasPrefix p
      → (r : Result (Unit {0}) DavError) × (ensure_visible fs inner p s ≡ some r) × Lets inner p r
  unfolding ensure_visible statuscode
  ensure_visible_lem inner p fits =
      let names = split_on b'/' (as_bytes p) in
      elim (Bool-cases (any is_collection_marker names)) [
        | inl marked ↦ (err (status 404), rw (marked, ensure_visible) refl, refl)
        | inr unmarked ↦
            elim (Bool-cases (hides_direct_paths inner.hide_dot_prefix && any is_dotted names)) [
              | inl dotted ↦ (err (status 404), rw (unmarked, dotted, ensure_visible) refl, refl)
              | inr plain ↦ elim (Bool-cases inner.hide_symlinks) [
                | inr follows ↦ (
                  ok tt,
                  rw (unmarked, plain, follows, ensure_visible) refl,
                  shown inner p unmarked plain (ok tt) (λ hides. absurd (ground arith)) (λ _. refl),
                )
                | inl hides ↦
                    let (r, same, walked) =
                      check_links_lem (suc (length (segments (as_bytes p)))) p fits (omega arith) in
                    (
                      r,
                      rw (unmarked, plain, hides, ensure_visible) same,
                      shown inner p unmarked plain r (λ _. walked)
                          (λ follows. absurd (ground arith)),
                    )
              ]
            ]
      ]
