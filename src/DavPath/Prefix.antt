-- ===== src/DavPath/Prefix.antt =====
-- Setting the prefix of a path.
use dav_server_rs.Common.{
  nat_eq, list_eq, option_eq, option_beq_iff, starts_with_sound, take-append, drop_of_get_elem?,
  lt-length_of_get_elem?, take-length_pred, drop-append, nat_beq_iff, ◌==◌, ℕ, ◌≡◌, refl, ap, subst,
  ◌∙◌, true, false, not, some, [], ◌∷◌, ◌++◌, ok, arith, Bytes, init, is_empty, if◌then◌else◌,
  length, inl, inr, Bool-cases, ends_with_byte, starts_with, if-eq-ok, length-append, take, drop,
  get_elem?, ◌-◌, suc, starts_with_sound, take-append, ◌⊎◌,
}
use dav_server_rs.DavPath.{DavPath, slash, as_bytes, get_prefix, set_prefix, prefix_mismatch}
use dav_server_rs.DavPath.Tree.{HasPrefix}

-- A prefix without the slash that it may end in.
abbrev pub trimmed : Bytes → Bytes
trimmed prefix = if ends_with_byte prefix b'/' then init prefix else prefix

pub record IsPrefixed (p : DavPath) (prefix : Bytes) (p' : DavPath) : Type 0 where
  pub fits : HasPrefix p'
  pub hidden : get_prefix p' ≡ trimmed prefix
  pub rest : Bytes
  pub absolute : as_bytes p' ≡ b'/' ∷ rest
  pub whole :
      (p'.fullpath ≡ p.fullpath) ⊎ ((p.fullpath ≡ prefix) × (p'.fullpath ≡ p.fullpath ++ slash))

module _ (path prefix : Bytes) (starts : starts_with path prefix ≡ true) where
  take-prefix : take (length prefix) path ≡ prefix
  take-prefix =
      rw (starts_with_sound path prefix starts) (take-append prefix (drop (length prefix) path))

at_slash :
    (p : DavPath) (prefix : Bytes) (n : ℕ)
    → (not (get_elem? p.fullpath n == some b'/')) ≡ false
    → take n p.fullpath ≡ trimmed prefix
    → IsPrefixed p prefix (record { fullpath = p.fullpath; pfxlen = some n })
unfolding get_prefix as_bytes
at_slash p prefix n test hidden =
    let found : get_elem? p.fullpath n ≡ some b'/' =
      ground (arith, option_beq_iff (get_elem? p.fullpath n) (some b'/')) in
    record {
      fits = omega (arith, lt-length_of_get_elem? p.fullpath n found);
      hidden = hidden;
      rest = drop (suc n) p.fullpath;
      absolute = drop_of_get_elem? p.fullpath n found;
      whole = inl refl;
    }

at_end :
    (p : DavPath) (prefix : Bytes)
    → p.fullpath ≡ prefix
    → prefix ≡ trimmed prefix
    → IsPrefixed p prefix (record { fullpath = p.fullpath ++ slash; pfxlen = some (length prefix) })
unfolding get_prefix as_bytes
at_end p prefix same whole = record {
  fits = omega (arith, ap length same, length-append p.fullpath slash);
  hidden = rw same (take-append prefix slash ∙ whole);
  rest = [];
  absolute = rw same (drop-append prefix slash);
  whole = inr (same, refl);
}

-- A prefix of the path that is as long as the path is the path.
eq_of_length :
    (path prefix : Bytes)
    → starts_with path prefix ≡ true
    → length path ≡ length prefix
    → path ≡ prefix
eq_of_length [] [] h e = refl
eq_of_length [] (y ∷ ys) h e = absurd (omega arith)
eq_of_length (x ∷ xs) [] h e = absurd (omega arith)
eq_of_length (x ∷ xs) (y ∷ ys) h e = ground (arith, nat_beq_iff x y, eq_of_length xs ys)

trimmed_dir :
    (prefix : Bytes)
    → ends_with_byte prefix b'/' ≡ true
    → (init prefix ≡ trimmed prefix) × (is_empty prefix ≡ false)
trimmed_dir [] h = absurd (ground arith)
trimmed_dir (x ∷ s) h = (rw h refl, refl)

-- Where the prefix is accepted, the path behind it is absolute and nothing of the path is lost; the
-- prefix ends at the end of a segment.
pub set_prefix-IsPrefixed :
    (p : DavPath) (prefix : Bytes) {p' : DavPath}
    → set_prefix p prefix ≡ ok p'
    → IsPrefixed p prefix p'
unfolding set_prefix
set_prefix-IsPrefixed p prefix {p'} h =
    let path = p.fullpath in
    let n = length prefix in
    let (begins, h₁) = if-eq-ok (not (starts_with path prefix)) prefix_mismatch h in
    let starts : starts_with path prefix ≡ true = ground arith in
    elim (Bool-cases (ends_with_byte prefix b'/')) [
      | inl dir ↦
          let (test, h₂) =
            if-eq-ok (not (get_elem? path (n - 1) == some b'/')) prefix_mismatch (rw dir at h₁) in
          let (trim, full) = trimmed_dir prefix dir in
          let hidden : take (n - 1) path ≡ trimmed prefix =
            rw (starts_with_sound path prefix starts)
              (take-length_pred prefix (drop n path) full ∙ trim) in
          subst (IsPrefixed p prefix) (ground arith) (at_slash p prefix (n - 1) test hidden)
      | inr file ↦
          let plain : prefix ≡ trimmed prefix = rw file refl in
          elim (Bool-cases (length path == n)) [
            | inl same ↦
                subst (IsPrefixed p prefix) (ground arith)
                  (at_end p prefix (eq_of_length path prefix starts (ground arith)) plain)
            | inr more ↦
                let (test, h₂) =
                  if-eq-ok (not (get_elem? path n == some b'/')) prefix_mismatch
                    (rw (file, more) at h₁) in
                subst (IsPrefixed p prefix) (ground arith)
                  (at_slash p prefix n test (take-prefix path prefix starts ∙ plain))
          ]
    ]
