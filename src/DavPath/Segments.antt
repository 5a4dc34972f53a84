-- ===== src/DavPath/Segments.antt =====
-- `normalize_path` against an independent description: dot segments are resolved on a stack of
-- names, and the path is written from the names that are left.
use dav_server_rs.Common.{
  nat_eq, list_eq, ◌≡◌, refl, Bool, not, ◌||◌, List, [], ◌∷◌, ◌++◌, map, codes, ok, Result, err,
  arith, Bytes, is_empty, if◌then◌else◌, ◌==◌, any, ◌>>=◌, concat, append_assoc, init-init-append,
  Result-cases, append-nil, reverse, length-append, inl, reverse-cons, inr, concat-append,
  starts_with, split_on, ends_with_byte, ap, fun_ext, is_empty-append, ◌∙◌, sym,
}
use dav_server_rs.PercentEncoding.{PercentEncoding}
use dav_server_rs.DavPath.{
  normalize_path, strip_query, push_all, push_decoded, invalid_path, ParseError, slash,
  forbidden_path, is_printable,
}

-- One segment resolved against the names before it, the last first.
abbrev pub resolve : List Bytes → Bytes → Result (List Bytes) ParseError
resolve names s =
    if s == codes "." || s == []
    then ok names
    else if s == codes ".."
    then elim names [ [] ↦ err forbidden_path | _ ∷ before ↦ ok before ]
    else if any (λ x. x == 0 || x == b'/') s
    then err invalid_path
    else ok (s ∷ names)

unfoldable pub resolve_all : List Bytes → List Bytes → Result (List Bytes) ParseError
resolve_all names [] = ok names
resolve_all names (s ∷ segments) = resolve names s >>= λ names'. resolve_all names' segments

-- The vector of the loop: a slash before each name.
abbrev pub slashed : List Bytes → List Bytes
slashed [] = []
slashed (s ∷ before) = slashed before ++ slash ∷ s ∷ []

abbrev map_ok {ℓ κ μ} : {A : Type ℓ} {B : Type κ} {E : Type μ} → (A → B) → Result A E → Result B E
map_ok f (ok a) = ok (f a)
map_ok f (err e) = err e

push_decoded-slashed :
    (names : List Bytes) (s : Bytes)
    → push_decoded (slashed names) s ≡ map_ok slashed (resolve names s)
unfolding push_decoded
push_decoded-slashed [] s = ground arith
push_decoded-slashed (n ∷ names) s = ground (
  arith,
  init-init-append (slashed names) slash n,
  length-append (slashed names) (slash ∷ n ∷ []),
)

push_all-slashed :
    (names segments : List Bytes)
    → push_all (slashed names) segments ≡ map_ok slashed (resolve_all names segments)
unfolding push_all resolve_all
push_all-slashed names [] = refl
push_all-slashed names (s ∷ segments) =
    rw (push_decoded-slashed names s) (elim (Result-cases (resolve names s)) [
      | inl (names', e) ↦ rw e (push_all-slashed names' segments)
      | inr (e', e) ↦ rw e refl
    ])

-- The path of the names, in order.
abbrev pub joined : List Bytes → Bytes
joined [] = []
joined (s ∷ names) = b'/' ∷ s ++ joined names

abbrev pub render : List Bytes → Bool → Bytes
render names isdir = if isdir || is_empty names then joined names ++ slash else joined names

pub joined-concat :
    (names : List Bytes) (s : Bytes) → joined (names ++ s ∷ []) ≡ joined names ++ b'/' ∷ s
joined-concat [] s = rw append-nil
joined-concat (n ∷ names) s = simp (joined-concat names s, append_assoc)

concat-slashed : (names : List Bytes) → concat (slashed names) ≡ joined (reverse names)
concat-slashed [] = refl
concat-slashed (s ∷ names) =
    simp (reverse-cons, joined-concat, concat-append, concat-slashed names, append-nil)

is_empty-slashed : (names : List Bytes) → is_empty (slashed names) ≡ is_empty (reverse names)
is_empty-slashed [] = refl
is_empty-slashed (s ∷ names) =
    is_empty-append (slashed names) slash (s ∷ [])
    ∙ sym (rw reverse-cons (is_empty-append (reverse names) s []))

concat-render :
    (names : List Bytes) (isdir : Bool)
    → concat
        (if isdir || is_empty (slashed names) then slashed names ++ slash ∷ [] else slashed names)
      ≡ render (reverse names) isdir
concat-render names isdir = ground (
  arith,
  is_empty-slashed names,
  concat-slashed names,
  concat-append (slashed names) (slash ∷ []),
)

finish-slashed :
    (r : Result (List Bytes) ParseError) (isdir : Bool)
    → (map_ok slashed r >>= λ v. ok (concat (if isdir || is_empty v then v ++ slash ∷ [] else v)))
      ≡ (r >>= λ names. ok (render (reverse names) isdir))
finish-slashed (ok names) isdir = ap ok (concat-render names isdir)
finish-slashed (err e) isdir = refl

module _ (pct : PercentEncoding) where
  abbrev pub resolve_absolute : Bytes → Result Bytes ParseError
  resolve_absolute rawpath =
      if is_empty rawpath || not (starts_with rawpath slash)
      then err invalid_path
      else resolve_all [] (map pct.percent_decode (split_on b'/' rawpath)) >>= λ names.
          ok (render (reverse names) (ends_with_byte rawpath b'/'))

  -- What `normalize_path` computes, with the names of the path in place of its buffer.
  abbrev pub resolve_path : Bytes → Result Bytes ParseError
  resolve_path rp =
      if any (λ x. not (is_printable x)) rp
      then err invalid_path
      else strip_query rp >>= resolve_absolute

  -- The loop over the buffer computes the path of the names that are left after each "." and
  -- empty segment is dropped and each ".." has taken the name before it, with the same errors.
  pub normalize_path-eq-resolve_path : (rp : Bytes) → normalize_path pct rp ≡ resolve_path rp
  unfolding normalize_path
  normalize_path-eq-resolve_path rp =
      ap
        (λ f. if any (λ x. not (is_printable x)) rp then err invalid_path else strip_query rp >>= f)
        (fun_ext λ rawpath.
          ap
            (λ r.
              if is_empty rawpath || not (starts_with rawpath slash) then err invalid_path else r)
            (rw (push_all-slashed [] (map pct.percent_decode (split_on b'/' rawpath))) (
              finish-slashed (resolve_all [] (map pct.percent_decode (split_on b'/' rawpath)))
                (ends_with_byte rawpath b'/'))))
