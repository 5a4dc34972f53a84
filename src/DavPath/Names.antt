-- ===== src/DavPath/Names.antt =====
-- What holds of every path that `normalize_path` returns, and how its segments are read back.
use dav_server_rs.Common.{
  nat_eq, list_eq, list_beq_iff, ◌==◌, ◌≡◌, ◌≢◌, sym, subst, ◌∙◌, Bool, false, not, ◌||◌, List, [],
  ◌∷◌, map, codes, ok, err, arith, Bytes, is_empty, any, ◌>>=◌, append-nil, reverse, inl, inr,
  Bool-cases, Result-cases, All, All-reverse, split_on, ends_with_byte, starts_with, if-eq-ok,
  >>=-eq-ok,
}
use dav_server_rs.DavPath.{
  forbidden_path, normalize_path, segments, slash, is_printable, strip_query, invalid_path,
}
use dav_server_rs.DavPath.Segments.{
  resolve, resolve_all, render, normalize_path-eq-resolve_path, resolve_absolute,
}
use dav_server_rs.DavPath.Splitting.{IsSegment, segments-joined, segments-joined-append}
use dav_server_rs.PercentEncoding.{PercentEncoding}

-- A segment that names an entry of a directory, and nothing else.
pub record IsName (s : Bytes) : Type 0 where
  pub not_empty : s ≢ []
  pub not_dot : s ≢ codes "."
  pub not_dotdot : s ≢ codes ".."
  pub bytes : All (λ x. (x ≢ 0) × (x ≢ b'/')) s

no_separators :
    (s : Bytes) → any (λ x. x == 0 || x == b'/') s ≡ false → All (λ x. (x ≢ 0) × (x ≢ b'/')) s
no_separators [] h = tt
no_separators (x ∷ s) h = (ground arith, no_separators s (ground arith))

tests-IsName :
    (s : Bytes)
    → (s == codes "." || s == []) ≡ false
    → (s == codes "..") ≡ false
    → any (λ x. x == 0 || x == b'/') s ≡ false
    → IsName s
tests-IsName s dots dotdot seps = record {
  not_empty = ground (arith, list_beq_iff s []);
  not_dot = ground (arith, list_beq_iff s (codes "."));
  not_dotdot = ground (arith, list_beq_iff s (codes ".."));
  bytes = no_separators s seps;
}

resolve-IsName :
    (names : List Bytes) (s : Bytes) {names' : List Bytes}
    → All IsName names
    → resolve names s ≡ ok names'
    → All IsName names'
resolve-IsName names s {names'} h e = elim (Bool-cases (s == codes "." || s == [])) [
  | inl dot ↦ subst (All IsName) (ground arith) h
  | inr name ↦ elim (Bool-cases (s == codes "..")) [
    | inl up ↦ popped names h (rw (name, up) at e)
    | inr down ↦ elim (Bool-cases (any (λ x. x == 0 || x == b'/') s)) [
      | inl bad ↦ absurd (ground arith)
      | inr good ↦
          subst (All IsName) {x = s ∷ names} (ground arith) (tests-IsName s name down good, h)
    ]
  ]
]
  where
    popped :
        (names : List Bytes)
        → All IsName names
        → (elim names [ [] ↦ err forbidden_path | _ ∷ before ↦ ok before ]) ≡ ok names'
        → All IsName names'
    popped [] h e = absurd (ground arith)
    popped (n ∷ before) h e = subst (All IsName) (ground arith) h.1

resolve_all-IsName :
    (names segs : List Bytes) {names' : List Bytes}
    → All IsName names
    → resolve_all names segs ≡ ok names'
    → All IsName names'
unfolding resolve_all
resolve_all-IsName names [] h e = subst (All IsName) (ground arith) h
resolve_all-IsName names (s ∷ segs) h e = elim (Result-cases (resolve names s)) [
  | inl (after, r) ↦ resolve_all-IsName after segs (resolve-IsName names s h r) (rw (r, ◌>>=◌) at e)
  | inr (fault, r) ↦ absurd (ground arith)
]

pub record IsNormal (path : Bytes) : Type 0 where
  pub names : List Bytes
  pub isdir : Bool
  pub are_names : All IsName names
  pub rendered : path ≡ render names isdir

resolve_absolute-IsNormal :
    (pct : PercentEncoding) (rawpath : Bytes) {path : Bytes}
    → resolve_absolute pct rawpath ≡ ok path
    → IsNormal path
resolve_absolute-IsNormal pct rawpath h =
    let segs : List Bytes = map pct.percent_decode (split_on b'/' rawpath) in
    let isdir : Bool = ends_with_byte rawpath b'/' in
    let (_, h₁) = if-eq-ok (is_empty rawpath || not (starts_with rawpath slash)) invalid_path h in
    let (names, resolved, h₂) =
      >>=-eq-ok (resolve_all [] segs) (λ names. ok (render (reverse names) isdir)) h₁ in
    record {
      names = reverse names;
      isdir = isdir;
      are_names = All-reverse IsName names (resolve_all-IsName [] segs tt resolved);
      rendered = ground arith;
    }

-- Whatever a client sends, and whatever the percent decoding makes of it, a path that is accepted
-- is absolute and consists of names: no segment of it is empty, "." or "..", or holds a slash or
-- a NUL.
pub normalize_path-IsNormal :
    (pct : PercentEncoding) (rp path : Bytes) → normalize_path pct rp ≡ ok path → IsNormal path
normalize_path-IsNormal pct rp path h =
    let (_, h₁) =
      if-eq-ok (any (λ x. not (is_printable x)) rp) invalid_path
        (sym (normalize_path-eq-resolve_path pct rp) ∙ h) in
    let (rawpath, _, h₂) = >>=-eq-ok (strip_query rp) (resolve_absolute pct) h₁ in
    resolve_absolute-IsNormal pct rawpath h₂

name-IsSegment : (s : Bytes) → IsName s → IsSegment s
name-IsSegment s n = (n.not_empty, no_slash s n.bytes)
  where
    no_slash : (s : Bytes) → All (λ x. (x ≢ 0) × (x ≢ b'/')) s → All (λ x. x ≢ b'/') s
    no_slash [] h = tt
    no_slash (x ∷ s) ((_, p), h) = (p, no_slash s h)

names-AreSegments : (names : List Bytes) → All IsName names → All IsSegment names
names-AreSegments [] h = tt
names-AreSegments (s ∷ names) (n, h) = (name-IsSegment s n, names-AreSegments names h)

-- The names are read back from the path that is rendered from them, with or without a slash at
-- its end.
pub segments-render :
    (names : List Bytes) (isdir : Bool) → All IsName names → segments (render names isdir) ≡ names
unfolding segments
segments-render names isdir h = elim (Bool-cases (isdir || is_empty names)) [
  | inl dir ↦
      rw dir (segments-joined-append names [] (names-AreSegments names h) ∙ append-nil names)
  | inr file ↦ rw file (segments-joined names (names-AreSegments names h))
]
