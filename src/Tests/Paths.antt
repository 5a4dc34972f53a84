-- ===== src/Tests/Paths.antt =====
-- Runs of src/davpath.rs, and its properties at an input.
use dav_server_rs.Common.{
  ℕ, ◌+◌, ◌*◌, ◌-◌, ◌≡◌, refl, true, false, none, some, [], ◌∷◌, ok, err, codes, Bytes, arith, ◌==◌,
  nat_eq, leb, if◌then◌else◌,
}
use dav_server_rs.PercentEncoding.{PercentEncoding}
use dav_server_rs.DavPath.{
  DavPath, normalize_path, strip_query, push_all, push_decoded, set_prefix, as_bytes, get_prefix,
  parent, segments, is_in_collection, forbidden_path, invalid_path, prefix_mismatch,
}
use dav_server_rs.DavPath.Names.{IsNormal, IsName, normalize_path-IsNormal, segments-render}
use dav_server_rs.DavPath.Segments.{resolve_path, render, normalize_path-eq-resolve_path}
use dav_server_rs.DavPath.Prefix.{IsPrefixed, set_prefix-IsPrefixed}
use dav_server_rs.DavPath.Tree.{parent_lem}

abbrev hex_value : ℕ → ℕ
hex_value c = if leb c b'9' then c - 48 else if leb c b'F' then c - 55 else c - 87

-- `%XX` is decoded.
decode : Bytes → Bytes
decode (c ∷ h ∷ l ∷ s) = elim (c == b'%') [
  | true ↦ (hex_value h * 16 + hex_value l) ∷ decode s
  | false ↦ c ∷ decode (h ∷ l ∷ s)
]
decode s = s

abbrev pct : PercentEncoding
pct = record { non_alphanumeric = λ _. true; percent_encode = λ _ s. s; percent_decode = decode }

abbrev at : Bytes → DavPath
at path = record { fullpath = path; pfxlen = none }

normalize_dots : normalize_path pct (codes "/a/%2e%2e/b//./c/?q=1") ≡ ok (codes "/b/c/")
unfolding normalize_path strip_query push_all push_decoded decode
normalize_dots = refl

normalize_errors :
    (normalize_path pct (codes "/a/../..") ≡ err forbidden_path)
    × (normalize_path pct (codes "/a%2fb") ≡ err invalid_path)
    × (normalize_path pct (codes "/a#b") ≡ err invalid_path)
    × (normalize_path pct (codes "a") ≡ err invalid_path)
unfolding normalize_path strip_query push_all push_decoded decode
normalize_errors = (refl, refl, refl, refl)

normalize_path-IsNormal_example : IsNormal (codes "/b/c/")
normalize_path-IsNormal_example =
    normalize_path-IsNormal pct (codes "/a/%2e%2e/b//./c/?q=1") (codes "/b/c/") normalize_dots

normalize_path-eq-resolve_path_example :
    normalize_path pct (codes "/a/../b") ≡ resolve_path pct (codes "/a/../b")
normalize_path-eq-resolve_path_example = normalize_path-eq-resolve_path pct (codes "/a/../b")

a-IsName : IsName (codes "a")
a-IsName = record {
  not_empty = cc;
  not_dot = λ h. ground arith;
  not_dotdot = λ h. ground arith;
  bytes = omega arith;
}

b-IsName : IsName (codes "b")
b-IsName = record {
  not_empty = cc;
  not_dot = λ h. ground arith;
  not_dotdot = λ h. ground arith;
  bytes = omega arith;
}

segments-render_example :
    segments (render (codes "a" ∷ codes "b" ∷ []) true) ≡ codes "a" ∷ codes "b" ∷ []
segments-render_example =
    segments-render (codes "a" ∷ codes "b" ∷ []) true (a-IsName, (b-IsName, tt))

prefix_set :
    set_prefix (at (codes "/dav/a/b")) (codes "/dav")
    ≡ ok (record { fullpath = codes "/dav/a/b"; pfxlen = some 4 })
unfolding set_prefix
prefix_set = refl

prefix_boundary : set_prefix (at (codes "/davx")) (codes "/dav") ≡ err prefix_mismatch
unfolding set_prefix
prefix_boundary = refl

abbrev prefixed : DavPath
prefixed = record { fullpath = codes "/dav/a/b"; pfxlen = some 4 }

set_prefix-IsPrefixed_example : IsPrefixed (at (codes "/dav/a/b")) (codes "/dav") prefixed
set_prefix-IsPrefixed_example =
    set_prefix-IsPrefixed (at (codes "/dav/a/b")) (codes "/dav") prefix_set

path_below : as_bytes prefixed ≡ render (codes "a" ∷ codes "b" ∷ []) false
unfolding as_bytes
path_below = refl

parent_example :
    (get_prefix (parent prefixed) ≡ get_prefix prefixed)
    × (as_bytes (parent prefixed) ≡ render (codes "a" ∷ []) true)
    × (segments (as_bytes (parent prefixed)) ≡ codes "a" ∷ [])
    × (is_in_collection prefixed (parent prefixed) ≡ true)
parent_example =
    parent_lem prefixed (codes "a" ∷ []) (codes "b") false (omega arith) (a-IsName, tt) b-IsName
      path_below
