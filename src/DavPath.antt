-- ===== src/DavPath.antt =====
-- src/davpath.rs: the path of a URL, decoded and normalised, behind a hidden prefix. A
-- `DavPathRef` is the slice of bytes that it wraps. Modelled for Unix: no path is rejected for
-- not being UTF-8.
pub mod Segments
pub mod Splitting
pub mod Names
pub mod Tree
pub mod Prefix
use dav_server_rs.Common.{
  nat_eq, list_eq, option_eq, ℕ, ◌+◌, ◌-◌, Bool, true, false, not, ◌&&◌, ◌||◌, Option, none, some,
  List, [], ◌∷◌, ◌++◌, map, Bytes, codes, Result, ok, err, ◌>>=◌, if◌then◌else◌, unwrap_or, ◌==◌,
  ltb, leb, length, any, take, drop, get_elem?, init, is_empty, retain, get_last?, starts_with,
  ends_with_byte, concat, split_on, position,
}
use dav_server_rs.PercentEncoding.{PercentEncoding}

pub data ParseError : Type 0 where
  invalid_path prefix_mismatch forbidden_path : ParseError

pub record DavPath : Type 0 where
  pub fullpath : Bytes
  pub pfxlen : Option ℕ

abbrev pub slash : Bytes
slash = b'/' ∷ []

module _ (pct : PercentEncoding) where
  -- `NON_ALPHANUMERIC` less five characters.
  unfoldable pub path_encode_set : ℕ → Bool
  path_encode_set b =
      if b == b'-' || b == b'_' || b == b'.' || b == b'~' || b == b'/'
      then false
      else pct.non_alphanumeric b

  unfoldable pub encode_path : Bytes → Bytes
  encode_path src = pct.percent_encode path_encode_set src

abbrev pub is_printable : ℕ → Bool
is_printable x = leb 32 x && leb x 126

-- The query is cut off; a fragment is refused.
unfoldable pub strip_query : Bytes → Result Bytes ParseError
strip_query rp = elim (position (λ x. x == b'?' || x == b'#') rp) [
  | none ↦ ok rp
  | some pos ↦ if get_elem? rp pos == some b'#' then err invalid_path else ok (take pos rp)
]

-- One round of the loop over the decoded segments; `v` holds a slash before each kept segment.
unfoldable pub push_decoded : List Bytes → Bytes → Result (List Bytes) ParseError
push_decoded v s =
    if s == codes "." || s == []
    then ok v
    else if s == codes ".."
    then (if ltb (length v) 2 then err forbidden_path else ok (init (init v)))
    else if any (λ x. x == 0 || x == b'/') s
    then err invalid_path
    else ok (v ++ slash ∷ s ∷ [])

unfoldable pub push_all : List Bytes → List Bytes → Result (List Bytes) ParseError
push_all v [] = ok v
push_all v (s ∷ segments) = push_decoded v s >>= λ v'. push_all v' segments

module _ (pct : PercentEncoding) where
  unfoldable pub normalize_path : Bytes → Result Bytes ParseError
  normalize_path rp =
      if any (λ x. not (is_printable x)) rp
      then err invalid_path
      else strip_query rp >>= λ rawpath.
          if is_empty rawpath || not (starts_with rawpath slash)
          then err invalid_path
          else push_all [] (map pct.percent_decode (split_on b'/' rawpath)) >>= λ v.
              ok (concat (if ends_with_byte rawpath b'/' || is_empty v then v ++ slash ∷ [] else v))

  -- `DavPath::new`
  unfoldable pub new : Bytes → Result DavPath ParseError
  new src = normalize_path src >>= λ path. ok (record { fullpath = path; pfxlen = none })

-- One trailing slash off, but for "/" itself.
unfoldable pub strip_slash : Bytes → Bytes
strip_slash b = if ltb 1 (length b) && ends_with_byte b b'/' then take (length b - 1) b else b

-- `PartialEq`
unfoldable pub eq : DavPath → DavPath → Bool
eq a b = strip_slash a.fullpath == strip_slash b.fullpath

unfoldable pub set_prefix : DavPath → Bytes → Result DavPath ParseError
set_prefix p prefix =
    let path = p.fullpath in
    let pfxlen = length prefix in
    if not (starts_with path prefix)
    then err prefix_mismatch
    else if ends_with_byte prefix b'/'
    then (if not (get_elem? path (pfxlen - 1) == some b'/')
        then err prefix_mismatch
        else ok (record { fullpath = path; pfxlen = some (pfxlen - 1) }))
    else if length path == pfxlen
    then ok (record { fullpath = path ++ slash; pfxlen = some pfxlen })
    else if not (get_elem? path pfxlen == some b'/')
    then err prefix_mismatch
    else ok (record { fullpath = path; pfxlen = some pfxlen })

-- `with_prefix`
unfoldable pub with_prefix : DavPath → Bytes
with_prefix p = p.fullpath

module _ (pct : PercentEncoding) where
  unfoldable pub from_str_and_prefix : Bytes → Bytes → Result DavPath ParseError
  from_str_and_prefix src prefix = normalize_path pct src >>= λ path.
      set_prefix (record { fullpath = path; pfxlen = none }) prefix

  -- The argument is the path of the URI.
  unfoldable pub from_uri_and_prefix : Bytes → Bytes → Result DavPath ParseError
  from_uri_and_prefix path prefix =
      if path == codes "*"
      then ok (record { fullpath = codes "*"; pfxlen = none })
      else if starts_with path slash
      then from_str_and_prefix path prefix
      else err invalid_path

unfoldable pub from_uri : Bytes → Result DavPath ParseError
from_uri path = ok (record { fullpath = path; pfxlen = none })

-- `Deref`, `as_bytes`, `get_path`: the path behind the prefix.
unfoldable pub as_bytes : DavPath → Bytes
as_bytes p = drop (unwrap_or p.pfxlen 0) p.fullpath

unfoldable pub get_prefix : DavPath → Bytes
get_prefix p = take (unwrap_or p.pfxlen 0) p.fullpath

unfoldable pub is_collection : DavPath → Bool
is_collection p = ends_with_byte (as_bytes p) b'/'

unfoldable pub is_star : DavPath → Bool
is_star p = as_bytes p == codes "*"

unfoldable pub add_slash : DavPath → DavPath
add_slash p = if not (is_collection p) then record p { fullpath = p.fullpath ++ slash } else p

unfoldable pub add_slash_if : DavPath → Bool → DavPath
add_slash_if p b =
    if b && not (is_collection p) then record p { fullpath = p.fullpath ++ slash } else p

unfoldable pub push_segment : DavPath → Bytes → DavPath
push_segment p b =
    let path = if not (is_collection p) then p.fullpath ++ slash else p.fullpath in
    record p { fullpath = path ++ b }

-- The parts between slashes that are not empty.
unfoldable pub segments : Bytes → List Bytes
segments path = retain (λ e. not (is_empty e)) (split_on b'/' path)

-- The loop of `parent`.
unfoldable pub extend_segments : Bytes → List Bytes → Bytes
extend_segments fullpath [] = fullpath
extend_segments fullpath (seg ∷ segs) = extend_segments ((fullpath ++ seg) ++ slash) segs

unfoldable pub parent : DavPath → DavPath
parent p =
    let pfxlen = unwrap_or p.pfxlen 0 in
    let segs = segments (drop pfxlen p.fullpath) in
    if is_empty segs then p else record {
      fullpath = extend_segments (take pfxlen p.fullpath ++ slash) (init segs);
      pfxlen = p.pfxlen;
    }

unfoldable pub is_in_collection : DavPath → DavPath → Bool
is_in_collection p collection =
    let href = as_bytes p in
    let path = as_bytes collection in
    let prefix = if not (ends_with_byte path b'/') then path ++ slash else path in
    starts_with href prefix && not (href == prefix)

-- The bytes of `as_pathbuf` and of `as_rel_ospath`, on Unix.
unfoldable pub as_pathbuf : DavPath → Bytes
as_pathbuf p = strip_slash (as_bytes p)

unfoldable pub as_rel_ospath : DavPath → Bytes
as_rel_ospath p =
    let path = drop 1 (as_bytes p) in
    if ends_with_byte path b'/' then take (length path - 1) path else path

unfoldable pub file_name_bytes : DavPath → Bytes
file_name_bytes p = unwrap_or (get_last? (segments (as_bytes p))) []

module _ (pct : PercentEncoding) where
  unfoldable pub as_url_string : DavPath → Bytes
  as_url_string p = encode_path pct (as_bytes p)

  unfoldable pub as_url_string_with_prefix_debug : DavPath → Bytes
  as_url_string_with_prefix_debug p =
      let path = encode_path pct (as_bytes p) in
      if not (is_empty (get_prefix p))
      then ((encode_path pct (get_prefix p) ++ codes "[") ++ path) ++ codes "]"
      else path
