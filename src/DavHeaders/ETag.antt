-- ===== src/DavHeaders/ETag.antt =====
-- src/davheaders.rs: entity tags and lists of them.
pub mod RoundTrip
use dav_server_rs.Common.{
  ℕ, ◌-◌, Bool, true, false, not, ◌&&◌, ◌||◌, Option, none, some, List, [], ◌∷◌, ◌++◌, map, Result,
  ok, err, ◌>>=◌, ok_or, codes, Bytes, ◌==◌, nat_eq, list_eq, if◌then◌else◌, any, is_empty, leb,
  length, init, drop, starts_with, ends_with_byte, split_on, reverse,
}
use dav_server_rs.DavHeaders.Values.{HeaderError, invalid, ToStr}

-- `tag` is the text between the quotes.
pub record ETag : Type 0 where
  pub tag : Bytes
  pub weak : Bool

abbrev pub quote : ℕ
quote = 34

abbrev pub has_quote : Bytes → Bool
has_quote t = any (λ c. c == quote) t

unfoldable pub new : Bool → Bytes → Result ETag HeaderError
new weak t = if has_quote t then err invalid else ok (record { tag = t; weak = weak })

-- The argument is the `etag()` of the metadata.
unfoldable pub from_meta : Option Bytes → Option ETag
from_meta none = none
from_meta (some tag) = some (record { tag = tag; weak = false })

unfoldable pub strong_eq : ETag → ETag → Bool
strong_eq a b = not a.weak && not b.weak && a.tag == b.tag

unfoldable pub weak_eq : ETag → ETag → Bool
weak_eq a b = a.tag == b.tag

-- `&s[1..s.len() - 1]`
abbrev pub inner : Bytes → Bytes
inner s = init (drop 1 s)

abbrev pub unquote : Bool → Bytes → Result ETag HeaderError
unquote weak s =
    if leb 2 (length s)
      && starts_with s (quote ∷ [])
      && ends_with_byte s quote
      && not (has_quote (inner s))
    then ok (record { tag = inner s; weak = weak })
    else if not (is_empty s) && not (has_quote s)
    then ok (record { tag = s; weak = weak })
    else err invalid

unfoldable pub from_str : Bytes → Result ETag HeaderError
from_str t = if starts_with t (codes "W/") then unquote true (drop 2 t) else unquote false t

-- `Display`
unfoldable pub to_string : ETag → Bytes
to_string e = (if e.weak then codes "W/" else []) ++ (quote ∷ e.tag ++ quote ∷ [])

pub data ETagList : Type 0 where
  tags : List ETag → ETagList
  star : ETagList

-- `str::trim`, of a text that is ASCII.
abbrev pub is_space : ℕ → Bool
is_space c = c == 32 || leb 9 c && leb c 13

pub trim_start : Bytes → Bytes
trim_start [] = []
trim_start (c ∷ s) = if is_space c then trim_start s else c ∷ s

unfoldable pub trim : Bytes → Bytes
unfolding trim_start
trim s = reverse (trim_start (reverse (trim_start s)))

-- Tags that are not well formed are skipped.
unfoldable pub parse_tags : List Bytes → List ETag
parse_tags [] = []
parse_tags (t ∷ words) =
    let rest = parse_tags words in elim (from_str (trim t)) [ ok e ↦ e ∷ rest | err _ ↦ rest ]

module _ (to_str : ToStr) where
  -- The loop over the values: what the tags of the values before are.
  unfoldable pub decode_values : List ETag → List Bytes → Result ETagList HeaderError
  decode_values v [] = ok (tags v)
  decode_values v (value ∷ values) = ok_or (to_str value) invalid >>= λ s.
      let rest = decode_values (v ++ parse_tags (split_on b',' s)) values in
      if trim s == codes "*" then ok star else rest

  unfoldable pub decode_etaglist : List Bytes → Result ETagList HeaderError
  decode_etaglist [] = err invalid
  decode_etaglist (value ∷ values) = decode_values [] (value ∷ values)

-- `join(", ")`
abbrev pub join_comma : List Bytes → Bytes
join_comma [] = []
join_comma (s ∷ []) = s
join_comma (s ∷ t ∷ r) = s ++ (codes ", " ++ join_comma (t ∷ r))

unfoldable pub encode_etaglist : ETagList → Bytes
encode_etaglist star = codes "*"
encode_etaglist (tags t) = join_comma (map to_string t)
