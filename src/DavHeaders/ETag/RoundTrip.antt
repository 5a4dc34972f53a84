-- ===== src/DavHeaders/ETag/RoundTrip.antt =====
-- An entity tag is read back from what is written for it.
use dav_server_rs.Common.{
  ◌≡◌, Bool, true, false, [], ◌∷◌, ◌++◌, ok, arith, Bytes, nat_eq, ends_with_byte, get_last?-concat,
  init-concat, length, length-append, leb,
}
use dav_server_rs.DavHeaders.ETag.{ETag, quote, has_quote, unquote, from_str, to_string}

ends_with-quote : (tag : Bytes) → ends_with_byte (quote ∷ tag ++ quote ∷ []) quote ≡ true
ends_with-quote tag = rw (get_last?-concat (quote ∷ tag) quote, ends_with_byte)

unquote-quoted :
    (weak : Bool) (tag : Bytes)
    → has_quote tag ≡ false
    → unquote weak (quote ∷ tag ++ quote ∷ []) ≡ ok (record { tag = tag; weak = weak })
unquote-quoted weak tag h =
    let long : leb 2 (length (quote ∷ tag ++ quote ∷ [])) ≡ true =
      ground (arith, length-append tag (quote ∷ [])) in
    ground (arith, ends_with-quote tag, init-concat tag quote)

-- Parsing what `Display` writes gives the tag back, weak or strong, if no quote stands in it. (`new`
-- refuses such a tag.)
pub from_str-to_string : (e : ETag) → has_quote e.tag ≡ false → from_str (to_string e) ≡ ok e
unfolding from_str to_string
from_str-to_string e h = written e.weak
  where
    written :
        (weak : Bool)
        → from_str (to_string (record e { weak = weak })) ≡ ok (record e { weak = weak })
    written true = unquote-quoted true e.tag h
    written false = unquote-quoted false e.tag h
