-- ===== src/Tests/Headers.antt =====
-- Runs of src/davheaders.rs, and its properties at an input.
use dav_server_rs.Common.{
  ◌≡◌, ◌≢◌, refl, Bool, true, false, Option, none, some, [], ◌∷◌, ok, err, codes, Bytes, arith,
  List, some,
}
use dav_server_rs.DavHeaders.Values.{invalid, ToStr, IsToStr, one, one_str}
use dav_server_rs.DavHeaders.ETag.{from_str, to_string}
use dav_server_rs.DavHeaders.ETag.RoundTrip.{from_str-to_string}
use dav_server_rs.DavHeaders.Number.{parse, read_digits}
use dav_server_rs.DavHeaders.Timeout.{
  infinite, encode_timeout, decode_timeout, decode_words, decode_word, all_from, encode_range,
  decode_range, seconds,
}
use dav_server_rs.DavHeaders.Timeout.Encoding.{
  decode_timeout-encode_timeout, decode_range-encode_range,
}
use dav_server_rs.DavHeaders.Server.{ServerUrl}
use dav_server_rs.DavHeaders.IfHeader.{
  decode_if, decode_loop, get_token, trim_left, step_in, step_list, add, IfList, state_token,
}
use dav_server_rs.DavHeaders.IfHeader.Total.{decode_if-ne-none}
use dav_server_rs.DavHeaders.IfHeader.WellFormed.{AreIfLists, decode_if-AreIfLists}

abbrev to_str : ToStr
to_str v = some v

to_str-IsToStr : IsToStr to_str
to_str-IsToStr v s h = ground arith

abbrev utf8 : Bytes → Bool
utf8 s = true

-- Every text is a URL, of one host.
abbrev parse_url : Bytes → Option ServerUrl
parse_url url =
    some (record {
      scheme = codes "http";
      host_str = some (codes "h");
      port = none;
      path = codes "/a";
    })

etag_example :
    from_str (to_string (record { tag = codes "x"; weak = true }))
    ≡ ok (record { tag = codes "x"; weak = true })
etag_example = from_str-to_string (record { tag = codes "x"; weak = true }) refl

timeout_decoded :
    decode_timeout to_str (codes "Second-30,Infinite" ∷ []) ≡ ok (seconds 30 ∷ infinite ∷ [])
unfolding decode_timeout one_str decode_words decode_word parse read_digits
timeout_decoded = refl

decode_timeout-encode_timeout_example :
    decode_timeout to_str (encode_timeout (infinite ∷ []) ∷ []) ≡ err invalid
decode_timeout-encode_timeout_example =
    decode_timeout-encode_timeout to_str (infinite ∷ []) to_str-IsToStr refl

decode_range-encode_range_example :
    decode_range to_str (encode_range (all_from 5) ∷ []) ≡ err invalid
decode_range-encode_range_example =
    decode_range-encode_range to_str (all_from 5) to_str-IsToStr (λ h. cc)

-- A list with a tag, and one behind it. The tag does not reach the second.
abbrev two_lists : Bytes
two_lists = codes "<http://h/a> (<t:1>) (Not <t:2>)"

abbrev parsed : List IfList
parsed =
    record {
      resource_tag = parse_url (codes "http://h/a");
      conditions = record { negated = false; item = state_token (codes "t:1") } ∷ [];
    }
    ∷ record {
      resource_tag = none;
      conditions = record { negated = true; item = state_token (codes "t:2") } ∷ [];
    }
    ∷ []

if_decoded : decode_if parse_url utf8 (two_lists ∷ []) ≡ some (ok parsed)
unfolding decode_if decode_loop get_token trim_left step_in step_list add one
if_decoded = refl

decode_if-AreIfLists_example : AreIfLists parsed
decode_if-AreIfLists_example = decode_if-AreIfLists parse_url utf8 (two_lists ∷ []) if_decoded

decode_if-ne-none_example : decode_if parse_url utf8 (two_lists ∷ []) ≢ none
decode_if-ne-none_example = decode_if-ne-none utf8 parse_url (two_lists ∷ [])
