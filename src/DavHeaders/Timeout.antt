-- ===== src/DavHeaders/Timeout.antt =====
-- src/davheaders.rs: the headers `Timeout` and `X-Update-Range`.
pub mod Encoding
use dav_server_rs.Common.{
  ℕ, Bool, true, false, not, ◌&&◌, Option, none, some, List, [], ◌∷◌, ◌++◌, Result, ok, err, ◌>>=◌,
  ok_or, codes, Bytes, ◌==◌, nat_eq, list_eq, if◌then◌else◌, is_empty, drop, starts_with, split_on,
  u32_limit, u64_limit,
}
use dav_server_rs.DavHeaders.Values.{HeaderError, invalid, ToStr, one_str}
use dav_server_rs.DavHeaders.Number.{parse, display}

pub data DavTimeout : Type 0 where
  seconds : ℕ → DavTimeout
  infinite : DavTimeout

unfoldable pub decode_word : Bytes → Result DavTimeout HeaderError
decode_word word =
    if word == codes "Infinite"
    then ok infinite
    else if starts_with word (codes "Second-")
    then (ok_or (parse u32_limit (drop 7 word)) invalid >>= λ n. ok (seconds n))
    else err invalid

unfoldable pub decode_words : List Bytes → Result (List DavTimeout) HeaderError
decode_words [] = ok []
decode_words (word ∷ words) = decode_word word >>= λ w. decode_words words >>= λ v. ok (w ∷ v)

unfoldable pub encode_one : DavTimeout → Bytes
encode_one (seconds n) = codes "Second-" ++ display n
encode_one infinite = codes "Infinite"

-- The loop of `encode`; `first` is the flag of that name.
unfoldable pub encode_from : Bool → Bytes → List DavTimeout → Bytes
encode_from first value [] = value
encode_from first value (s ∷ v) =
    encode_from false ((if not first then value ++ codes ", " else value) ++ encode_one s) v

unfoldable pub encode_timeout : List DavTimeout → Bytes
encode_timeout v = encode_from false [] v

pub data XUpdateRange : Type 0 where
  from_to : ℕ → ℕ → XUpdateRange
  all_from : ℕ → XUpdateRange
  last : ℕ → XUpdateRange
  append : XUpdateRange

abbrev number : Bytes → Result ℕ HeaderError
number s = ok_or (parse u64_limit s) invalid

unfoldable pub decode_nums : List Bytes → Result XUpdateRange HeaderError
decode_nums (a ∷ b ∷ []) =
    if not (is_empty a) && not (is_empty b)
    then (number a >>= λ m. number b >>= λ n. ok (from_to m n))
    else if not (is_empty a)
    then (number a >>= λ m. ok (all_from m))
    else if not (is_empty b)
    then (number b >>= λ n. ok (last n))
    else err invalid
decode_nums _ = err invalid

unfoldable pub encode_range : XUpdateRange → Bytes
encode_range append = codes "append"
encode_range (from_to b e) = (display b ++ codes "-") ++ display e
encode_range (all_from b) = display b ++ codes "-"
encode_range (last e) = codes "-" ++ display e

module _ (to_str : ToStr) where
  unfoldable pub decode_timeout : List Bytes → Result (List DavTimeout) HeaderError
  decode_timeout values = one_str to_str values >>= λ s. decode_words (split_on b',' s)

  unfoldable pub decode_range : List Bytes → Result XUpdateRange HeaderError
  decode_range values = one_str to_str values >>= λ s.
      if s == codes "append"
      then ok append
      else if not (starts_with s (codes "bytes="))
      then err invalid
      else decode_nums (split_on b'-' (drop 6 s))
