-- ===== src/DavHeaders/Values.antt =====
-- src/davheaders.rs: the values of a header, and the headers `Depth` and `Overwrite`.
use dav_server_rs.Common.{
  ◌≡◌, Bool, true, false, Option, some, List, [], ◌∷◌, Result, ok, err, ◌>>=◌, ok_or, codes, Bytes,
  ◌==◌, ◌||◌, nat_eq, list_eq, if◌then◌else◌,
}

-- `headers::Error::invalid()`
pub data HeaderError : Type 0 where
  invalid : HeaderError

-- There must be one value.
unfoldable pub one : List Bytes → Result Bytes HeaderError
one [] = err invalid
one (v ∷ []) = ok v
one (v ∷ w ∷ values) = err invalid

-- `HeaderValue::to_str`, of the crate `http`: `none` where a byte is no visible ASCII.
abbrev pub ToStr : Type 0
ToStr = Bytes → Option Bytes

-- The text of a value has the bytes of the value.
abbrev pub IsToStr : ToStr → Type 0
IsToStr to_str = (v s : Bytes) → to_str v ≡ some s → s ≡ v

module _ (to_str : ToStr) where
  unfoldable pub one_str : List Bytes → Result Bytes HeaderError
  unfolding one
  one_str values = one values >>= λ v. ok_or (to_str v) invalid

pub data Depth : Type 0 where
  depth_zero depth_one infinity : Depth

unfoldable pub decode_depth : List Bytes → Result Depth HeaderError
unfolding one
decode_depth values = one values >>= λ v.
    if v == codes "0"
    then ok depth_zero
    else if v == codes "1"
    then ok depth_one
    else if v == codes "infinity" || v == codes "Infinity"
    then ok infinity
    else err invalid

unfoldable pub encode_depth : Depth → Bytes
encode_depth depth_zero = codes "0"
encode_depth depth_one = codes "1"
encode_depth infinity = codes "Infinity"

unfoldable pub decode_overwrite : List Bytes → Result Bool HeaderError
unfolding one
decode_overwrite values = one values >>= λ v.
    if v == codes "F" then ok false else if v == codes "T" then ok true else err invalid

unfoldable pub encode_overwrite : Bool → Bytes
encode_overwrite true = codes "T"
encode_overwrite false = codes "F"
