-- ===== src/PercentEncoding.antt =====
-- The crate `percent_encoding`, which davpath.rs calls: a parameter of the model.
-- `IsPercentEncoding` is its documented behaviour.
use dav_server_rs.Common.{
  ℕ, ◌+◌, ◌/◌, ◌%◌, ◌<◌, ◌≡◌, ◌≢◌, Bool, true, false, [], ◌∷◌, Bytes, ltb, if◌then◌else◌,
}

pub record PercentEncoding : Type 0 where
  -- The bytes of the crate's set `NON_ALPHANUMERIC`.
  pub non_alphanumeric : ℕ → Bool
  -- `percent_encode(src, set).to_string().into_bytes()`
  pub percent_encode : (ℕ → Bool) → Bytes → Bytes
  -- `percent_decode(src).collect()`
  pub percent_decode : Bytes → Bytes

-- The hexadecimal digits that the crate writes.
abbrev pub hex_digit : ℕ → ℕ
hex_digit n = if ltb n 10 then 48 + n else 55 + n

pub record IsPercentEncoding (pct : PercentEncoding) : Type 0 where
  pub encode_nil : (set : ℕ → Bool) → pct.percent_encode set [] ≡ []
  -- A byte outside the set is kept.
  pub encode_kept :
      (set : ℕ → Bool) (b : ℕ) (src : Bytes)
      → b < 128
      → set b ≡ false
      → pct.percent_encode set (b ∷ src) ≡ b ∷ pct.percent_encode set src
  -- A byte of the set, and one that is not ASCII, becomes `%XX`.
  pub encode_set :
      (set : ℕ → Bool) (b : ℕ) (src : Bytes)
      → b < 256
      → set b ≡ true
      → pct.percent_encode set (b ∷ src)
        ≡ b'%' ∷ hex_digit (b / 16) ∷ hex_digit (b % 16) ∷ pct.percent_encode set src
  pub encode_non_ascii :
      (set : ℕ → Bool) (b : ℕ) (src : Bytes)
      → b < 256
      → 127 < b
      → pct.percent_encode set (b ∷ src)
        ≡ b'%' ∷ hex_digit (b / 16) ∷ hex_digit (b % 16) ∷ pct.percent_encode set src
  pub decode_nil : pct.percent_decode [] ≡ []
  pub decode_kept :
      (b : ℕ) (src : Bytes) → b ≢ b'%' → pct.percent_decode (b ∷ src) ≡ b ∷ pct.percent_decode src
  pub decode_hex :
      (b : ℕ) (src : Bytes)
      → b < 256
      → pct.percent_decode (b'%' ∷ hex_digit (b / 16) ∷ hex_digit (b % 16) ∷ src)
        ≡ b ∷ pct.percent_decode src
  -- The set holds the ASCII characters that are no letters and no digits.
  pub non_alphanumeric_control : (b : ℕ) → b < 48 → pct.non_alphanumeric b ≡ true
  pub non_alphanumeric_query : pct.non_alphanumeric b'?' ≡ true
  pub non_alphanumeric_delete : pct.non_alphanumeric 127 ≡ true
