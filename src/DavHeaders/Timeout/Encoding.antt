-- ===== src/DavHeaders/Timeout/Encoding.antt =====
-- What `encode` writes for the headers `Timeout` and `X-Update-Range`, and whether `decode` reads it.
use dav_server_rs.Common.{
  ℕ, zero, suc, ◌+◌, ◌%◌, ◌/◌, ◌≤◌, ◌≡◌, ◌≢◌, refl, ap, ◌∙◌, sym, false, List, [], ◌∷◌, ◌++◌, err,
  arith, Bytes, codes, is_empty, append_assoc, append-nil, Option-cases, inl, inr, Bool-cases, ◌==◌,
  nat_eq, list_eq,
}
use dav_server_rs.DavHeaders.Values.{invalid, ToStr, IsToStr, one_str}
use dav_server_rs.DavHeaders.Number.{display, write_digits}
use dav_server_rs.DavHeaders.Timeout.{
  DavTimeout, encode_timeout, encode_from, encode_one, decode_timeout, decode_words, decode_word,
  XUpdateRange, append, from_to, all_from, last, encode_range, decode_range,
}

encode_from-append :
    (value : Bytes) (v : List DavTimeout)
    → encode_from false value v ≡ value ++ encode_from false [] v
unfolding encode_from
encode_from-append value [] = sym (append-nil value)
encode_from-append value (s ∷ v) =
    let first = codes ", " ++ encode_one s in
    encode_from-append ((value ++ codes ", ") ++ encode_one s) v
    ∙ simp append_assoc (
        ap (λ r. value ++ r)
          (sym (encode_from-append first v ∙ append_assoc (codes ", ") (encode_one s) _)))

-- The text that is written starts with a comma.
refused :
    (to_str : ToStr) (value rest : Bytes)
    → IsToStr to_str
    → value ≡ b',' ∷ rest
    → decode_timeout to_str (value ∷ []) ≡ err invalid
unfolding decode_timeout one_str decode_words decode_word
refused to_str value rest h e = elim (Option-cases (to_str value)) [
  | inl n ↦ rw n refl
  | inr (s, n) ↦ rw (n, h value s n, e) refl
]

-- A list of timeouts that is not empty is written with a comma in front, and is refused when it is
-- read.
pub decode_timeout-encode_timeout :
    (to_str : ToStr) (v : List DavTimeout)
    → IsToStr to_str
    → is_empty v ≡ false
    → decode_timeout to_str (encode_timeout v ∷ []) ≡ err invalid
unfolding encode_timeout encode_from
decode_timeout-encode_timeout to_str [] h full = absurd (ground arith)
decode_timeout-encode_timeout to_str (s ∷ v) h full =
    refused to_str (encode_timeout (s ∷ v)) _ h (encode_from-append (codes ", " ++ encode_one s) v)

-- A text that starts with a digit.
abbrev StartsWithDigit : Bytes → Type 0
StartsWithDigit [] = ⊥
StartsWithDigit (c ∷ s) = (48 ≤ c) × (c ≤ 57)

write_digits-StartsWithDigit :
    (fuel n : ℕ) (s : Bytes) → StartsWithDigit s → StartsWithDigit (write_digits fuel n s)
unfolding write_digits
write_digits-StartsWithDigit zero n s h = h
write_digits-StartsWithDigit (suc fuel) n s h = elim (Bool-cases (n / 10 == 0)) [
  | inl done ↦ rw (done, write_digits) (omega arith)
  | inr more ↦
      rw (more, write_digits)
        (write_digits-StartsWithDigit fuel (n / 10) ((48 + n % 10) ∷ s) (omega arith))
]

display-StartsWithDigit : (n : ℕ) → StartsWithDigit (display n)
unfolding display write_digits
display-StartsWithDigit n = elim (Bool-cases (n / 10 == 0)) [
  | inl done ↦ rw (done, write_digits) (omega arith)
  | inr more ↦
      rw (more, write_digits)
        (write_digits-StartsWithDigit n (n / 10) ((48 + n % 10) ∷ []) (omega arith))
]

-- A text that starts below the letters.
abbrev StartsLow : Bytes → Type 0
StartsLow [] = ⊥
StartsLow (c ∷ s) = c ≤ 57

StartsLow-append : (s t : Bytes) → StartsWithDigit s → StartsLow (s ++ t)
StartsLow-append [] t h = absurd h
StartsLow-append (c ∷ s) t h = h.1

encode_range-StartsLow : (r : XUpdateRange) → r ≢ append → StartsLow (encode_range r)
unfolding encode_range
encode_range-StartsLow append h = absurd (h refl)
encode_range-StartsLow (from_to b e) h =
    rw append_assoc
      (StartsLow-append (display b) (codes "-" ++ display e) (display-StartsWithDigit b))
encode_range-StartsLow (all_from b) h =
    StartsLow-append (display b) (codes "-") (display-StartsWithDigit b)
encode_range-StartsLow (last e) h = omega arith

low_refused :
    (to_str : ToStr) (value : Bytes)
    → IsToStr to_str
    → StartsLow value
    → decode_range to_str (value ∷ []) ≡ err invalid
unfolding decode_range one_str
low_refused to_str [] h low = absurd low
low_refused to_str (c ∷ s) h low = elim (Option-cases (to_str (c ∷ s))) [
  | inl n ↦ rw n refl
  | inr (t, n) ↦ rw (n, h (c ∷ s) t n) (ground arith)
]

-- A range that is written, other than `append`, is refused when it is read: the unit "bytes=" is
-- missing.
pub decode_range-encode_range :
    (to_str : ToStr) (r : XUpdateRange)
    → IsToStr to_str
    → r ≢ append
    → decode_range to_str (encode_range r ∷ []) ≡ err invalid
decode_range-encode_range to_str r h other =
    low_refused to_str (encode_range r) h (encode_range-StartsLow r other)
