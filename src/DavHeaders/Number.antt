-- ===== src/DavHeaders/Number.antt =====
-- Rust's `str::parse` of an unsigned integer, and its `Display`.
use dav_server_rs.Common.{
  ℕ, zero, suc, ◌+◌, ◌-◌, ◌*◌, ◌/◌, ◌%◌, true, false, ◌&&◌, Option, none, some, [], ◌∷◌, Bytes,
  ◌==◌, nat_eq, if◌then◌else◌, is_empty, leb, ltb,
}

-- The digits after what has been read; `limit` is the first number that does not fit.
unfoldable pub read_digits : ℕ → ℕ → Bytes → Option ℕ
read_digits limit n [] = some n
read_digits limit n (c ∷ s) =
    let n' = n * 10 + (c - 48) in
    let rest = read_digits limit n' s in if leb 48 c && leb c 57 && ltb n' limit then rest else none

-- `s.parse()`: a plus sign may come first.
unfoldable pub parse : ℕ → Bytes → Option ℕ
parse limit [] = none
parse limit (c ∷ s) =
    if c == b'+'
    then (if is_empty s then none else read_digits limit 0 s)
    else read_digits limit 0 (c ∷ s)

unfoldable pub write_digits : ℕ → ℕ → Bytes → Bytes
write_digits zero n s = s
write_digits (suc fuel) n s =
    let s' = (48 + n % 10) ∷ s in
    elim (n / 10 == 0) [ true ↦ s' | false ↦ write_digits fuel (n / 10) s' ]

-- `format!("{n}")`: a number has no more digits than its successor.
unfoldable pub display : ℕ → Bytes
unfolding write_digits
display n = write_digits (suc n) n []
