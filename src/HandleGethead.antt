-- ===== src/HandleGethead.antt =====
-- src/handle_gethead.rs: the ranges of a GET, its status, and the loop that sends the body.
pub mod Visible
pub mod Sending
pub mod Ranges
use dav_server_rs.Common.{
  ℕ, zero, suc, ◌+◌, ◌-◌, min, Bool, true, false, not, ◌||◌, ◌&&◌, Option, none, some, List, [],
  ◌∷◌, ◌++◌, Result, ok, err, Bytes, if◌then◌else◌, leb, ltb, length, is_empty, ◌==◌, nat_eq,
  u64_limit, zeros,
}
use dav_server_rs.DavHeaders.ETag.{ETag}
use dav_server_rs.Conditional.{IfRange, ifrange_match, SystemTime, not_modified}
use dav_server_rs.Errors.{ErrorKind}

pub record Range : Type 0 where
  pub start : ℕ
  pub count : ℕ

-- `std::ops::Bound`
pub data Bound : Type 0 where
  included excluded : ℕ → Bound
  unbounded : Bound

abbrev pub u64_max : ℕ
u64_max = u64_limit - 1

-- The `match` on a range of the header: its start, its end, and whether it is valid.
unfoldable pub endpoints : ℕ → Bound → Bound → ℕ × ℕ × Bool
endpoints len (included s) (included e) = if leb s e then (s, e, true) else (0, 0, false)
endpoints len (included s) unbounded = (s, u64_max, true)
endpoints len unbounded (included n) = if leb n len then (len - n, u64_max, true) else (0, 0, false)
endpoints len _ _ = (0, 0, false)

-- The loop over the ranges. `none` is the `break` for a range that cannot be satisfied.
unfoldable pub collect : ℕ → List Range → List (Bound × Bound) → Option (List Range)
unfolding endpoints
collect len ranges [] = some ranges
collect len ranges ((lo, hi) ∷ rest) =
    let (start, end, valid) = endpoints len lo hi in
    let end' = min end (len - 1) in
    let more =
      collect len (ranges ++ record { start = start; count = end' - start + 1 } ∷ []) rest in
    if not valid || leb len start then none else more

-- What `handle_get` has found out when it comes to the ranges.
pub record Get : Type 0 where
  pub head : Bool
  pub len : ℕ
  pub etag : Option ETag
  pub modified : Option SystemTime
  -- `typed_try_get::<IfRange>()`: an error, or the header if there is one.
  pub if_range : Result (Option IfRange) (Unit {0})
  -- The answer of `conditional::if_match`.
  pub if_match : Option ℕ
  -- `satisfiable_ranges(len)` of the Range header, if there is one.
  pub ranges : Option (List (Bound × Bound))
  -- Whether `file.seek` to a position succeeds.
  pub seeks : ℕ → Bool

-- The response, without its body. `parts` is what `handle_get` keeps in `ranges`.
pub record Plan : Type 0 where
  pub status : ℕ
  pub no_body : Bool
  -- The `Content-Range: bytes */len` of an answer 416.
  pub unsatisfied : Bool
  pub parts : List Range

abbrev pub refused : Plan
refused = record { status = 416; no_body = true; unsatisfied = true; parts = [] }

-- The initial `do_range`.
unfoldable pub range_wanted : Get → Bool
range_wanted g = elim g.if_range [
  | err _ ↦ false
  | ok none ↦ true
  | ok (some r) ↦ ifrange_match r g.etag g.modified
]

-- The if-headers and the Range header.
unfoldable pub plan_ranges : Get → Plan
plan_ranges g = elim g.if_match [
  | some s ↦ record { status = s; no_body = true; unsatisfied = false; parts = [] }
  | none ↦
      (let whole : Plan = record {
        status = 200;
        no_body = false;
        unsatisfied = false;
        parts = [];
      } in
        if not (range_wanted g) then whole else elim g.ranges [
          | none ↦ whole
          | some rs ↦ elim (collect g.len [] rs) [
            | none ↦ refused
            | some parts ↦ record {
              status = 200;
              no_body = false;
              unsatisfied = false;
              parts = parts;
            }
          ]
        ])
]

-- Seeking to the first range, and the status of the ranges or of the whole file.
unfoldable pub plan_seek : Get → Plan → Plan
plan_seek g p = elim p.parts [
  | [] ↦ record p { parts = record { start = 0; count = g.len } ∷ [] }
  | r ∷ rest ↦
      (if g.seeks r.start
        then record p { status = 206 }
        else record refused { parts = record { start = 0; count = g.len } ∷ [] })
]

unfoldable pub plan_get : Get → Plan
plan_get g = plan_seek g (plan_ranges g)

-- The Content-Length of a response with one range or none; a multipart response has none.
unfoldable pub content_length : Get → Plan → Option ℕ
content_length g p = elim p.parts [
  | [] ↦ none
  | r ∷ [] ↦ some (if g.head || not p.no_body || p.status == not_modified then r.count else 0)
  | r ∷ s ∷ rest ↦ none
]

-- The ranges that the body is made of: `handle_get` returns early without one.
unfoldable pub body_parts : Get → Plan → List Range
body_parts g p = if g.head || p.no_body then [] else p.parts

-- What is read, or zeros where the file has ended.
unfoldable pub chunk : ℕ → Bytes → Bytes
chunk count buf = if is_empty buf then zeros (if ltb 4096 count then 4096 else count) else buf

-- The loop over one range: the chunks sent, and how it ended; `none` is the lack of fuel.
-- `read pos blen` is `file.read_bytes(blen)` at a position.
module _ (read : ℕ → ℕ → Result Bytes ErrorKind) (read_buf_size : ℕ) where
  unfoldable pub send_range : ℕ → ℕ → ℕ → List Bytes × Option (Result (Unit {0}) ErrorKind)
  send_range fuel curpos zero = ([], some (ok tt))
  send_range zero curpos (suc c) = ([], none)
  send_range (suc fuel) curpos (suc c) = elim (read curpos (min (suc c) read_buf_size)) [
    | err e ↦ ([], some (err e))
    | ok found ↦
        (let buf = chunk (suc c) found in
          let (sent, outcome) = send_range fuel (curpos + length buf) (suc c - length buf) in
          (buf ∷ sent, outcome))
  ]
