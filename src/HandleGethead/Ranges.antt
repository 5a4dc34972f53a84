-- ===== src/HandleGethead/Ranges.antt =====
-- The ranges of a GET lie within the file.
use dav_server_rs.Common.{
  ℕ, ◌+◌, ◌-◌, ◌≤◌, ◌<◌, ◌≡◌, refl, subst, true, false, not, ◌||◌, some, List, [], ◌∷◌, ◌++◌, All,
  All-append, arith, min, leb, Bool-cases, inl, inr, ◌⊎◌, List-cases, Option-cases, ◌≢◌, u64_limit,
}
use dav_server_rs.HandleGethead.{
  Range, Bound, included, excluded, unbounded, Get, Plan, endpoints, collect, plan_ranges,
  plan_seek, plan_get, body_parts, content_length, range_wanted, not_modified,
}

-- A range of at least one byte within a file of length `len`.
pub record IsWithin (len : ℕ) (r : Range) : Type 0 where
  pub not_empty : 1 ≤ r.count
  pub within : r.start + r.count ≤ len

-- A valid range with its start in the file does not end before it starts.
endpoints_ordered :
    (len : ℕ) (lo hi : Bound)
    → len < u64_limit
    → (endpoints len lo hi).2 ≡ true
    → (endpoints len lo hi).0 < len
    → (endpoints len lo hi).0 ≤ (endpoints len lo hi).1
unfolding endpoints
endpoints_ordered len (included s) (included e) b v h = ground arith
endpoints_ordered len (included s) unbounded b v h = ground arith
endpoints_ordered len (included s) (excluded e) b v h = ground arith
endpoints_ordered len unbounded (included n) b v h = ground arith
endpoints_ordered len unbounded (excluded n) b v h = ground arith
endpoints_ordered len unbounded unbounded b v h = ground arith
endpoints_ordered len (excluded s) hi b v h = ground arith

range_of : ℕ → Bound → Bound → Range
range_of len lo hi = record {
  start = (endpoints len lo hi).0;
  count = min (endpoints len lo hi).1 (len - 1) - (endpoints len lo hi).0 + 1;
}

collect-IsWithin :
    (len : ℕ) (ranges : List Range) (rs : List (Bound × Bound)) {found : List Range}
    → len < u64_limit
    → All (IsWithin len) ranges
    → collect len ranges rs ≡ some found
    → All (IsWithin len) found
unfolding collect range_of
collect-IsWithin len ranges [] {found} b h e =
    subst (All (IsWithin len)) {x = ranges} (ground arith) h
collect-IsWithin len ranges ((lo, hi) ∷ rs) b h e =
    elim (Bool-cases (not (endpoints len lo hi).2 || leb len (endpoints len lo hi).0)) [
      | inl bad ↦ absurd (ground arith)
      | inr good ↦
          let first = endpoints_ordered len lo hi b (ground arith) (ground arith) in
          let one : IsWithin len (range_of len lo hi) = record {
            not_empty = omega arith;
            within = ground arith;
          } in
          collect-IsWithin len (ranges ++ range_of len lo hi ∷ []) rs b
            (All-append (IsWithin len) ranges (range_of len lo hi ∷ []) h (one, tt)) (ground arith)
    ]

-- Non-empty ranges in the file, or the whole file as the only one.
abbrev pub AreParts : ℕ → List Range → Type 0
AreParts len parts = All (IsWithin len) parts ⊎ (parts ≡ record { start = 0; count = len } ∷ [])

plan_seek-AreParts :
    (g : Get) (p : Plan) → All (IsWithin g.len) p.parts → AreParts g.len (plan_seek g p).parts
unfolding plan_seek
plan_seek-AreParts g p h = elim (List-cases p.parts) [
  | inl e ↦ rw e (inr refl)
  | inr (r, rest, e) ↦ elim (Bool-cases (g.seeks r.start)) [
    | inl met ↦ rw (e, met) (inl (rw e at h))
    | inr unmet ↦ rw (e, unmet) (inr refl)
  ]
]

plan_ranges-IsWithin : (g : Get) → g.len < u64_limit → All (IsWithin g.len) (plan_ranges g).parts
unfolding plan_ranges range_wanted
plan_ranges-IsWithin g b = elim (Option-cases g.if_match) [
  | inr (s, e) ↦ rw e tt
  | inl e ↦ elim (Bool-cases (range_wanted g)) [
    | inr unmet ↦ rw (e, unmet) tt
    | inl met ↦ elim (Option-cases g.ranges) [
      | inl n ↦ rw (e, met, n) tt
      | inr (rs, n) ↦ elim (Option-cases (collect g.len [] rs)) [
        | inl c ↦ rw (e, met, n, c) tt
        | inr (found, c) ↦ rw (e, met, n, c) (collect-IsWithin g.len [] rs b tt c)
      ]
    ]
  ]
]

-- A GET serves the whole file, or ranges that each hold a byte at least and lie within the file,
-- whatever ranges the request asks for; no count overflows.
pub plan_get-AreParts : (g : Get) → g.len < u64_limit → AreParts g.len (plan_get g).parts
unfolding plan_get
plan_get-AreParts g b = plan_seek-AreParts g (plan_ranges g) (plan_ranges-IsWithin g b)

-- The bytes of some ranges.
abbrev pub total : List Range → ℕ
total [] = 0
total (r ∷ parts) = r.count + total parts

content_length_of :
    (g : Get) (p : Plan) (n : ℕ)
    → g.head ≡ false
    → p.status ≢ not_modified
    → content_length g p ≡ some n
    → total (body_parts g p) ≡ n
unfolding content_length body_parts
content_length_of g p n h s e = elim (List-cases p.parts) [
  | inl c ↦ absurd (ground arith)
  | inr (r, [], c) ↦ elim (Bool-cases p.no_body) [
    | inl b ↦ ground arith
    | inr b ↦ rw (h, b, c) (ground arith)
  ]
  | inr (r, t ∷ rest, c) ↦ absurd (ground arith)
]

-- The Content-Length of a response is the length of its body, but for HEAD and 304, which state the
-- length of a body that is not sent.
pub content_length-eq-total :
    (g : Get) (n : ℕ)
    → g.head ≡ false
    → (plan_get g).status ≢ not_modified
    → content_length g (plan_get g) ≡ some n
    → total (body_parts g (plan_get g)) ≡ n
content_length-eq-total g n h s e = content_length_of g (plan_get g) n h s e
