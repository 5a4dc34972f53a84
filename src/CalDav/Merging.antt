-- ===== src/CalDav/Merging.antt =====
-- What merging busy periods keeps, and when a component overlaps a time range (src/caldav.rs).
use dav_server_rs.Common.{
  ℕ, ◌≤◌, ◌<◌, ◌≡◌, refl, ◌⊎◌, ◌↔◌, inl, inr, true, false, List, [], ◌∷◌, Bool-cases, All, Any,
  Pairwise, arith, sort_by, sort_by-Pairwise, sym, Any-sort_by, Pairwise-sort_by, ap,
}
use dav_server_rs.CalDav.Busy.{
  BusyInterval, FreeBusyType, rank, by_type, by_start, joins, extend_to, merge_from, merge_sorted,
  merge_busy_intervals, lex_leb, rank_inj,
}

-- The instant lies in the period.
abbrev pub Covers : ℕ → FreeBusyType → BusyInterval → Type 0
Covers t ty iv = (iv.fbtype ≡ ty) × (iv.start ≤ t) × (t < iv.end)

-- Some period of that type covers the instant.
abbrev pub IsBusy : ℕ → FreeBusyType → List BusyInterval → Type 0
IsBusy t ty xs = Any (Covers t ty) xs

abbrev pub Lex : ℕ → ℕ → ℕ → ℕ → Type 0
Lex a b c d = (a < c) ⊎ ((a ≡ c) × (b ≤ d))

abbrev pub ByType : BusyInterval → BusyInterval → Type 0
ByType x y = Lex (rank x.fbtype) x.start (rank y.fbtype) y.start

abbrev pub ByStart : BusyInterval → BusyInterval → Type 0
ByStart x y = Lex x.start (rank x.fbtype) y.start (rank y.fbtype)

-- Periods of one type neither overlap nor touch.
abbrev pub Apart : BusyInterval → BusyInterval → Type 0
Apart x y = x.fbtype ≡ y.fbtype → (x.end < y.start) ⊎ (y.end < x.start)

lex_leb-Lex : (a b c d : ℕ) → lex_leb a b c d ≡ true → Lex a b c d
lex_leb-Lex a b c d h = ground arith

not_lex_leb-Lex : (a b c d : ℕ) → lex_leb a b c d ≡ false → Lex c d a b
not_lex_leb-Lex a b c d h = ground arith

Lex-trans : (a b c d e f : ℕ) → Lex a b c d → Lex c d e f → Lex a b e f
Lex-trans a b c d e f h k = ground arith

by_type-Pairwise : (xs : List BusyInterval) → Pairwise ByType (sort_by by_type xs)
by_type-Pairwise =
    sort_by-Pairwise by_type ByType (λ x y. lex_leb-Lex _ _ _ _) (λ x y. not_lex_leb-Lex _ _ _ _)
      (λ x y z. Lex-trans _ _ _ _ _ _)

by_start-Pairwise : (xs : List BusyInterval) → Pairwise ByStart (sort_by by_start xs)
by_start-Pairwise =
    sort_by-Pairwise by_start ByStart (λ x y. lex_leb-Lex _ _ _ _) (λ x y. not_lex_leb-Lex _ _ _ _)
      (λ x y z. Lex-trans _ _ _ _ _ _)

-- Two periods of one type that meet, the first starting first, cover what they become.
extend_to-Covers :
    (t : ℕ) (ty : FreeBusyType) (c n : BusyInterval)
    → ByType c n
    → joins c n ≡ true
    → Covers t ty (extend_to c n) ↔ (Covers t ty c ⊎ Covers t ty n)
extend_to-Covers t ty c n h k =
    let same : n.fbtype ≡ c.fbtype = rank_inj n.fbtype c.fbtype (ground arith) in
    let first : c.start ≤ n.start = ground arith in
    let meet : n.start ≤ c.end = ground arith in ground arith

merge_from-IsBusy :
    (t : ℕ) (ty : FreeBusyType) (c : BusyInterval) (xs : List BusyInterval)
    → Pairwise ByType (c ∷ xs)
    → IsBusy t ty (merge_from c xs) ↔ IsBusy t ty (c ∷ xs)
unfolding merge_from
merge_from-IsBusy t ty c [] h = ((λ b. b), (λ b. b))
merge_from-IsBusy t ty c (n ∷ xs) ((r, below), (s, h)) = elim (Bool-cases (joins c n)) [
  | inl k ↦
      let (to, from) = merge_from-IsBusy t ty (extend_to c n) xs (below, h) in
      let (split, join) = extend_to-Covers t ty c n r k in
      rw (k, merge_from)
        (
          λ b. elim (to b) [
            | inl p ↦ elim (split p) [ inl q ↦ inl q | inr q ↦ inr (inl q) ]
            | inr q ↦ inr (inr q)
          ],
          λ b. from (elim b [
            | inl p ↦ inl (join (inl p))
            | inr q ↦ elim q [ inl p ↦ inl (join (inr p)) | inr q ↦ inr q ]
          ]),
        )
  | inr k ↦
      let (to, from) = merge_from-IsBusy t ty n xs (s, h) in
      rw (k, merge_from)
        (
          λ b. elim b [ inl p ↦ inl p | inr q ↦ inr (to q) ],
          λ b. elim b [ inl p ↦ inl p | inr q ↦ inr (from q) ],
        )
]

-- Merging gives no period an earlier start.
merge_from-ByType :
    (b c : BusyInterval) (xs : List BusyInterval)
    → ByType b c
    → All (ByType b) xs
    → All (ByType b) (merge_from c xs)
unfolding merge_from
merge_from-ByType b c [] r h = (r, tt)
merge_from-ByType b c (n ∷ xs) r (s, h) = elim (Bool-cases (joins c n)) [
  | inl k ↦ rw (k, merge_from) (merge_from-ByType b (extend_to c n) xs r h)
  | inr k ↦ rw (k, merge_from) (r, merge_from-ByType b n xs s h)
]

-- A period that does not meet the next one meets none of those after it.
joins-Apart : (c n w : BusyInterval) → ByType c n → joins c n ≡ false → ByType n w → Apart c w
joins-Apart c n w h k l same =
    let same' : rank c.fbtype ≡ rank w.fbtype = ap rank same in inl (ground arith)

All-Apart :
    (c n : BusyInterval) (xs : List BusyInterval)
    → ByType c n
    → joins c n ≡ false
    → All (ByType n) xs
    → All (Apart c) xs
All-Apart c n [] r k h = tt
All-Apart c n (w ∷ xs) r k (s, h) = (joins-Apart c n w r k s, All-Apart c n xs r k h)

merge_from-Apart :
    (c : BusyInterval) (xs : List BusyInterval)
    → Pairwise ByType (c ∷ xs)
    → Pairwise Apart (merge_from c xs)
unfolding merge_from
merge_from-Apart c [] h = (tt, tt)
merge_from-Apart c (n ∷ xs) ((r, below), (s, h)) = elim (Bool-cases (joins c n)) [
  | inl k ↦ rw (k, merge_from) (merge_from-Apart (extend_to c n) xs (below, h))
  | inr k ↦
      let self : ByType n n = inr (refl, omega arith) in
      rw (k, merge_from)
        (
          All-Apart c n (merge_from n xs) r k (merge_from-ByType n n xs self s),
          merge_from-Apart n xs (s, h),
        )
]

merge_sorted-IsBusy :
    (t : ℕ) (ty : FreeBusyType) (xs : List BusyInterval)
    → Pairwise ByType xs
    → IsBusy t ty (merge_sorted xs) ↔ IsBusy t ty xs
merge_sorted-IsBusy t ty [] h = ((λ b. b), (λ b. b))
merge_sorted-IsBusy t ty (c ∷ xs) h = merge_from-IsBusy t ty c xs h

merge_sorted-Apart :
    (xs : List BusyInterval) → Pairwise ByType xs → Pairwise Apart (merge_sorted xs)
merge_sorted-Apart [] h = tt
merge_sorted-Apart (c ∷ xs) h = merge_from-Apart c xs h

Apart-symmetric : (x y : BusyInterval) → Apart x y → Apart y x
Apart-symmetric x y h same = elim (h (sym same)) [ inl p ↦ inr p | inr p ↦ inl p ]

-- For each type of busy time, merging neither adds nor removes an instant.
pub merge-IsBusy :
    (t : ℕ) (ty : FreeBusyType) (xs : List BusyInterval)
    → IsBusy t ty (merge_busy_intervals xs) ↔ IsBusy t ty xs
unfolding merge_busy_intervals
merge-IsBusy t ty [] = ((λ b. b), (λ b. b))
merge-IsBusy t ty (x ∷ []) = ((λ b. b), (λ b. b))
merge-IsBusy t ty (x ∷ y ∷ xs) =
    let sorted = sort_by by_type (x ∷ y ∷ xs) in
    let (a, a') = Any-sort_by by_start (Covers t ty) (merge_sorted sorted) in
    let (b, b') = merge_sorted-IsBusy t ty sorted (by_type-Pairwise (x ∷ y ∷ xs)) in
    let (c, c') = Any-sort_by by_type (Covers t ty) (x ∷ y ∷ xs) in
    ((λ h. c (b (a h))), (λ h. a' (b' (c' h))))

-- The merged periods are in the order of their starts, those that start together in the order of
-- their types, and two of one type neither overlap nor touch.
pub merge-Pairwise :
    (xs : List BusyInterval)
    → Pairwise ByStart (merge_busy_intervals xs) × Pairwise Apart (merge_busy_intervals xs)
unfolding merge_busy_intervals
merge-Pairwise [] = (tt, tt)
merge-Pairwise (x ∷ []) = ((tt, tt), (tt, tt))
merge-Pairwise (x ∷ y ∷ xs) =
    let sorted = sort_by by_type (x ∷ y ∷ xs) in
    let apart = merge_sorted-Apart sorted (by_type-Pairwise (x ∷ y ∷ xs)) in
    (
      by_start-Pairwise (merge_sorted sorted),
      Pairwise-sort_by by_start Apart Apart-symmetric (merge_sorted sorted) apart,
    )
