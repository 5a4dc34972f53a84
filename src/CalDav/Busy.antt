-- ===== src/CalDav/Busy.antt =====
-- src/caldav.rs: busy periods, their merging, and the overlap of a component with a time range.
-- An instant is the number of nanoseconds since the earliest `DateTime<Utc>`.
use dav_server_rs.Common.{
  ℕ, ◌≡◌, Bool, true, false, ◌&&◌, ◌||◌, Option, none, some, List, [], ◌∷◌, PartialEq, ◌==◌, nat_eq,
  if◌then◌else◌, ltb, leb, nat_beq, sort_by, arith, ◌↔◌,
}

pub data FreeBusyType : Type 0 where
  busy : FreeBusyType
  busy_tentative : FreeBusyType
  busy_unavailable : FreeBusyType

-- The derived order is that of the declaration.
abbrev pub rank : FreeBusyType → ℕ
rank busy = 0
rank busy_tentative = 1
rank busy_unavailable = 2

pub rank_inj : (a b : FreeBusyType) → rank a ≡ rank b → a ≡ b
rank_inj a b h = grind arith

pub same_type_iff : (a b : FreeBusyType) → (nat_beq (rank a) (rank b) ≡ true) ↔ (a ≡ b)
same_type_iff a b = ground (arith, rank_inj a b)

instance abbrev pub fbtype_eq : PartialEq FreeBusyType
fbtype_eq = record { same = λ a b. nat_beq (rank a) (rank b); same_iff = same_type_iff }

pub record BusyInterval : Type 0 where
  pub start : ℕ
  pub end : ℕ
  pub fbtype : FreeBusyType

-- `(a, b) <= (c, d)` on tuples.
abbrev pub lex_leb : ℕ → ℕ → ℕ → ℕ → Bool
lex_leb a b c d = ltb a c || (nat_beq a c && leb b d)

abbrev pub by_type : BusyInterval → BusyInterval → Bool
by_type x y = lex_leb (rank x.fbtype) x.start (rank y.fbtype) y.start

abbrev pub by_start : BusyInterval → BusyInterval → Bool
by_start x y = lex_leb x.start (rank x.fbtype) y.start (rank y.fbtype)

abbrev pub joins : BusyInterval → BusyInterval → Bool
joins current next = (next.fbtype == current.fbtype) && leb next.start current.end

abbrev pub extend_to : BusyInterval → BusyInterval → BusyInterval
extend_to current next = record {
  start = current.start;
  end = if ltb current.end next.end then next.end else current.end;
  fbtype = current.fbtype;
}

-- The loop: the interval in the making, and those that are left.
unfoldable pub merge_from : BusyInterval → List BusyInterval → List BusyInterval
merge_from current [] = current ∷ []
merge_from current (next ∷ rest) = elim (joins current next) [
  | true ↦ merge_from (extend_to current next) rest
  | false ↦ current ∷ merge_from next rest
]

abbrev pub merge_sorted : List BusyInterval → List BusyInterval
merge_sorted [] = []
merge_sorted (current ∷ rest) = merge_from current rest

unfoldable pub merge_busy_intervals : List BusyInterval → List BusyInterval
merge_busy_intervals [] = []
merge_busy_intervals (x ∷ []) = x ∷ []
merge_busy_intervals (x ∷ y ∷ rest) =
    sort_by by_start (merge_sorted (sort_by by_type (x ∷ y ∷ rest)))

-- `option.is_none_or(p)`
abbrev pub is_none_or : Option ℕ → (ℕ → Bool) → Bool
is_none_or none p = true
is_none_or (some a) p = p a

unfoldable pub time_spans_overlap : ℕ → ℕ → Option ℕ → Option ℕ → Bool
time_spans_overlap comp_start comp_end range_start range_end =
    let before_end = is_none_or range_end (λ end. ltb comp_start end) in
    let after_start =
      if comp_start == comp_end
      then is_none_or range_start (λ start. leb start comp_start)
      else is_none_or range_start (λ start. ltb start comp_end) in
    before_end && after_start
