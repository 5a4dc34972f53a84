-- ===== src/CalDav/Overlaps.antt =====
-- When a component overlaps a time range (`time_spans_overlap` of src/caldav.rs).
use dav_server_rs.Common.{
  ℕ, ◌≤◌, ◌<◌, ◌≡◌, refl, ◌⊎◌, ◌↔◌, inr, true, Option, none, some, arith, if◌then◌else◌, leb,
}
use dav_server_rs.CalDav.Busy.{time_spans_overlap}

-- An instant of the component: the first one if it has no other.
abbrev pub Holds : ℕ → ℕ → ℕ → Type 0
Holds comp_start comp_end t = (comp_start ≤ t) × ((t < comp_end) ⊎ (t ≡ comp_start))

-- An instant of the range: a bound that is not given does not limit it.
abbrev pub Follows : Option ℕ → ℕ → Type 0
Follows none t = Unit
Follows (some start) t = start ≤ t

abbrev pub Precedes : Option ℕ → ℕ → Type 0
Precedes none t = Unit
Precedes (some end) t = t < end

-- The bounds, where both are given, are in order.
abbrev pub Ordered : Option ℕ → Option ℕ → Type 0
Ordered (some start) (some end) = start < end
Ordered _ _ = Unit

-- A component that does not end before it starts overlaps a range whose bounds are in order if and
-- only if they have an instant in common.
pub time_spans_overlap_iff :
    (comp_start comp_end : ℕ) (range_start range_end : Option ℕ)
    → comp_start ≤ comp_end
    → Ordered range_start range_end
    → (time_spans_overlap comp_start comp_end range_start range_end ≡ true)
      ↔ ((t : ℕ) × Holds comp_start comp_end t × Follows range_start t × Precedes range_end t)
unfolding time_spans_overlap
time_spans_overlap_iff a b none none h o =
    ((λ k. (a, (omega arith, inr refl), tt, tt)), (λ k. ground arith))
time_spans_overlap_iff a b none (some e) h o =
    ((λ k. (a, (omega arith, inr refl), tt, ground arith)), (λ (t, (p, q), f, g). ground arith))
time_spans_overlap_iff a b (some s) none h o = (
  λ k. let t = if leb a s then s else a in (t, ground arith, ground arith, tt),
  λ (t, (p, q), f, g). ground arith,
)
time_spans_overlap_iff a b (some s) (some e) h o = (
  λ k. let t = if leb a s then s else a in (t, ground arith, ground arith, ground arith),
  λ (t, (p, q), f, g). ground arith,
)
