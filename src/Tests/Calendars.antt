-- ===== src/Tests/Calendars.antt =====
-- Busy periods and time ranges.
use dav_server_rs.Common.{
  ◌≡◌, ◌↔◌, refl, true, some, List, [], ◌∷◌, Pairwise, arith, ℕ, sort_by, sort_insert,
}
use dav_server_rs.CalDav.Busy.{
  BusyInterval, busy, busy_tentative, merge_busy_intervals, merge_from, time_spans_overlap,
}
use dav_server_rs.CalDav.Merging.{IsBusy, Apart, ByStart, merge-IsBusy, merge-Pairwise}
use dav_server_rs.CalDav.Overlaps.{Holds, Follows, Precedes, time_spans_overlap_iff}

-- Two that touch, one of another type in between, and one apart.
abbrev four : List BusyInterval
four =
    record { start = 30; end = 40; fbtype = busy }
    ∷ record { start = 10; end = 20; fbtype = busy }
    ∷ record { start = 15; end = 35; fbtype = busy_tentative }
    ∷ record { start = 20; end = 25; fbtype = busy }
    ∷ []

merge_test :
    merge_busy_intervals four
    ≡ record { start = 10; end = 25; fbtype = busy }
      ∷ record { start = 15; end = 35; fbtype = busy_tentative }
      ∷ record { start = 30; end = 40; fbtype = busy }
      ∷ []
unfolding merge_busy_intervals merge_from sort_by sort_insert
merge_test = refl

merge-IsBusy_example : IsBusy 20 busy (merge_busy_intervals four) ↔ IsBusy 20 busy four
merge-IsBusy_example = merge-IsBusy 20 busy four

merge-Pairwise_example :
    Pairwise ByStart (merge_busy_intervals four) × Pairwise Apart (merge_busy_intervals four)
merge-Pairwise_example = merge-Pairwise four

-- A component without an extent, at the start of the range.
time_spans_overlap_example :
    (time_spans_overlap 10 10 (some 10) (some 20) ≡ true)
    ↔ ((t : ℕ) × Holds 10 10 t × Follows (some 10) t × Precedes (some 20) t)
time_spans_overlap_example =
    time_spans_overlap_iff 10 10 (some 10) (some 20) (omega arith) (omega arith)
