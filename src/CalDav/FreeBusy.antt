-- ===== src/CalDav/FreeBusy.antt =====
-- src/caldav.rs: the type of a busy period as it is written and read, and the bounds of a free-busy
-- query. The parsers of dates are the crate chrono's, behind `str::trim`: parameters.
use dav_server_rs.Common.{
  ◌≡◌, refl, Option, none, some, Bytes, codes, if◌then◌else◌, ltb, ℕ, arith, Option-cases, inl, inr,
}
use dav_server_rs.CalDav.Busy.{FreeBusyType, busy, busy_tentative, busy_unavailable}
use dav_server_rs.CalDav.Overlaps.{Ordered}
use dav_server_rs.DavHeaders.Server.{eq_ignore_ascii_case}

unfoldable pub from_fbtype : Option Bytes → Option FreeBusyType
from_fbtype none = some busy
from_fbtype (some value) =
    if eq_ignore_ascii_case value (codes "FREE")
    then none
    else if eq_ignore_ascii_case value (codes "BUSY-TENTATIVE")
    then some busy_tentative
    else if eq_ignore_ascii_case value (codes "BUSY-UNAVAILABLE")
    then some busy_unavailable
    else some busy

unfoldable pub fbtype_param : FreeBusyType → Option Bytes
fbtype_param busy = none
fbtype_param busy_tentative = some (codes "BUSY-TENTATIVE")
fbtype_param busy_unavailable = some (codes "BUSY-UNAVAILABLE")

-- A type is read back from the parameter that is written for it.
pub from_fbtype-fbtype_param : (ty : FreeBusyType) → from_fbtype (fbtype_param ty) ≡ some ty
unfolding from_fbtype fbtype_param
from_fbtype-fbtype_param busy = refl
from_fbtype-fbtype_param busy_tentative = refl
from_fbtype-fbtype_param busy_unavailable = refl

pub record TimeRange : Type 0 where
  pub start : Option Bytes
  pub end : Option Bytes

module _ (parse_utc_date_time : Bytes → Option ℕ) where
  abbrev parsed : Option Bytes → Option ℕ
  parsed none = none
  parsed (some s) = parse_utc_date_time s

  unfoldable pub parse_freebusy_bounds : TimeRange → Option (ℕ × ℕ)
  parse_freebusy_bounds tr = elim (parsed tr.start) [
    | none ↦ none
    | some start ↦ elim (parsed tr.end) [
      | none ↦ none
      | some end ↦ if ltb start end then some (start, end) else none
    ]
  ]

  -- The bounds that a free-busy query is given are in order.
  pub parse_freebusy_bounds-Ordered :
      (tr : TimeRange) (start end : ℕ)
      → parse_freebusy_bounds tr ≡ some (start, end)
      → Ordered (some start) (some end)
  unfolding parse_freebusy_bounds
  parse_freebusy_bounds-Ordered tr start end h = elim (Option-cases (parsed tr.start)) [
    | inl e ↦ absurd (ground arith)
    | inr (a, e) ↦ elim (Option-cases (parsed tr.end)) [
      | inl e' ↦ absurd (ground arith)
      | inr (b, e') ↦ ground arith
    ]
  ]
