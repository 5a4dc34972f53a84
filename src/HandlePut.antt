-- ===== src/HandlePut.antt =====
-- src/handle_put.rs: what a PUT or a PATCH writes where, decided from its headers.
pub mod Ranges
use dav_server_rs.Common.{
  ℕ, ◌+◌, ◌-◌, Bool, true, false, not, ◌||◌, ◌&&◌, Option, none, some, Result, ok, err, ◌>>=◌,
  Bytes, if◌then◌else◌, leb, ltb, ◌==◌, nat_eq, option_eq, checked_sub, saturating_add, u64_limit,
  checked_add,
}
use dav_server_rs.DavHeaders.Timeout.{XUpdateRange, from_to, all_from, last, append}
use dav_server_rs.Errors.{DavError, status_close}

-- The number of bytes from `b` to `e`, the last included.
unfoldable pub span : ℕ → ℕ → Option ℕ
span b e = elim (checked_sub e b) [ none ↦ none | some n ↦ checked_add n 1 ]

abbrev pub max : ℕ → ℕ → ℕ
max a b = if leb a b then b else a

unfoldable pub resulting_resource_size : Bool → Bool → ℕ → ℕ → ℕ → ℕ
resulting_resource_size do_range appends existing start written =
    if do_range
    then (if appends
        then saturating_add existing written
        else max existing (saturating_add start written))
    else written

-- The headers that say what is written.
pub record Upload : Type 0 where
  pub is_patch : Bool
  -- Content-Length, or else X-Expected-Entity-Length if it is a number.
  pub content_length : Option ℕ
  pub expected_length : Option ℕ
  -- Whether the Content-Type is that of a partial update.
  pub is_sabre : Bool
  pub update_range : Option XUpdateRange
  -- `typed_try_get::<ContentRange>()` and its `bytes_range()`.
  pub content_range : Result (Option (Option (ℕ × ℕ))) (Unit {0})

-- The variables of `handle_put`; `appends` and `truncates` are those of the open options.
pub record Target : Type 0 where
  pub start : ℕ
  pub count : ℕ
  pub have_count : Bool
  pub do_range : Bool
  pub appends : Bool
  pub truncates : Bool

abbrev pub not_satisfiable : DavError
not_satisfiable = status_close 416

-- The initial values, with the length of the body.
unfoldable pub target_new : Upload → Target
target_new u =
    let t : Target = record {
      start = 0;
      count = 0;
      have_count = false;
      do_range = false;
      appends = false;
      truncates = true;
    } in
    elim u.content_length [
      | some n ↦ record t { count = n; have_count = true }
      | none ↦ elim u.expected_length [
        | some n ↦ record t { count = n; have_count = true }
        | none ↦ t
      ]
    ]

-- The `match` on the range of a PATCH; the length of the file if it exists.
unfoldable pub update_start : Option ℕ → Target → XUpdateRange → Result Target DavError
update_start existing t (from_to b e) =
    if not (span b e == some t.count) then err not_satisfiable else ok (record t { start = b })
update_start existing t (all_from b) = ok (record t { start = b })
update_start none t (last n) = err not_satisfiable
update_start (some len) t (last n) =
    if ltb len n then err not_satisfiable else ok (record t { start = len - n })
update_start existing t append = ok (record t { appends = true })

-- A PATCH in the style of SabreDAV.
unfoldable pub patch_target : Upload → Option ℕ → Target → Result Target DavError
patch_target u existing t =
    if not u.is_patch
    then ok t
    else if not u.is_sabre
    then err (status_close 415)
    else if not t.have_count
    then err (status_close 411)
    else elim u.update_range [
      | none ↦ err (status_close 400)
      | some r ↦
          update_start existing t r >>= λ t'. ok (record t' { do_range = true; truncates = false })
    ]

-- A Content-Range in the style of Apache.
unfoldable pub content_target : Upload → Target → Result Target DavError
content_target u t = elim u.content_range [
  | err _ ↦ err (status_close 400)
  | ok none ↦ ok t
  | ok (some none) ↦ ok t
  | ok (some (some (b, e))) ↦ elim (span b e) [
    | none ↦ err not_satisfiable
    | some range_len ↦
        (if t.have_count && not (range_len == t.count)
          then err not_satisfiable
          else ok (record t {
            count = range_len;
            have_count = true;
            start = b;
            do_range = true;
            truncates = false;
          }))
  ]
]

-- The two checks of the range against the numbers of the machine, of 64 bits, and against the file.
unfoldable pub check_target : Option ℕ → Target → Result Target DavError
check_target existing t =
    if t.do_range && not t.appends && not (ltb (t.start + t.count) u64_limit)
    then err not_satisfiable
    else elim existing [
      | none ↦ ok t
      | some len ↦
          (if t.do_range && not t.appends && ltb len t.start then err not_satisfiable else ok t)
    ]

unfoldable pub put_target : Upload → Option ℕ → Result Target DavError
put_target u existing =
    patch_target u existing (target_new u) >>= λ t. content_target u t >>= check_target existing
