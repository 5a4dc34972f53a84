-- ===== src/Tests/Transfers.antt =====
-- Runs of src/handle_gethead.rs and src/handle_put.rs, and their properties at an input.
use dav_server_rs.Common.{
  ℕ, zero, suc, ◌≤◌, ◌≡◌, ◌≢◌, refl, true, false, none, some, [], ◌∷◌, Result, ok, err, codes,
  Bytes, arith, concat, length, take, drop,
}
use dav_server_rs.DavHeaders.Timeout.{last}
use dav_server_rs.Errors.{ErrorKind, status_close}
use dav_server_rs.HandleGethead.{
  Get, included, unbounded, Plan, endpoints, collect, range_wanted, plan_ranges, plan_seek,
  plan_get, content_length, body_parts, send_range,
}
use dav_server_rs.HandleGethead.Ranges.{AreParts, total, plan_get-AreParts, content_length-eq-total}
use dav_server_rs.HandleGethead.Sending.{Reads, send_range_lem}
use dav_server_rs.HandlePut.{
  Upload, Target, target_new, update_start, patch_target, content_target, check_target, put_target,
}
use dav_server_rs.HandlePut.Ranges.{IsTarget, IsInFile, put_target_lem}

-- `Range: bytes=2-3,-4` of a file of 10 bytes.
abbrev two_ranges : Get
two_ranges = record {
  head = false;
  len = 10;
  etag = none;
  modified = none;
  if_range = ok none;
  if_match = none;
  ranges = some ((included 2, included 3) ∷ (unbounded, included 4) ∷ []);
  seeks = λ _. true;
}

abbrev two_parts : Plan
two_parts = record {
  status = 206;
  no_body = false;
  unsatisfied = false;
  parts = record { start = 2; count = 2 } ∷ record { start = 6; count = 4 } ∷ [];
}

two_planned : plan_get two_ranges ≡ two_parts
unfolding plan_get plan_seek plan_ranges range_wanted collect endpoints
two_planned = refl

-- A range behind the end of the file.
abbrev behind : Get
behind = record two_ranges { ranges = some ((included 10, unbounded) ∷ []) }

behind_refused : (plan_get behind).status ≡ 416
unfolding plan_get plan_seek plan_ranges range_wanted collect endpoints
behind_refused = refl

plan_get-AreParts_example : AreParts 10 (plan_get two_ranges).parts
plan_get-AreParts_example = plan_get-AreParts two_ranges (omega arith)

behind_status : (plan_get behind).status ≢ 304
unfolding plan_get plan_seek plan_ranges range_wanted collect endpoints
behind_status = omega arith

behind_length : content_length behind (plan_get behind) ≡ some 0
unfolding content_length plan_get plan_seek plan_ranges range_wanted collect endpoints
behind_length = refl

content_length-eq-total_example : total (body_parts behind (plan_get behind)) ≡ 0
content_length-eq-total_example = content_length-eq-total behind 0 refl behind_status behind_length

-- A file that is read.
abbrev file : Bytes
file = codes "hello world"

abbrev read : ℕ → ℕ → Result Bytes ErrorKind
read pos n = ok (take n (drop pos file))

length-take_le : (n : ℕ) (s : Bytes) → length (take n s) ≤ n
length-take_le zero s = ground arith
length-take_le (suc n) [] = ground arith
length-take_le (suc n) (x ∷ s) = ground (arith, length-take_le n s)

read-Reads : Reads read
read-Reads pos n buf h = ground (arith, length-take_le n (drop pos file))

send_range_example :
    (send_range read 4 20 6 20).1 ≢ none
    × (length (concat (send_range read 4 20 6 20).0) ≤ 20)
    × ((send_range read 4 20 6 20).1 ≡ some (ok tt)
        → length (concat (send_range read 4 20 6 20).0) ≡ 20)
send_range_example = send_range_lem read 4 20 6 20 read-Reads (omega arith)

-- A PATCH of the last 2 bytes of a file of 10.
abbrev patch : Upload
patch = record {
  is_patch = true;
  content_length = some 2;
  expected_length = none;
  is_sabre = true;
  update_range = some (last 2);
  content_range = ok none;
}

abbrev patched : Target
patched = record {
  start = 8;
  count = 2;
  have_count = true;
  do_range = true;
  appends = false;
  truncates = false;
}

patch_accepted : put_target patch (some 10) ≡ ok patched
unfolding put_target patch_target content_target check_target update_start target_new
patch_accepted = refl

patch_missing : put_target patch none ≡ err (status_close 416)
unfolding put_target patch_target content_target check_target update_start target_new
patch_missing = refl

put_target_example : IsTarget patch patched × IsInFile (some 10) patched
put_target_example = put_target_lem patch (some 10) patch_accepted
