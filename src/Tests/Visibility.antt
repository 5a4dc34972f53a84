-- ===== src/Tests/Visibility.antt =====
-- A path on the small filesystem of the deletions, checked against what is hidden.
use dav_server_rs.Common.{◌≡◌, refl, true, some, none, [], Result, ok, codes, arith}
use dav_server_rs.Errors.{DavError}
use dav_server_rs.DavPath.{extend_segments, segments, parent, strip_slash, eq, as_bytes, DavPath}
use dav_server_rs.HandleGethead.Visible.{
  check_link, check_links, hides_direct_paths, is_collection_marker, DavInner, ensure_visible,
  always,
}
use dav_server_rs.HandleGethead.Visible.Hiding.{Lets, ensure_visible_lem}
use dav_server_rs.Tests.Deletions.{one_dir}

abbrev hiding : DavInner
hiding = record { hide_symlinks = true; hide_dot_prefix = always }

abbrev at_member : DavPath
at_member = record { fullpath = codes "/a/b"; pfxlen = none }

ensure_visible_example :
    (r : Result (Unit {0}) DavError) × (ensure_visible one_dir hiding at_member [] ≡ some r)
    × Lets one_dir [] hiding at_member r
ensure_visible_example = ensure_visible_lem one_dir [] hiding at_member (omega arith)

ensure_visible_test : ensure_visible one_dir hiding at_member [] ≡ some (ok tt)
unfolding ensure_visible as_bytes is_collection_marker hides_direct_paths check_links check_link eq
    strip_slash parent segments extend_segments
ensure_visible_test = refl
