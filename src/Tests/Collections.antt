-- ===== src/Tests/Collections.antt =====
-- A MKCOL on the small filesystem of the deletions, whose properties are refused.
use dav_server_rs.Common.{◌≡◌, refl, some, none, [], ◌∷◌, Result, ok, err, codes}
use dav_server_rs.DavFilters.{child_elems, Xml}
use dav_server_rs.DavPath.{as_bytes, is_collection, push_segment, DavPath}
use dav_server_rs.Errors.{DavError, status}
use dav_server_rs.HandleMkcol.{
  with_slash, rollback_created_collection, or_rollback, make_collection, children_of,
  resourcetype_flags, check_nested, read_body, check_lock, handle_mkcol,
}
use dav_server_rs.Tests.Deletions.{Removed, one_dir, locks, no_tokens}
use dav_server_rs.Tree.Ends.{Ends}

-- A document of one element.
abbrev mkcol : Xml (Unit {0})
mkcol = record {
  name = λ _. codes "mkcol";
  namespace = λ _. some (codes "DAV:");
  attribute = λ _ _. none;
  children = λ _. [];
}

abbrev at_new : DavPath
at_new = record { fullpath = codes "/n"; pfxlen = none }

abbrev refuse_props : DavPath → Unit {0} → Removed → Result (Unit {0}) DavError × Removed
refuse_props path tree s = (err (status 403), s)

-- What is called: the creation, then the removal of the markers and of the collection.
rollback_test :
    handle_mkcol one_dir
      (some locks)
      mkcol
      (λ _. some tt)
      (λ _ _. ok tt)
      no_tokens
      refuse_props
      (λ _ _ s. s)
      (ok tt)
      none
      (codes "x")
      at_new
      []
    ≡ some (
      err (status 403),
      codes "/n" ∷ codes "/n/.dav-calendar" ∷ codes "/n/.dav-addressbook" ∷ codes "/n" ∷ [],
    )
unfolding handle_mkcol check_lock read_body check_nested resourcetype_flags children_of child_elems
    make_collection or_rollback rollback_created_collection push_segment with_slash is_collection
    as_bytes
rollback_test = refl
