-- ===== src/Tests/Conditions.antt =====
-- The properties of src/conditional.rs at an input.
use dav_server_rs.Common.{
  ◌≡◌, ◌↔◌, ◌⊎◌, refl, true, false, Option, none, some, [], ◌∷◌, codes, Bytes, List, any,
}
use dav_server_rs.DavPath.{DavPath}
use dav_server_rs.DavHeaders.ETag.{tags, star, strong_eq, weak_eq, from_meta}
use dav_server_rs.DavHeaders.IfHeader.{IfList, state_token}
use dav_server_rs.Ls.{DavLock}
use dav_server_rs.Conditional.{
  Backend, Request, Meta, after_epoch, dav_if_match, http_if_match, match_fails, none_match,
  etaglist_match, lock_covers_path, precondition_failed, not_modified,
}
use dav_server_rs.Conditional.Lists.{is_satisfied, all_tokens, dav_if_match_lem}
use dav_server_rs.Conditional.Covers.{CoversPath, lock_covers_path_iff}
use dav_server_rs.Conditional.Http.{Listed, http_if_match-passes, http_if_match_answers}

abbrev at : Bytes → DavPath
at path = record { fullpath = path; pfxlen = none }

abbrev lock : DavLock (Unit {0})
lock = record {
  token = codes "t:1";
  path = at (codes "/a");
  principal = none;
  owner = none;
  timeout_at = none;
  timeout = none;
  shared = false;
  deep = true;
}

abbrev backend : Backend (Unit {0})
backend = record {
  pct = record { non_alphanumeric = λ _. true; percent_encode = λ _ s. s; percent_decode = λ s. s };
  discover = some (λ _. lock ∷ []);
  metadata = λ _. none;
}

abbrev lists : List IfList
lists =
    record {
      resource_tag = none;
      conditions = record { negated = false; item = state_token (codes "t:1") } ∷ [];
    }
    ∷ []

abbrev request : Request
request = record {
  reads = true;
  if_match = some (tags (record { tag = codes "x"; weak = false } ∷ []));
  if_unmodified_since = none;
  if_none_match = none;
  if_modified_since = some (after_epoch 9);
  if_header = some lists;
  origin = record { scheme_str = none; host = none; port_u16 = none };
  host = none;
}

abbrev meta : Option Meta
meta = some (record { etag = some (codes "x"); modified = none })

dav_if_match_example : dav_if_match backend request (at (codes "/a/b")) ≡ (
  any (is_satisfied backend request (at (codes "/a/b"))) lists,
  all_tokens backend request (at (codes "/a/b")) lists,
)
dav_if_match_example = dav_if_match_lem backend request (at (codes "/a/b"))

lock_covers_path_example :
    (lock_covers_path lock (at (codes "/ab")) ≡ true) ↔ CoversPath lock (at (codes "/ab"))
lock_covers_path_example = lock_covers_path_iff lock (at (codes "/ab"))

passes : http_if_match request meta ≡ none
unfolding http_if_match match_fails none_match etaglist_match strong_eq from_meta
passes = refl

http_if_match-passes_example :
    (request.if_match ≡ some star → Listed strong_eq star meta)
    × (request.if_none_match ≡ some star → ¬ Listed weak_eq star meta)
http_if_match-passes_example = http_if_match-passes request meta star passes

fails : http_if_match request none ≡ some precondition_failed
unfolding http_if_match match_fails none_match etaglist_match strong_eq from_meta
fails = refl

http_if_match_answers_example :
    (precondition_failed ≡ precondition_failed)
    ⊎ ((precondition_failed ≡ not_modified) × (request.reads ≡ true))
http_if_match_answers_example = http_if_match_answers request none precondition_failed fails
