-- ===== src/Tests/Copies.antt =====
-- A COPY and a MOVE on the small filesystem of the deletions.
use dav_server_rs.Common.{◌≡◌, refl, true, false, none, some, [], ◌∷◌, Result, ok, codes, arith}
use dav_server_rs.DavHeaders.Server.{
  is_same_server, request_is_same_server, same_server, effective_port, url_is_same_server,
  decode_destination, Destination,
}
use dav_server_rs.Fs.Kinds.{from_meta, from_props, resolve_collection_kind}
use dav_server_rs.HandleDelete.{delete_items}
use dav_server_rs.DavHeaders.Values.{infinity, one_str}
use dav_server_rs.DavPath.{
  from_str_and_prefix, normalize_path, strip_query, push_all, push_decoded, set_prefix, parent,
  segments, extend_segments, add_slash_if, as_bytes, eq, is_collection, is_in_collection,
  strip_slash, DavPath,
}
use dav_server_rs.Errors.{statuscode, DavError}
use dav_server_rs.HandleCopymove.{has_parent, do_move, do_copy}
use dav_server_rs.HandleCopymove.Answer.{IsAnswered, copymove_and_answer_lem}
use dav_server_rs.HandleCopymove.Copying.{RefusesWell, do_copy-Sends}
use dav_server_rs.HandleCopymove.Checks.{
  copy_depth, destination_path, source_meta, check_kinds, check_nesting, find_destination,
  validate_copy_destination, Request, Found,
}
use dav_server_rs.HandleCopymove.Handler.{
  clear_destination, copymove_and_answer, transfer, replace, handle_copymove, carry_out,
}
use dav_server_rs.HandleCopymove.Refusals.{Answers, IsCarriedOut, handle_copymove_lem}
use dav_server_rs.HandleCopymove.Sends.{Sends}
use dav_server_rs.MultiError
use dav_server_rs.MultiError.{MultiError, plain}
use dav_server_rs.PercentEncoding.{PercentEncoding}
use dav_server_rs.Tests.Deletions.{
  Removed, one_dir, at_dir, a_file, height, height-below, one_dir-IsLower, locks, refusing,
  no_tokens,
}
use dav_server_rs.Tree.Ends.{Ends}
use dav_server_rs.Util.{copy, move}

abbrev at_copy : DavPath
at_copy = record { fullpath = codes "/c"; pfxlen = none }

abbrev visible : DavPath → Removed → Result (Unit {0}) DavError
visible path s = ok tt

visible-RefusesWell : RefusesWell one_dir visible
visible-RefusesWell path s e q = absurd (ground arith)

do_copy_example :
    Ends
      (Sends (record { inner = []; sent = [] }))
      (do_copy one_dir visible 2 at_dir at_copy at_copy infinity (record { inner = []; sent = [] }))
do_copy_example =
    do_copy-Sends one_dir visible height 2 at_dir at_copy at_copy infinity
      (record { inner = []; sent = [] }) one_dir-IsLower visible-RefusesWell (omega arith)

abbrev replaced : Found
replaced = record { is_file = true; meta = ok a_file }

copymove_and_answer_example :
    (r : Result (Unit {0}) DavError) × (m : MultiError Removed) × (replace one_dir
        (some locks)
        visible
        2
        copy
        true
        infinity
        replaced
        at_dir
        at_copy
        (record { inner = []; sent = [] })
      ≡ some (r, m))
    × IsAnswered one_dir (some locks) visible 2 copy true infinity replaced at_dir at_copy [] r m
copymove_and_answer_example =
    copymove_and_answer_lem one_dir (some locks) visible 2 copy true infinity replaced at_dir
      at_copy [] height one_dir-IsLower visible-RefusesWell (height-below at_copy)
      (height-below at_dir)

-- An encoding in which every byte stands for itself.
abbrev plain_bytes : PercentEncoding
plain_bytes = record {
  percent_decode = λ s. s;
  percent_encode = λ _ s. s;
  non_alphanumeric = λ _. false;
}

abbrev to_c : Destination
to_c = record {
  path = codes "/c";
  abs_url = some (record {
    scheme = codes "http";
    host_str = some (codes "h");
    port = none;
    path = codes "/c";
  });
}

-- A header that names a path is local.
path_test :
    decode_destination (λ v. some v) (λ _. none) (codes "/c" ∷ [])
    ≡ ok (record { path = codes "/c"; abs_url = none })
unfolding decode_destination one_str
path_test = refl

local_test :
    is_same_server
      (record { scheme_str = none; host = some (codes "h"); port_u16 = none })
      none
      (record { path = codes "/c"; abs_url = none })
    ≡ true
unfolding is_same_server
local_test = refl

abbrev a_move : Request
a_move = record {
  origin = record { scheme_str = none; host = some (codes "h"); port_u16 = none };
  host = none;
  overwrite = none;
  depth = none;
  destination = some to_c;
}

handle_copymove_example :
    Ends
      (Answers one_dir
        (some refusing)
        none
        no_tokens
        (IsCarriedOut one_dir (some refusing) none no_tokens plain_bytes [] move a_move at_dir [])
        [])
      (handle_copymove one_dir
        (some refusing)
        visible
        plain_bytes
        (λ _ _. true)
        no_tokens
        []
        none
        2
        move
        a_move
        at_dir
        [])
handle_copymove_example =
    handle_copymove_lem one_dir (some refusing) none no_tokens visible plain_bytes (λ _ _. true) []
      2 move a_move at_dir [] height one_dir-IsLower visible-RefusesWell height-below

-- The file at the destination goes first, with its locks; the source's locks go after the move.
move_test :
    handle_copymove one_dir
      (some locks)
      visible
      plain_bytes
      (λ _ _. true)
      no_tokens
      []
      none
      2
      move
      a_move
      at_dir
      []
    ≡ some (ok (plain 204), codes "/c" ∷ codes "locks" ∷ codes "/c" ∷ codes "locks" ∷ [])
unfolding handle_copymove carry_out is_same_server request_is_same_server same_server effective_port
    url_is_same_server from_str_and_prefix normalize_path strip_query push_all push_decoded
    set_prefix has_parent parent segments extend_segments add_slash_if as_bytes eq is_collection
    is_in_collection strip_slash statuscode from_meta from_props resolve_collection_kind copy_depth
    destination_path source_meta check_kinds check_nesting clear_destination copymove_and_answer
    find_destination transfer validate_copy_destination do_move delete_items MultiError.add_status
    MultiError.multi_error
move_test = refl
