-- ===== src/MultiError.antt =====
-- src/multierror.rs: the status of several resources in one answer. The stream of statuses is the list
-- of what is sent, and an error where the sender fails; XML is left out of a multistatus.
use dav_server_rs.Common.{ℕ, List, [], ◌∷◌, ◌++◌, Result, ok, err, ◌==◌, nat_eq, if◌then◌else◌}
use dav_server_rs.DavPath
use dav_server_rs.DavPath.{DavPath}
use dav_server_rs.Errors.{DavError, statuscode, chan_error}

abbrev pub Status : Type 0
Status = DavPath × ℕ

-- What has been sent, and the state of what the sender works on.
pub record MultiError (S : Type 0) : Type 0 where
  pub inner : S
  pub sent : List Status

-- `send` always succeeds.
unfoldable pub add_status : {S : Type 0} → DavPath → DavError → MultiError S → MultiError S
add_status path e m = record m { sent = m.sent ++ (path, statuscode e) ∷ [] }

pub data Response : Type 0 where
  plain : ℕ → Response
  multistatus : List (Result Status DavError) → Response

-- The loop that writes the items; an error ends it.
unfoldable pub responses : List (Result Status DavError) → List (Result Status DavError)
responses [] = []
responses (err e ∷ items) = err e ∷ []
responses (ok (path, status) ∷ items) =
    let rest = responses items in ok (path, (if status == 204 then 200 else status)) ∷ rest

unfoldable pub multi_error : DavPath → List (Result Status DavError) → Result Response DavError
multi_error req_path [] = err chan_error
multi_error req_path (err e ∷ status_stream) = err e
multi_error req_path (ok (path, status) ∷ status_stream) =
    if DavPath.eq path req_path
    then elim status_stream [
      | [] ↦ ok (plain status)
      | item ∷ rest ↦ elim item [
        | err e ↦ err e
        | ok next ↦ ok (multistatus (responses (ok (path, status) ∷ ok next ∷ rest)))
      ]
    ]
    else ok (multistatus (responses (ok (path, status) ∷ status_stream)))
