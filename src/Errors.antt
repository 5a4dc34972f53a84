-- ===== src/Errors.antt =====
-- src/errors.rs: the errors of the handlers, their status codes, and whether the connection closes.
use dav_server_rs.Common.{ℕ, Bool, true, false}
use dav_server_rs.Fs.{FsError}

-- The kinds of `io::Error` that the code tells apart.
pub data ErrorKind : Type 0 where
  not_found permission_denied already_exists timed_out other : ErrorKind

pub data DavError : Type 0 where
  xml_read_error xml_parse_error invalid_path illegal_path forbidden_path : DavError
  unknown_dav_method chan_error utf8_error : DavError
  status status_close : ℕ → DavError
  fs_error : FsError → DavError
  io_error : ErrorKind → DavError
  xml_reader_error xml_writer_error : DavError

unfoldable pub fserror_to_ioerror : FsError → ErrorKind
fserror_to_ioerror FsError.exists = ErrorKind.already_exists
fserror_to_ioerror FsError.not_found = ErrorKind.not_found
fserror_to_ioerror FsError.forbidden = ErrorKind.permission_denied
fserror_to_ioerror _ = ErrorKind.other

-- `impl From<DavError> for io::Error`
unfoldable pub into_ioerror : DavError → ErrorKind
into_ioerror (io_error e) = e
into_ioerror (fs_error e) = fserror_to_ioerror e
into_ioerror _ = ErrorKind.other

unfoldable pub ioerror_to_status : ErrorKind → ℕ
ioerror_to_status ErrorKind.not_found = 404
ioerror_to_status ErrorKind.permission_denied = 403
ioerror_to_status ErrorKind.already_exists = 409
ioerror_to_status ErrorKind.timed_out = 504
ioerror_to_status ErrorKind.other = 502

unfoldable pub fserror_to_status : FsError → ℕ
fserror_to_status FsError.not_implemented = 501
fserror_to_status FsError.general_failure = 500
fserror_to_status FsError.exists = 405
fserror_to_status FsError.not_found = 404
fserror_to_status FsError.forbidden = 403
fserror_to_status FsError.insufficient_storage = 507
fserror_to_status FsError.loop_detected = 508
fserror_to_status FsError.path_too_long = 414
fserror_to_status FsError.too_large = 413
fserror_to_status FsError.is_remote = 502

unfoldable pub statuscode : DavError → ℕ
statuscode xml_read_error = 400
statuscode xml_parse_error = 400
statuscode invalid_path = 400
statuscode illegal_path = 502
statuscode forbidden_path = 403
statuscode unknown_dav_method = 501
statuscode chan_error = 500
statuscode utf8_error = 415
statuscode (io_error e) = ioerror_to_status e
statuscode (fs_error e) = fserror_to_status e
statuscode (status e) = e
statuscode (status_close e) = e
statuscode xml_reader_error = 400
statuscode xml_writer_error = 500

unfoldable pub must_close : DavError → Bool
must_close (status _) = false
must_close (fs_error FsError.not_found) = false
must_close (fs_error FsError.forbidden) = false
must_close (fs_error FsError.exists) = false
must_close _ = true
