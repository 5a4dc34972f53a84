-- ===== src/Util.antt =====
-- src/util.rs: the methods.
use dav_server_rs.Common.{Bool, true, false}

pub data DavMethod : Type 0 where
  head get put patch options prop_find prop_patch mk_col : DavMethod
  copy move delete lock unlock report mk_calendar mk_addressbook : DavMethod

-- `method == DavMethod::Copy`
abbrev pub is_copy : DavMethod → Bool
is_copy copy = true
is_copy _ = false

-- `method == DavMethod::Move`
abbrev pub is_move : DavMethod → Bool
is_move move = true
is_move _ = false
