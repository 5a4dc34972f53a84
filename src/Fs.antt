-- ===== src/Fs.antt =====
-- src/fs.rs: the errors that a filesystem returns, and the properties that it keeps.
pub mod Guarded
pub mod Kinds
use dav_server_rs.Common.{Option, Bytes}

pub data FsError : Type 0 where
  not_implemented general_failure exists not_found forbidden : FsError
  insufficient_storage loop_detected path_too_long too_large is_remote : FsError

pub record DavProp : Type 0 where
  pub name : Bytes
  pub prefix : Option Bytes
  pub namespace : Option Bytes
  pub xml : Option Bytes
