-- ===== src/Ls.antt =====
-- src/ls.rs: what a lock system hands out. `Element` is the crate xmltree's, a parameter. Times and
-- durations are numbers of nanoseconds.
use dav_server_rs.Common.{ℕ, Bool, Option, List, Result, Bytes}
use dav_server_rs.DavPath.{DavPath}

pub record DavLock (Element : Type 0) : Type 0 where
  pub token : Bytes
  pub path : DavPath
  pub principal : Option Bytes
  pub owner : Option Element
  pub timeout_at : Option ℕ
  pub timeout : Option ℕ
  pub shared : Bool
  pub deep : Bool

-- The trait of a lock system, as far as the handlers that are modelled call it, on its state.
pub record DavLockSystem (S Element : Type 0) : Type 0 where
  pub check :
      DavPath
      → Option Bytes
      → Bool
      → Bool
      → List Bytes
      → S
      → Result (Unit {0}) (DavLock Element) × S
  pub delete : DavPath → S → Result (Unit {0}) (Unit {0}) × S
