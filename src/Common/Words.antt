-- ===== src/Common/Words.antt =====
-- Machine words: the limits of u32 and u64, and Rust's checked and saturating operations on u64.
use Prim.Native.Nat.{ℕ, ◌+◌, ◌-◌}
use mathlib.Core.Option.{Option, none, some}
use dav_server_rs.Common.Logic.{if◌then◌else◌}
use dav_server_rs.Common.Equality.{ltb, leb}

abbrev pub u32_limit : ℕ
u32_limit = 4294967296

abbrev pub u64_limit : ℕ
u64_limit = 18446744073709551616

abbrev pub checked_sub : ℕ → ℕ → Option ℕ
checked_sub a b = if leb b a then some (a - b) else none

abbrev pub checked_add : ℕ → ℕ → Option ℕ
checked_add a b = if ltb (a + b) u64_limit then some (a + b) else none

abbrev pub saturating_add : ℕ → ℕ → ℕ
saturating_add a b = if ltb (a + b) u64_limit then a + b else u64_limit - 1
