-- ===== src/MemLs/Deadlines.antt =====
-- src/memls.rs: the time at which a lock ends, which the addition of a timeout may not reach.
use dav_server_rs.Common.{ℕ, ◌+◌, ◌<◌, Option, none, some, inl, inr, Bool-cases, arith, ltb, nat_eq}
use dav_server_rs.MemLs.{deadline, system_time_limit}
use dav_server_rs.MemLs.Walk.{Locks}
use dav_server_rs.Tree.Ends.{KeepsUnless}
use dav_server_rs.Tree.Monad.{Action, ◌>>=◌}

-- The time that is asked for is one that a `SystemTime` holds.
abbrev pub IsOnTime : ℕ → Option ℕ → Type 0
IsOnTime stamp none = Unit
IsOnTime stamp (some d) = stamp + d < system_time_limit

-- An operation that computes the time, and goes on with it.
pub deadline-KeepsUnless :
    {Element E A : Type 0} (P : Locks Element → Type 0) (stamp : ℕ) (timeout : Option ℕ)
    (k : Option ℕ → Action (Locks Element) E A) (t : Locks Element)
    → ((timeout_at : Option ℕ) → KeepsUnless (¬ IsOnTime stamp timeout) P (k timeout_at t))
    → KeepsUnless (¬ IsOnTime stamp timeout) P ((deadline stamp timeout >>= k) t)
unfolding deadline
deadline-KeepsUnless P stamp none k t h = h none
deadline-KeepsUnless P stamp (some d) k t h =
    elim (Bool-cases (ltb (stamp + d) system_time_limit)) [
      | inl held ↦ rw (held, deadline) (h (some (stamp + d)))
      | inr late ↦ rw (late, deadline) (λ on_time. ground arith)
    ]
