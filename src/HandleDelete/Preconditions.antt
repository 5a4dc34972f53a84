-- ===== src/HandleDelete/Preconditions.antt =====
-- The preconditions of a request, where a handler asks for them (src/handle_delete.rs and others).
use dav_server_rs.Common.{ℕ, err, inl, inr, Result, Result-cases, List, Bytes}
use dav_server_rs.Errors.{DavError, status}
use dav_server_rs.HandleDelete.{precondition}
use dav_server_rs.Tree.Ends.{Ends}
use dav_server_rs.Tree.Monad.{Action, ◌>>=◌}

pub precondition-Ends :
    {S B : Type 0} (Q : Result B DavError → S → Type 0) (call : S → Result (List Bytes) ℕ × S)
    (k : List Bytes → Action S DavError B) (s : S)
    → ((tokens : List Bytes) → Ends Q (k tokens (call s).1))
    → ((e : DavError) → Q (err e) (call s).1)
    → Ends Q ((precondition call >>= k) s)
precondition-Ends Q call k s on_ok on_err = elim (Result-cases (call s).0) [
  | inl (tokens, e) ↦ rw (e, Ends) (on_ok tokens)
  | inr (code, e) ↦ rw (e, Ends) (on_err (status code))
]
