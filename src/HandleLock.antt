-- ===== src/HandleLock.antt =====
-- src/handle_lock.rs: the timeout of a lock, in seconds.
use dav_server_rs.Common.{
  ℕ, ◌≤◌, ◌≡◌, refl, Bool, true, false, Option, none, some, List, [], ◌∷◌, arith, min,
  if◌then◌else◌, ◌⊎◌, ◌↔◌,
}
use dav_server_rs.DavHeaders.Timeout.{DavTimeout, infinite, seconds}

abbrev pub max_timeout : Bool → ℕ
max_timeout shared = if shared then 86400 else 600

-- The typed Timeout header, whether a lock is refreshed, and whether it is shared.
unfoldable pub get_timeout : Option (List DavTimeout) → Bool → Bool → Option ℕ
get_timeout none refresh shared = none
get_timeout (some []) refresh shared = none
get_timeout (some (infinite ∷ rest)) refresh shared =
    if refresh then none else some (max_timeout shared)
get_timeout (some (seconds n ∷ rest)) refresh shared = some (min (max_timeout shared) n)

-- What is granted: where `Infinite` is asked for, a day for a shared lock and ten minutes for an
-- exclusive one; where a number of seconds is, the smaller of that and of the limit of the kind.
abbrev IsLimited : DavTimeout → Bool → ℕ → Type 0
IsLimited infinite shared t = t ≡ (if shared then 86400 else 600)
IsLimited (seconds n) shared t =
    (t ≤ n)
    × (t ≤ (if shared then 86400 else 600))
    × ((t ≡ n) ⊎ (t ≡ (if shared then 86400 else 600)))

-- A lock or a refresh for which a timeout is asked gets none exactly if it is a refresh and `Infinite`
-- is asked for first. Else it gets the limit of its kind, a day for a shared lock and ten minutes for
-- an exclusive one, where `Infinite` is asked for first; and the smaller of that limit and of the
-- seconds where a number is.
pub get_timeout_lem :
    (asked : DavTimeout) (rest : List DavTimeout) (refresh shared : Bool)
    → ((get_timeout (some (asked ∷ rest)) refresh shared ≡ none)
        ↔ ((refresh ≡ true) × (asked ≡ infinite)))
      × ((t : ℕ)
          → get_timeout (some (asked ∷ rest)) refresh shared ≡ some t
          → IsLimited asked shared t)
unfolding get_timeout
get_timeout_lem infinite rest true shared = ((λ _. (refl, refl), λ _. refl), λ t h. ground arith)
get_timeout_lem infinite rest false shared =
    ((λ h. absurd (ground arith), λ h. absurd (ground arith)), λ t h. ground arith)
get_timeout_lem (seconds m) rest refresh shared =
    ((λ h. absurd (ground arith), λ h. absurd (ground arith)), λ t h. ground arith)
