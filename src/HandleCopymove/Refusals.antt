-- ===== src/HandleCopymove/Refusals.antt =====
-- src/handle_copymove.rs: a COPY or a MOVE that is refused.
use dav_server_rs.Common.{
  ◌||◌, if-eq-ok, not, ◌&&◌, unwrap_or, ℕ, ◌<◌, ◌≡◌, refl, sym, subst, Bool, true, false, Option,
  none, some, List, Result, ok, err, Bytes, inl, inr, Result-cases, if◌then◌else◌, not, arith,
  Bool-cases,
}
use dav_server_rs.DavHeaders.Values.{Depth}
use dav_server_rs.DavPath
use dav_server_rs.DavPath.{DavPath, is_in_collection}
use dav_server_rs.Errors.{DavError, status}
use dav_server_rs.Fs.Guarded.{DavMetaData, GuardedFileSystem}
use dav_server_rs.Fs.Kinds.{CollectionKind}
use dav_server_rs.HandleCopymove.{has_parent}
use dav_server_rs.HandleCopymove.Answer.{copymove_and_answer_lem}
use dav_server_rs.HandleCopymove.Copying.{RefusesWell}
use dav_server_rs.HandleCopymove.Checks.{
  Request, Found, copy_depth, destination_path, source_meta, find_destination, check_nesting,
  check_kinds, validate_copy_destination, refuse_if, is_present,
}
use dav_server_rs.HandleCopymove.Handler.{copymove_and_answer, handle_copymove, carry_out}
use dav_server_rs.HandleDelete.{check_locks}
use dav_server_rs.HandleDelete.Preconditions.{precondition-Ends}
use dav_server_rs.HandleDelete.Reports.{IsLower}
use dav_server_rs.Ls.{DavLockSystem}
use dav_server_rs.MultiError.{Response}
use dav_server_rs.PercentEncoding.{PercentEncoding}
use dav_server_rs.Tree.Ends.{Ends}
use dav_server_rs.Tree.Monad.{Action, reads, pure, ◌>>=◌, ◌>>◌}
use dav_server_rs.Util.{DavMethod, is_move}

module _ {S Element : Type 0} (fs : GuardedFileSystem S) (ls : Option (DavLockSystem S Element))
    (principal : Option Bytes)
    (get_tokens : DavMetaData → DavPath → S → Result (List Bytes) ℕ × S) where
  -- The states that are reached by preconditions and by checks of the lock system alone.
  pub data IsChecked : S → S → Type 0 where
    same : (s : S) → IsChecked s s
    asked :
        (s s' : S) (meta : DavMetaData) (path : DavPath)
        → IsChecked s s'
        → IsChecked s (get_tokens meta path s').1
    checks :
        (s s' : S) (locksystem : DavLockSystem S Element) (path : DavPath) (tokens : List Bytes)
        → ls ≡ some locksystem
        → IsChecked s s'
        → IsChecked s (locksystem.check path principal false true tokens s').1

  -- The answer to a request of which that holds, or a refusal.
  abbrev pub Answers : Type 0 → S → Result Response DavError → S → Type 0
  Answers Q s (ok a) s' = Q
  Answers Q s (err e) s' = IsChecked s s'

  reads-Answers :
      (Q : Type 0) {A : Type 0} (f : S → Result A DavError) (k : A → Action S DavError Response)
      (s s' : S)
      → IsChecked s s'
      → ((a : A) → f s' ≡ ok a → Ends (Answers Q s) (k a s'))
      → Ends (Answers Q s) ((reads f >>= k) s')
  reads-Answers Q f k s s' c h = elim (Result-cases (f s')) [
    | inl (a, e) ↦ rw (e, Ends) (h a e)
    | inr (fault, e) ↦ rw (e, Ends) c
  ]

  checked-Answers :
      (Q : Type 0) (o : Option (DavLockSystem S Element)) (tokens : List Bytes) (path : DavPath)
      (s s' : S) (k : Action S DavError Response)
      → ls ≡ o
      → IsChecked s s'
      → ((u : S) → IsChecked s u → Ends (Answers Q s) (k u))
      → Ends (Answers Q s) ((check_locks fs o principal tokens path >> k) s')
  checked-Answers Q none tokens path s s' k q c h = h s' c
  checked-Answers Q (some locksystem) tokens path s s' k q c h =
      let after = checks s s' locksystem path tokens q c in
      elim (Result-cases (locksystem.check path principal false true tokens s').0) [
        | inl (_, e) ↦
            rw (e, Ends) (h (locksystem.check path principal false true tokens s').1 after)
        | inr (l, e) ↦ rw (e, Ends) after
      ]

  if-checked-Answers :
      (Q : Type 0) (b : Bool) (tokens : List Bytes) (path : DavPath) (s s' : S)
      (k : Action S DavError Response)
      → IsChecked s s'
      → ((u : S) → IsChecked s u → Ends (Answers Q s) (k u))
      → Ends
          (Answers Q s)
          (((if b then check_locks fs ls principal tokens path else pure tt) >> k) s')
  if-checked-Answers Q true tokens path s s' k c h =
      checked-Answers Q ls tokens path s s' k refl c h
  if-checked-Answers Q false tokens path s s' k c h = h s' c

  module _ (ensure_visible : DavPath → S → Result (Unit {0}) DavError) where
    answered-Answers :
        (Q : Type 0) (height : DavPath → ℕ) (fuel : ℕ) (method : DavMethod) (overwrite : Bool)
        (depth : Depth) (found : Found) (path dest : DavPath) (s s' : S)
        → IsLower fs height
        → RefusesWell fs ensure_visible
        → ((path : DavPath) → height path < fuel)
        → Q
        → Ends (Answers Q s) (
            copymove_and_answer fs ls ensure_visible fuel method overwrite depth found path dest s')
    answered-Answers Q height fuel method overwrite depth found path dest s s' lower well enough q =
        let (r, m, _, answered) =
          copymove_and_answer_lem fs ls ensure_visible fuel method overwrite depth found path dest
            s' height lower well (enough dest) (enough path) in
        elim answered [
          | inl (_, _, e) ↦ subst (Ends (Answers Q s)) (sym e) q
          | inr (_, a, e, _) ↦ subst (Ends (Answers Q s)) (sym e) q
        ]

  -- Neither of the two lies in the other, and they are not the same.
  abbrev pub IsApart : DavPath → DavPath → Type 0
  IsApart path dest =
      (DavPath.eq path dest ≡ false)
      × (is_in_collection dest path ≡ false)
      × (is_in_collection path dest ≡ false)

  check_nesting-IsApart :
      (path dest : DavPath) (present : Bool) (s : S)
      → check_nesting fs path dest present s ≡ ok tt
      → IsApart path dest
  unfolding check_nesting
  check_nesting-IsApart path dest present s h =
      elim (Bool-cases
        (DavPath.eq path dest || is_in_collection dest path || is_in_collection path dest)) [
          | inl bad ↦ absurd (ground arith)
          | inr clear ↦ (ground arith, ground arith, ground arith)
        ]

  -- What is known of a request that is not refused: its destination, its source, that they are apart,
  -- that the parent of the destination is a collection, and that what stands there may be overwritten.
  abbrev pub IsCarriedOut : PercentEncoding → Bytes → DavMethod → Request → DavPath → S → Type 0
  IsCarriedOut pct prefix method req path s =
      (dest : DavPath) × (meta : DavMetaData) × (source : DavPath) × (destination_path pct prefix
          req
        ≡ ok dest)
      × (source_meta fs method path s ≡ ok (meta, source))
      × IsApart source dest
      × (has_parent fs dest s ≡ true)
      × ((not (unwrap_or req.overwrite true) && is_present (find_destination fs dest s)) ≡ false)

  carried_out :
      (pct : PercentEncoding) (prefix : Bytes) (method : DavMethod) (req : Request) (path : DavPath)
      (s : S) (dest : DavPath) (source : DavMetaData × DavPath)
      → destination_path pct prefix req ≡ ok dest
      → source_meta fs method path s ≡ ok source
      → refuse_if (not (has_parent fs dest s)) 409 ≡ ok tt
      → refuse_if
          (not (unwrap_or req.overwrite true) && is_present (find_destination fs dest s))
          412
        ≡ ok tt
      → check_nesting fs source.1 dest (is_present (find_destination fs dest s)) s ≡ ok tt
      → IsCarriedOut pct prefix method req path s
  carried_out pct prefix method req path s dest source to from parent free apart =
      let (has, _) = if-eq-ok (not (has_parent fs dest s)) (status 409) parent in
      let (may, _) =
        if-eq-ok (not (unwrap_or req.overwrite true) && is_present (find_destination fs dest s))
          (status 412) free in
      let free_of =
        check_nesting-IsApart source.1 dest (is_present (find_destination fs dest s)) s apart in
      (dest, source.0, source.1, to, from, free_of, ground arith, may)

  module _ (ensure_visible : DavPath → S → Result (Unit {0}) DavError) where
    -- From the preconditions on, where that holds of the request.
    carry_out-Answers :
        (Q : Type 0) (valid : CollectionKind → Bytes → Bool) (fuel : ℕ) (method : DavMethod)
        (overwrite : Bool) (depth : Depth) (meta : DavMetaData) (path : DavPath) (found : Found)
        (dest : DavPath) (s : S) (height : DavPath → ℕ)
        → IsLower fs height
        → RefusesWell fs ensure_visible
        → ((path : DavPath) → height path < fuel)
        → Q
        → Ends (Answers Q s) (
            carry_out fs ls ensure_visible valid get_tokens principal fuel method overwrite depth
              meta path found dest s)
    unfolding carry_out
    carry_out-Answers Q valid fuel method overwrite depth meta path found dest s height lower well
          enough q =
        let s₀ = (get_tokens meta path s).1 in
        let c₀ = asked s s meta path (same s) in
        precondition-Ends (Answers Q s) (get_tokens meta path) _ s
          (λ tokens. if-checked-Answers Q (is_move method) tokens path s s₀ _ c₀ (λ s₁ c₁.
            checked-Answers Q ls tokens dest s s₁ _ refl c₁ (λ s₂ c₂.
              reads-Answers Q (check_kinds fs method depth meta path found dest) _ s s₂ c₂ (λ _ _.
                reads-Answers Q (validate_copy_destination fs valid path dest) _ s s₂ c₂ (λ _ _.
                  answered-Answers ensure_visible Q height fuel method overwrite depth found path
                    dest s s₂ lower well enough q)))))
          (λ _. c₀)

    -- A COPY or a MOVE always ends, where the filesystem is not deeper than the fuel. Where it ends
    -- with an error, of its headers, its paths, its preconditions or of a lock, nothing was copied,
    -- moved or removed: no call was made that changes anything, but for those of the preconditions and
    -- for checks of the lock system.
    -- Where it is carried out, the source and the destination are apart, neither lies in the other, the
    -- parent of the destination is a collection, and what stands there may be overwritten.
    pub handle_copymove_lem :
        (pct : PercentEncoding) (valid : CollectionKind → Bytes → Bool) (prefix : Bytes) (fuel : ℕ)
        (method : DavMethod) (req : Request) (path : DavPath) (s : S) (height : DavPath → ℕ)
        → IsLower fs height
        → RefusesWell fs ensure_visible
        → ((path : DavPath) → height path < fuel)
        → Ends (Answers (IsCarriedOut pct prefix method req path s) s) (
            handle_copymove fs ls ensure_visible pct valid get_tokens prefix principal fuel method
              req path s)
    unfolding handle_copymove
    handle_copymove_lem pct valid prefix fuel method req path s height lower well enough =
        let Q : Type 0 = IsCarriedOut pct prefix method req path s in
        let overwrite = unwrap_or req.overwrite true in
        reads-Answers Q (λ _. copy_depth method req.depth) _ s s (same s)
          (λ depth _.
            reads-Answers Q (λ _. destination_path pct prefix req) _ s s (same s)
              (λ dest to. reads-Answers Q (ensure_visible path) _ s s (same s) (λ _ _.
                reads-Answers Q (ensure_visible dest) _ s s (same s) (λ _ _.
                  reads-Answers Q (source_meta fs method path) _ s s (same s) (λ source from.
                    let found = find_destination fs dest s in
                    reads-Answers Q (λ s. refuse_if (not (has_parent fs dest s)) 409) _ s s (same s)
                      (λ _ parent.
                        reads-Answers Q (λ _. refuse_if (not overwrite && is_present found) 412) _ s
                          s (same s)
                          (λ _ free.
                            reads-Answers Q (check_nesting fs source.1 dest (is_present found)) _ s
                              s (same s)
                              (λ _ apart.
                                carry_out-Answers Q valid fuel method overwrite depth source.0
                                  source.1 found dest s height lower well enough
                                  (carried_out pct prefix method req path s dest source to from
                                    parent free apart)))))))))
