-- ===== src/DavPath/Splitting.antt =====
-- The segments of a path: each is a part between slashes, and joined ones are read back.
use dav_server_rs.Common.{
  nat_eq, ◌==◌, ◌≡◌, ◌≢◌, refl, ap, ◌∙◌, not, List, [], ◌∷◌, ◌++◌, arith, Bytes, is_empty,
  append_assoc, append-nil, inl, inr, Bool-cases, All, split_on, cons_head, retain, ℕ,
}
use dav_server_rs.DavPath.{segments}
use dav_server_rs.DavPath.Segments.{joined}

abbrev NoSlash : Bytes → Type 0
NoSlash s = All (λ x. x ≢ b'/') s

-- What stands between two slashes, where they are not next to each other.
abbrev pub IsSegment : Bytes → Type 0
IsSegment s = (s ≢ []) × NoSlash s

split_on-name :
    (s rest : Bytes) → NoSlash s → split_on b'/' (s ++ b'/' ∷ rest) ≡ s ∷ split_on b'/' rest
split_on-name [] rest h = refl
split_on-name (x ∷ s) rest (p, h) = ground (arith, split_on-name s rest h)

split_on-last : (s : Bytes) → NoSlash s → split_on b'/' s ≡ s ∷ []
split_on-last [] h = refl
split_on-last (x ∷ s) (p, h) = ground (arith, split_on-last s h)

segments-name :
    (s rest : Bytes) → IsSegment s → segments (s ++ b'/' ∷ rest) ≡ s ∷ segments (b'/' ∷ rest)
unfolding segments
segments-name [] rest (full, _) = absurd (full refl)
segments-name (x ∷ s) rest (_, h) = rw (split_on-name (x ∷ s) rest h)

segments-last : (s : Bytes) → IsSegment s → segments s ≡ s ∷ []
unfolding segments
segments-last [] (full, _) = absurd (full refl)
segments-last (x ∷ s) (_, h) = rw (split_on-last (x ∷ s) h)

-- A slash after joined segments separates them from the rest.
pub segments-joined-append :
    (names : List Bytes) (rest : Bytes)
    → All IsSegment names
    → segments (joined names ++ b'/' ∷ rest) ≡ names ++ segments rest
unfolding segments
segments-joined-append [] rest h = refl
segments-joined-append (s ∷ []) rest (n, h) = rw append-nil (segments-name s rest n)
segments-joined-append (s ∷ t ∷ names) rest (n, h) = rw append_assoc (
    segments-name s ((t ++ joined names) ++ b'/' ∷ rest) n
    ∙ ap (λ r. s ∷ r) (segments-joined-append (t ∷ names) rest h))

pub segments-joined : (names : List Bytes) → All IsSegment names → segments (joined names) ≡ names
unfolding segments
segments-joined [] h = refl
segments-joined (s ∷ []) (n, h) = rw append-nil (segments-last s n)
segments-joined (s ∷ t ∷ names) (n, h) =
    segments-name s (t ++ joined names) n ∙ ap (λ r. s ∷ r) (segments-joined (t ∷ names) h)

cons_head-NoSlash :
    (x : ℕ) (parts : List Bytes) → x ≢ b'/' → All NoSlash parts → All NoSlash (cons_head x parts)
cons_head-NoSlash x [] p h = ((p, tt), tt)
cons_head-NoSlash x (s ∷ parts) p (q, h) = ((p, q), h)

split_on-NoSlash : (path : Bytes) → All NoSlash (split_on b'/' path)
split_on-NoSlash [] = (tt, tt)
split_on-NoSlash (x ∷ path) = elim (Bool-cases (x == b'/')) [
  | inl sep ↦ rw sep (tt, split_on-NoSlash path)
  | inr part ↦
      rw part (cons_head-NoSlash x (split_on b'/' path) (ground arith) (split_on-NoSlash path))
]

retain-IsSegment :
    (parts : List Bytes) → All NoSlash parts → All IsSegment (retain (λ e. not (is_empty e)) parts)
retain-IsSegment [] h = tt
retain-IsSegment ([] ∷ parts) (p, h) = retain-IsSegment parts h
retain-IsSegment ((x ∷ s) ∷ parts) (p, h) =
    (((λ q. absurd (ground arith)), p), retain-IsSegment parts h)

-- Whatever the path.
pub segments-AreSegments : (path : Bytes) → All IsSegment (segments path)
unfolding segments
segments-AreSegments path = retain-IsSegment (split_on b'/' path) (split_on-NoSlash path)
