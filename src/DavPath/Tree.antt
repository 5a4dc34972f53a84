-- ===== src/DavPath/Tree.antt =====
-- The parent of a path, and what lies inside a collection.
use dav_server_rs.Common.{
  suc, take, length-take, beq_refl, append-nil, nat_eq, list_eq, list_beq_iff, ◌≡◌, ◌≢◌, refl, ap,
  ◌∙◌, Bool, true, false, List, [], ◌∷◌, ◌++◌, arith, Bytes, init, is_empty, if◌then◌else◌, length,
  append_assoc, take-append_take, drop-append_take, starts_with-append, init-concat,
  is_empty-append, length-append, get_last?-concat, inl, inr, Bool-cases, All, All-append,
  ends_with_byte, drop, unwrap_or, ◌≤◌,
}
use dav_server_rs.DavPath
use dav_server_rs.DavPath.{
  strip_slash, DavPath, slash, segments, parent, extend_segments, as_bytes, get_prefix,
  is_in_collection,
}
use dav_server_rs.DavPath.Names.{IsName, segments-render}
use dav_server_rs.DavPath.Splitting.{IsSegment, segments-joined-append, segments-AreSegments}
use dav_server_rs.DavPath.Segments.{render, joined, joined-concat}

extend_segments-joined :
    (fullpath : Bytes) (segs : List Bytes)
    → extend_segments (fullpath ++ slash) segs ≡ fullpath ++ (joined segs ++ slash)
unfolding extend_segments
extend_segments-joined fullpath [] = refl
extend_segments-joined fullpath (s ∷ segs) =
    extend_segments-joined ((fullpath ++ slash) ++ s) segs ∙ simp append_assoc

-- The prefix of the path lies within its bytes.
abbrev pub HasPrefix : DavPath → Type 0
HasPrefix p = unwrap_or p.pfxlen 0 ≤ length p.fullpath

module _ (p : DavPath) (fits : HasPrefix p) where
  get_prefix-parent : get_prefix (parent p) ≡ get_prefix p
  unfolding get_prefix parent
  get_prefix-parent =
      elim (Bool-cases (is_empty (segments (drop (unwrap_or p.pfxlen 0) p.fullpath)))) [
        | inl root ↦ rw root refl
        | inr below ↦ rw (below, extend_segments-joined) (take-append_take _ _ _ fits)
      ]

  as_bytes-parent :
      is_empty (segments (as_bytes p)) ≡ false
      → as_bytes (parent p) ≡ joined (init (segments (as_bytes p))) ++ slash
  unfolding as_bytes parent
  as_bytes-parent below = rw (below, extend_segments-joined) (drop-append_take _ _ _ fits)

ends_with_byte-slash : (s : Bytes) → ends_with_byte (s ++ slash) b'/' ≡ true
ends_with_byte-slash s = rw (get_last?-concat s b'/', ends_with_byte)

longer : (xs ys : Bytes) → ys ≢ [] → xs ++ ys ≢ xs
longer xs [] h e = h refl
longer xs (y ∷ ys) h e = absurd (omega (arith, ap length e, length-append xs (y ∷ ys)))

-- What starts with the path of a collection and goes on is inside it.
is_in_collection_of :
    (p collection : DavPath) (dir rest : Bytes)
    → as_bytes collection ≡ dir ++ slash
    → as_bytes p ≡ (dir ++ slash) ++ rest
    → rest ≢ []
    → is_in_collection p collection ≡ true
unfolding is_in_collection
is_in_collection_of p collection dir rest e h more =
    rw (e, h, ends_with_byte-slash dir)
      (ground (
        arith,
        starts_with-append (dir ++ slash) rest,
        list_beq_iff ((dir ++ slash) ++ rest) (dir ++ slash),
        longer (dir ++ slash) rest more,
      ))

abbrev slash_if : Bool → Bytes → Bytes
slash_if isdir s = if isdir then s ++ slash else s

render-concat :
    (dirs : List Bytes) (name : Bytes) (isdir : Bool)
    → render (dirs ++ name ∷ []) isdir ≡ (joined dirs ++ slash) ++ slash_if isdir name
render-concat dirs name true = simp (joined-concat, append_assoc)
render-concat dirs name false = rw is_empty-append (simp (joined-concat, append_assoc))

slash_if_ne : (isdir : Bool) (s : Bytes) → s ≢ [] → slash_if isdir s ≢ []
slash_if_ne true [] h e = h refl
slash_if_ne true (x ∷ s) h e = cc
slash_if_ne false s h e = h e

-- The parent of an entry below the root of its prefix keeps the prefix, is the collection of the
-- names before the last, and contains the entry.
pub parent_lem :
    (p : DavPath) (dirs : List Bytes) (name : Bytes) (isdir : Bool)
    → HasPrefix p
    → All IsName dirs
    → IsName name
    → as_bytes p ≡ render (dirs ++ name ∷ []) isdir
    → (get_prefix (parent p) ≡ get_prefix p)
      × (as_bytes (parent p) ≡ render dirs true)
      × (segments (as_bytes (parent p)) ≡ dirs)
      × (is_in_collection p (parent p) ≡ true)
parent_lem p dirs name isdir fits ds n e =
    let segs : segments (as_bytes p) ≡ dirs ++ name ∷ [] =
      rw e (segments-render _ isdir (All-append IsName dirs (name ∷ []) ds (n, tt))) in
    let bytes : as_bytes (parent p) ≡ joined dirs ++ slash =
      as_bytes-parent p fits (rw segs (is_empty-append dirs name []))
      ∙ rw (segs, init-concat) refl in
    (
      get_prefix-parent p fits,
      bytes,
      rw bytes (segments-render dirs true ds),
      is_in_collection_of p (parent p) (joined dirs) (slash_if isdir name) bytes
          (e ∙ render-concat dirs name isdir) (slash_if_ne isdir name n.not_empty),
    )

init-All : (P : Bytes → Type 0) (xs : List Bytes) → All P xs → All P (init xs)
init-All P [] h = tt
init-All P (x ∷ []) h = tt
init-All P (x ∷ y ∷ r) (p, h) = (p, init-All P (y ∷ r) h)

-- The parent has all segments but the last one.
pub segments-parent :
    (p : DavPath)
    → HasPrefix p
    → is_empty (segments (as_bytes p)) ≡ false
    → segments (as_bytes (parent p)) ≡ init (segments (as_bytes p))
unfolding segments
segments-parent p fits below =
    let names = init (segments (as_bytes p)) in
    ap segments (as_bytes-parent p fits below)
    ∙ segments-joined-append names [] (init-All IsSegment _ (segments-AreSegments (as_bytes p)))
    ∙ append-nil names

-- The prefix of the parent lies within its bytes.
pub parent-HasPrefix : (p : DavPath) → HasPrefix p → HasPrefix (parent p)
unfolding parent
parent-HasPrefix p fits =
    let pre = take (unwrap_or p.pfxlen 0) p.fullpath in
    let segs = segments (drop (unwrap_or p.pfxlen 0) p.fullpath) in
    elim (Bool-cases (is_empty segs)) [
      | inl root ↦ rw root fits
      | inr below ↦
          rw (below, extend_segments-joined)
            (omega (
              arith,
              length-append pre (joined (init segs) ++ slash),
              length-take (unwrap_or p.pfxlen 0) p.fullpath fits,
            ))
    ]

length-init : (xs : List Bytes) → is_empty xs ≡ false → suc (length (init xs)) ≡ length xs
length-init [] h = absurd (ground arith)
length-init (x ∷ []) h = refl
length-init (x ∷ y ∷ r) h = ap suc (length-init (y ∷ r) refl)

-- A path that is not its own parent has one segment more than the parent.
pub length-segments-parent :
    (p : DavPath)
    → HasPrefix p
    → DavPath.eq (parent p) p ≡ false
    → suc (length (segments (as_bytes (parent p)))) ≡ length (segments (as_bytes p))
unfolding parent as_bytes DavPath.eq
length-segments-parent p fits other = elim (Bool-cases (is_empty (segments (as_bytes p)))) [
  | inl root ↦ absurd (ground (arith, rw root at other, beq_refl (strip_slash p.fullpath)))
  | inr below ↦ ap (λ xs. suc (length xs)) (segments-parent p fits below) ∙ length-init _ below
]
