-- ===== src/Conditional/Http.antt =====
-- The preconditions of RFC 7232.
use dav_server_rs.Common.{
  ℕ, ◌≡◌, refl, Bool, true, Option, none, some, is_some, any, Option-cases, ◌↔◌, arith, ◌⊎◌, inl,
  inr, list_eq, nat_eq,
}
use dav_server_rs.DavHeaders.ETag.{ETag, ETagList, star, tags, strong_eq, weak_eq}
use dav_server_rs.Conditional.{
  Meta, Request, http_if_match, match_fails, none_match, etaglist_match, precondition_failed,
  not_modified, meta_etag,
}

-- The resource has an entity tag that a header lists, by the comparison that applies to the header.
abbrev pub Listed : (ETag → ETag → Bool) → ETagList → Option Meta → Type 0
Listed cmp star meta = is_some meta ≡ true
Listed cmp (tags t) meta = (e : ETag) × (meta_etag meta ≡ some e) × (any (λ x. cmp x e) t ≡ true)

Listed-iff :
    (cmp : ETag → ETag → Bool) (r : ETagList) (meta : Option Meta)
    → (etaglist_match r (is_some meta) (meta_etag meta) cmp ≡ true) ↔ Listed cmp r meta
unfolding etaglist_match
Listed-iff cmp star meta = (λ h. h, λ h. h)
Listed-iff cmp (tags t) meta = elim (Option-cases (meta_etag meta)) [
  | inl e ↦ rw e (λ h. absurd (ground arith), λ h. absurd (ground arith))
  | inr (tag, e) ↦ rw e (λ h. (tag, refl, h), λ h. ground arith)
]

-- A request that passes the preconditions of RFC 7232 meets those that it states: with `If-Match`
-- the resource exists or has one of the listed tags, by strong comparison, and with `If-None-Match`
-- it does not exist or has none of them, by weak comparison.
pub http_if_match-passes :
    (req : Request) (meta : Option Meta) (r : ETagList)
    → http_if_match req meta ≡ none
    → (req.if_match ≡ some r → Listed strong_eq r meta)
      × (req.if_none_match ≡ some r → ¬ Listed weak_eq r meta)
unfolding http_if_match match_fails none_match
http_if_match-passes req meta r h = (
  λ e. (Listed-iff strong_eq r meta).0 (ground arith),
  λ e l. let listed = (Listed-iff weak_eq r meta).1 l in ground arith,
)

-- The only answers of the preconditions are 412 and, for GET and HEAD alone, 304.
pub http_if_match_answers :
    (req : Request) (meta : Option Meta) (code : ℕ)
    → http_if_match req meta ≡ some code
    → (code ≡ precondition_failed) ⊎ ((code ≡ not_modified) × (req.reads ≡ true))
unfolding http_if_match none_match
http_if_match_answers req meta code h = ground arith
