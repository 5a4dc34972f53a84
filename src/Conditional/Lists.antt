-- ===== src/Conditional/Lists.antt =====
-- The evaluation of the header `If` against its meaning: the lists are ORed, the conditions of a list
-- are ANDed.
use dav_server_rs.Common.{
  ◌≡◌, refl, sym, ap, ◌∙◌, Bool, true, false, not, ◌&&◌, ◌||◌, none, some, List, [], ◌∷◌, ◌++◌,
  Bytes, arith, any, all, is_empty, if◌then◌else◌, concat, map, append_assoc, append-nil,
  Option-cases, inl, inr,
}
use dav_server_rs.DavPath.{DavPath}
use dav_server_rs.DavHeaders.IfHeader.{IfCondition, IfList}
use dav_server_rs.Conditional.{
  Backend, Request, cond_ok, list_resource, list_loop, state_tokens, if_loop, dav_if_match,
}

module _ {Element : Type 0} (server : Backend Element) (req : Request) (path : DavPath) where
  -- A condition holds if its item is true, or is false behind a `Not`.
  abbrev pub holds_at : DavPath → Bool → IfCondition → Bool
  holds_at p valid c =
      if c.negated
      then not (cond_ok server req path p valid c.item)
      else cond_ok server req path p valid c.item

  -- A list is true if it has a condition and all its conditions hold at its resource.
  abbrev pub is_satisfied : IfList → Bool
  is_satisfied l =
      not (is_empty l.conditions)
      && all (holds_at (list_resource server req path l).0 (list_resource server req path l).1)
          l.conditions

  list_loop-all :
      (p : DavPath) (valid list_ok : Bool) (conditions : List IfCondition)
      → list_loop server req path p valid list_ok conditions
        ≡ (if is_empty conditions then list_ok else all (holds_at p valid) conditions)
  unfolding list_loop
  list_loop-all p valid list_ok [] = refl
  list_loop-all p valid list_ok (c ∷ []) = ground arith
  list_loop-all p valid list_ok (c ∷ d ∷ conditions) =
      ground (arith, list_loop-all p valid true (d ∷ conditions))

  abbrev pub all_tokens : List IfList → List Bytes
  all_tokens lists = concat (map (λ l. state_tokens server req path l.conditions) lists)

  list_value :
      (l : IfList)
      → list_loop server req path
          (list_resource server req path l).0
          (list_resource server req path l).1
          false
          l.conditions
        ≡ is_satisfied l
  list_value l = ground (
    arith,
    list_loop-all (list_resource server req path l).0 (list_resource server req path l).1 false
        l.conditions,
  )

  if_loop-any :
      (any_list_ok : Bool) (tokens : List Bytes) (lists : List IfList)
      → if_loop server req path any_list_ok tokens lists
        ≡ (any_list_ok || any is_satisfied lists, tokens ++ all_tokens lists)
  unfolding if_loop
  if_loop-any true tokens [] = ap (λ t. (true, t)) (sym (append-nil tokens))
  if_loop-any false tokens [] = ap (λ t. (false, t)) (sym (append-nil tokens))
  if_loop-any true tokens (l ∷ lists) =
      let found = state_tokens server req path l.conditions in
      if_loop-any true (tokens ++ found) lists
      ∙ ap (λ t. (true, t)) (append_assoc tokens found (all_tokens lists))
  if_loop-any false tokens (l ∷ lists) =
      let found = state_tokens server req path l.conditions in
      ap (λ b. if_loop server req path b (tokens ++ found) lists) (list_value l)
      ∙ if_loop-any (is_satisfied l) (tokens ++ found) lists
      ∙ ap (λ t. (is_satisfied l || any is_satisfied lists, t))
          (append_assoc tokens found (all_tokens lists))

  -- Without the header the request passes. With it, the request passes exactly if one of the lists
  -- is true, and all state tokens of all lists are handed on, in order, those of the lists behind
  -- the first true one included.
  pub dav_if_match_lem : dav_if_match server req path ≡ (elim req.if_header [
    | none ↦ (true, [])
    | some lists ↦ (any is_satisfied lists, all_tokens lists)
  ])
  unfolding dav_if_match
  dav_if_match_lem = elim (Option-cases req.if_header) [
    | inl e ↦ rw (e, dav_if_match) refl
    | inr (lists, e) ↦ rw (e, dav_if_match) (if_loop-any false [] lists)
  ]
