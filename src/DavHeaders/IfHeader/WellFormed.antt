-- ===== src/DavHeaders/IfHeader/WellFormed.antt =====
-- What holds of every header `If` that the parser accepts.
use dav_server_rs.Common.{
  ℕ, zero, suc, ◌≡◌, refl, Bool, true, false, not, inl, inr, Result-cases, Option-cases, Option,
  some, List, Result, ok, err, arith, Bytes, is_empty, All, All-append, if◌then◌else◌, subst,
}
use dav_server_rs.DavHeaders.Server.{ServerUrl}
use dav_server_rs.DavHeaders.Values.{HeaderError, one}
use dav_server_rs.DavHeaders.IfHeader.{
  IfItem, state_token, etag, IfCondition, IfList, add, Parser, IfState, start, rtag, in_list,
  after_not, bad, IfToken, list_open, list_close, not_word, word, pointy, tag, end_of_input, Next,
  go, stop, has_colon, add_token, step_in, step_list, step_start, step_rtag, get_token, decode_loop,
  decode_if, new_parser,
}

-- A state token holds a colon.
abbrev pub IsItem : IfItem → Type 0
IsItem (state_token s) = has_colon s ≡ true
IsItem (etag e) = Unit

abbrev pub AreConditions : List IfCondition → Type 0
AreConditions = All (λ c. IsItem c.item)

pub record IsIfList (l : IfList) : Type 0 where
  pub not_empty : is_empty l.conditions ≡ false
  pub items : AreConditions l.conditions

record IsParser (p : Parser) : Type 0 where
  lists : All IsIfList p.if_lists
  current : AreConditions p.cur_list.conditions

-- What is accepted: one list at least, and each with one condition at least.
abbrev pub AreIfLists : List IfList → Type 0
AreIfLists lists = All IsIfList lists × (is_empty lists ≡ false)

abbrev IsNext : Result Next HeaderError → Type 0
IsNext (ok (go p)) = IsParser p
IsNext (ok (stop lists)) = AreIfLists lists
IsNext (err e) = Unit

IsNext-if :
    (b : Bool) (r s : Result Next HeaderError)
    → (b ≡ true → IsNext r)
    → (b ≡ false → IsNext s)
    → IsNext (if b then r else s)
IsNext-if true r s h k = h refl
IsNext-if false r s h k = k refl

IsParser-state : {p : Parser} (st : IfState) → IsParser p → IsParser (record p { state = st })
IsParser-state st h = record { lists = h.lists; current = h.current }

IsParser-add :
    (p : Parser) (negated : Bool) (item : IfItem)
    → IsItem item
    → IsParser p
    → IsParser (record p { cur_list = add p.cur_list negated item })
unfolding add
IsParser-add p negated item i h = record {
  lists = h.lists;
  current = All-append (λ c. IsItem c.item) p.cur_list.conditions _ h.current (i, tt);
}

add_token-IsNext :
    (p : Parser) (negated : Bool) (stok : Bytes) → IsParser p → IsNext (add_token p negated stok)
add_token-IsNext p negated stok h =
    IsNext-if (not (has_colon stok)) _ _ (λ _. IsParser-state bad h)
      λ e. IsParser-state in_list (IsParser-add p negated (state_token stok) (ground arith) h)

step_list-IsNext :
    (p : Parser) (negated : Bool) (tok : IfToken) → IsParser p → IsNext (step_list p negated tok)
unfolding step_list
step_list-IsNext p negated not_word h =
    IsNext-if negated _ _ (λ _. IsParser-state bad h) (λ _. IsParser-state after_not h)
step_list-IsNext p negated (pointy stok) h = add_token-IsNext p negated stok h
step_list-IsNext p negated (word stok) h = add_token-IsNext p negated stok h
step_list-IsNext p negated (tag e) h = IsParser-state in_list (IsParser-add p negated (etag e) tt h)
step_list-IsNext p negated list_close h =
    IsNext-if (is_empty p.cur_list.conditions) _ _ (λ _. IsParser-state bad h)
      λ e. record {
        lists =
            All-append IsIfList p.if_lists _ h.lists
              (record { not_empty = e; items = h.current }, tt);
        current = tt;
      }
step_list-IsNext p negated _ h = IsParser-state bad h

module _ (parse_url : Bytes → Option ServerUrl) where
  pointy_start-IsNext :
      (p : Parser) (url : Bytes) → IsParser p → IsNext (step_start parse_url p (pointy url))
  unfolding step_start
  pointy_start-IsNext p url h = elim (Option-cases (parse_url url)) [
    | inl e ↦ rw e tt
    | inr (u, e) ↦ rw e (record { lists = h.lists; current = h.current })
  ]

  step_start-IsNext :
      (p : Parser) (tok : IfToken) → IsParser p → IsNext (step_start parse_url p tok)
  unfolding step_start
  step_start-IsNext p list_open h = IsParser-state in_list h
  step_start-IsNext p (pointy url) h = pointy_start-IsNext p url h
  step_start-IsNext p end_of_input h =
      IsNext-if (not (is_empty p.if_lists)) _ _ (λ e. (h.lists, ground arith))
        (λ _. IsParser-state bad h)
  step_start-IsNext p _ h = IsParser-state bad h

  step_rtag-IsNext : (p : Parser) (tok : IfToken) → IsParser p → IsNext (step_rtag parse_url p tok)
  unfolding step_rtag
  step_rtag-IsNext p list_open h = IsParser-state in_list h
  step_rtag-IsNext p _ h = IsParser-state bad h

  step_in-IsNext :
      (st : IfState) (p : Parser) (tok : IfToken) → IsParser p → IsNext (step_in parse_url st p tok)
  unfolding step_in
  step_in-IsNext start p tok h = step_start-IsNext p tok h
  step_in-IsNext rtag p tok h = step_rtag-IsNext p tok h
  step_in-IsNext in_list p tok h = step_list-IsNext p false tok h
  step_in-IsNext after_not p tok h = step_list-IsNext p true tok h
  step_in-IsNext bad p tok h = tt

  module _ (utf8 : Bytes → Bool) where
    decode_loop-AreIfLists :
        (fuel : ℕ) (p : Parser) (input : Bytes) {lists : List IfList}
        → IsParser p
        → decode_loop parse_url utf8 fuel p input ≡ some (ok lists)
        → AreIfLists lists
    unfolding decode_loop
    decode_loop-AreIfLists zero p input h e = absurd (ground arith)
    decode_loop-AreIfLists (suc fuel) p input h e = elim (Result-cases (get_token utf8 input)) [
      | inr (fault, t) ↦ absurd (ground arith)
      | inl ((tok, rest), t) ↦ elim (Result-cases (step_in parse_url p.state p tok)) [
        | inr (fault, s) ↦ absurd (ground arith)
        | inl (stop found, s) ↦
            subst AreIfLists {x = found} (ground arith) (rw s at (step_in-IsNext p.state p tok h))
        | inl (go p', s) ↦
            decode_loop-AreIfLists fuel p' rest (rw s at (step_in-IsNext p.state p tok h))
              (rw (t, s, decode_loop) at e)
      ]
    ]

    -- An accepted header has a list, each list has a condition, and each state token in a condition
    -- holds a colon.
    pub decode_if-AreIfLists :
        (values : List Bytes) {lists : List IfList}
        → decode_if parse_url utf8 values ≡ some (ok lists)
        → AreIfLists lists
    unfolding decode_if
    decode_if-AreIfLists values h = elim (Result-cases (one values)) [
      | inr (fault, e) ↦ absurd (ground arith)
      | inl (input, e) ↦
          decode_loop-AreIfLists _ (new_parser parse_url utf8) input
            (record { lists = tt; current = tt }) (rw (e, decode_if) at h)
    ]
