-- ===== src/CardDav/Texts.antt =====
-- src/carddav.rs: what is read of a card without its parser, and which paths are address books.
use dav_server_rs.Common.{
  ◌≡◌, ◌≢◌, refl, ℕ, suc, Bool, true, false, not, ◌&&◌, Option, none, some, List, [], ◌∷◌, ◌++◌,
  Bytes, if◌then◌else◌, any, take, drop, length, init, is_empty, position, split_on, starts_with,
  ends_with_byte, ◌==◌, nat_eq, arith, All, take-append,
}
use dav_server_rs.DavHeaders.Server.{eq_ignore_ascii_case}

-- One trailing slash off, but for "/" itself; then the name behind the parent's path.
unfoldable pub is_immediate_child_of : Bytes → Bytes → Bool
is_immediate_child_of path parent_slash =
    let stripped =
      if ends_with_byte path b'/' && not (is_empty (init path)) then init path else path in
    if starts_with stripped parent_slash
    then (let name = drop (length parent_slash) stripped in
        not (is_empty name) && not (any (λ x. x == b'/') name))
    else false

abbrev pub head_part : List Bytes → Bytes
head_part [] = []
head_part (s ∷ _) = s

-- The name of a property, without its parameters and its group.
unfoldable pub name_of : Bytes → Bytes
name_of property_part =
    let name_part = head_part (split_on b';' property_part) in
    elim (position (λ x. x == b'.') name_part) [
      | none ↦ name_part
      | some dot_pos ↦ drop (suc dot_pos) name_part
    ]

unfoldable pub extract_vcard_property_value : Bytes → Bytes → Option Bytes
extract_vcard_property_value line property_name = elim (position (λ x. x == b':') line) [
  | none ↦ none
  | some colon_pos ↦
      (if eq_ignore_ascii_case (name_of (take colon_pos line)) property_name
        then some (drop (suc colon_pos) line)
        else none)
]

position-append :
    (c : ℕ) (xs ys : Bytes)
    → All (λ x. x ≢ c) xs
    → position (λ x. x == c) (xs ++ c ∷ ys) ≡ some (length xs)
position-append c [] ys h = ground (arith, nat_eq.same_iff c c)
position-append c (x ∷ xs) ys (p, h) =
    ground (arith, nat_eq.same_iff x c, position-append c xs ys h)

drop-append_suc : (xs : Bytes) (c : ℕ) (ys : Bytes) → drop (suc (length xs)) (xs ++ c ∷ ys) ≡ ys
drop-append_suc [] c ys = refl
drop-append_suc (x ∷ xs) c ys = drop-append_suc xs c ys

-- The value of a line is all that follows the first colon, where the name before it is the one asked
-- for, whatever its case, its group and its parameters.
pub extract_vcard_property_value_lem :
    (part value property_name : Bytes)
    → All (λ x. x ≢ b':') part
    → eq_ignore_ascii_case (name_of part) property_name ≡ true
    → extract_vcard_property_value (part ++ b':' ∷ value) property_name ≡ some value
unfolding extract_vcard_property_value
extract_vcard_property_value_lem part value property_name h same =
    rw
      (
        extract_vcard_property_value,
        position-append b':' part value h,
        take-append part (b':' ∷ value),
        same,
        drop-append_suc part b':' value,
      )
      refl
