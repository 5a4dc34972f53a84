-- ===== src/CardDav/Queries.antt =====
-- The query with lists of filters against the one with a single filter (src/carddav.rs).
use dav_server_rs.Common.{
  ◌∙◌, ap, not, all, any, map, retain, if◌then◌else◌, ◌&&◌, ◌≡◌, refl, Bool, true, false, Option,
  none, some, List, [], ◌∷◌, ◌++◌, Bytes, is_empty, All, arith, Bool-cases, Option-cases, inl, inr,
}
use dav_server_rs.CardDav.{
  VCardEntry, PropertyFilter, FilterTest, ParsedPropertyFilter, all_of,
  addressbook_matches_parsed_query, addressbook_matches_query, test_matches, any_of, all_values,
  entries_named, vcard_entry_matches_param_filter, vcard_entry_matches_prop_filter,
  text_matches_any, vcard_matches_parsed_filter, vcard_matches_prop_filter,
}
use dav_server_rs.DavFilters.{TextMatch, matches_any}

-- The parsed form of a filter: all of its conditions are asked for.
abbrev pub as_list : Option TextMatch → List TextMatch
as_list none = []
as_list (some tm) = tm ∷ []

abbrev pub as_parsed : PropertyFilter → ParsedPropertyFilter
as_parsed pf = record {
  name = pf.name;
  is_not_defined = pf.is_not_defined;
  text_matches = as_list pf.text_match;
  param_filters = pf.param_filters;
  test = all_of;
}

-- Each property of the card has a value with a text.
abbrev pub HasTexts : List VCardEntry → Type 0
HasTexts vcard = All (λ e. is_empty e.values ≡ false) vcard

all-map : {A : Type 0} (f : A → Bool) (xs : List A) → all (λ matched. matched) (map f xs) ≡ all f xs
all-map f [] = refl
all-map f (x ∷ xs) = ap (λ b. f x && b) (all-map f xs)

test_matches-single : (test : FilterTest) (b : Bool) → test_matches test (b ∷ []) ≡ b
unfolding test_matches
test_matches-single any_of true = refl
test_matches-single any_of false = refl
test_matches-single all_of true = refl
test_matches-single all_of false = refl

any-cong : {A : Type 0} (f g : A → Bool) (xs : List A) → ((x : A) → f x ≡ g x) → any f xs ≡ any g xs
any-cong f g [] h = refl
any-cong f g (x ∷ xs) h = rw (h x, any-cong f g xs h) refl

HasTexts-retain :
    (p : VCardEntry → Bool) (xs : List VCardEntry) → HasTexts xs → HasTexts (retain p xs)
HasTexts-retain p [] h = tt
HasTexts-retain p (x ∷ xs) (k, h) = elim (Bool-cases (p x)) [
  | inl kept ↦ rw kept (k, HasTexts-retain p xs h)
  | inr dropped ↦ rw dropped (HasTexts-retain p xs h)
]

is_empty-all_values :
    (xs : List VCardEntry) → HasTexts xs → is_empty xs ≡ false → is_empty (all_values xs) ≡ false
is_empty-all_values [] h e = absurd (ground arith)
is_empty-all_values (x ∷ xs) (k, h) e = go x.values k
  where
    go :
        (values : List Bytes) → is_empty values ≡ false → is_empty (values ++ all_values xs) ≡ false
    go [] k = absurd (ground arith)
    go (v ∷ values) k = refl

only-if : (text params : Bool) → text && params ≡ (if not params then false else text)
only-if true true = refl
only-if true false = refl
only-if false true = refl
only-if false false = refl

and_true : (b : Bool) → b && true ≡ b
and_true true = refl
and_true false = refl

branches :
    (b : Bool) {x x' y y' : Bool}
    → (b ≡ true → x ≡ x')
    → (b ≡ false → y ≡ y')
    → (if b then x else y) ≡ (if b then x' else y')
branches true h k = h refl
branches false h k = k refl

-- The order of the tests, where no value is missing.
conditions :
    (no_text no_params no_values a b c t : Bool)
    → no_values ≡ false
    → (if no_text then true else a) ≡ t
    → b ≡ c
    → (if no_text && no_params then true else if no_params then a else b)
      ≡ (if no_params then (if no_values then false else t) else c)
conditions no_text no_params no_values a b c t full h k = ground arith

module _ (to_lowercase : Bytes → Bytes) where
  entry_agrees :
      (entry : VCardEntry) (pf : PropertyFilter)
      → test_matches all_of (
          map (λ tm. matches_any to_lowercase tm entry.values) (as_list pf.text_match)
          ++ map (vcard_entry_matches_param_filter to_lowercase entry) pf.param_filters)
        ≡ vcard_entry_matches_prop_filter to_lowercase entry pf
  unfolding test_matches vcard_entry_matches_prop_filter
  entry_agrees entry pf =
      let asked = all-map (vcard_entry_matches_param_filter to_lowercase entry) pf.param_filters in
      elim (Option-cases pf.text_match) [
        | inl e ↦ rw (e, asked, vcard_entry_matches_prop_filter) (only-if true _)
        | inr (tm, e) ↦
            rw (e, asked, vcard_entry_matches_prop_filter)
              (only-if (matches_any to_lowercase tm entry.values) _)
      ]

  texts_agree :
      (text_match : Option TextMatch) (values : List Bytes)
      → (if is_empty (as_list text_match)
          then true
          else all
              (λ matched. matched)
              (map (λ tm. matches_any to_lowercase tm values) (as_list text_match)))
        ≡ text_matches_any to_lowercase text_match values
  texts_agree none values = refl
  texts_agree (some tm) values = and_true (matches_any to_lowercase tm values)

  filters_agree :
      (vcard : List VCardEntry) (pf : PropertyFilter)
      → HasTexts vcard
      → vcard_matches_parsed_filter to_lowercase vcard (as_parsed pf)
        ≡ vcard_matches_prop_filter to_lowercase vcard pf
  unfolding vcard_matches_parsed_filter vcard_matches_prop_filter test_matches
  filters_agree vcard pf h =
      let entries = entries_named pf.name vcard in
      branches pf.is_not_defined (λ _. refl)
        (λ _.
          branches (is_empty entries) (λ _. refl)
            (λ present.
              conditions (is_empty (as_list pf.text_match)) (is_empty pf.param_filters)
                (is_empty (all_values entries)) _ _ _ _
                (is_empty-all_values entries (HasTexts-retain _ vcard h) present)
                (texts_agree pf.text_match (all_values entries))
                (any-cong _ _ entries (λ entry. entry_agrees entry pf))))

  -- An address book's card matches a query with one filter whose conditions are all asked for if and
  -- only if it matches the query of the public type with that filter, where each property of the card
  -- has a value with a text.
  pub queries_agree :
      (validate_vcard_data : Bytes → Option (List VCardEntry)) (content : Bytes)
      (pf : PropertyFilter) (test : FilterTest)
      → ((vcard : List VCardEntry) → validate_vcard_data content ≡ some vcard → HasTexts vcard)
      → addressbook_matches_parsed_query to_lowercase validate_vcard_data content
          (record { filters = as_parsed pf ∷ []; test = test })
        ≡ addressbook_matches_query to_lowercase validate_vcard_data content (some pf)
  unfolding addressbook_matches_parsed_query addressbook_matches_query
  queries_agree validate_vcard_data content pf test h =
      elim (Option-cases (validate_vcard_data content)) [
        | inl e ↦ rw (e, addressbook_matches_query, addressbook_matches_parsed_query) refl
        | inr (vcard, e) ↦
            rw (e, addressbook_matches_query, addressbook_matches_parsed_query)
              (test_matches-single test _ ∙ filters_agree vcard pf (h vcard e))
      ]
