-- ===== src/Tests/Cards.antt =====
-- A card against a filter.
use dav_server_rs.Common.{◌≡◌, refl, true, false, none, some, List, [], ◌∷◌, codes, subst}
use dav_server_rs.CardDav.{
  vcard_entry_matches_param_filter, vcard_entry_matches_prop_filter, vcard_matches_prop_filter,
  VCardEntry, PropertyFilter, any_of, addressbook_matches_query, addressbook_matches_parsed_query,
}
use dav_server_rs.CardDav.Queries.{HasTexts, as_parsed, queries_agree}
use dav_server_rs.CardDav.Texts.{name_of, extract_vcard_property_value, is_immediate_child_of}
use dav_server_rs.DavFilters.{match_by, is_case_insensitive, matches, matches_any, ParameterFilter}

abbrev tel : VCardEntry
tel = record {
  name = codes "TEL";
  values = codes "12345" ∷ [];
  params = (codes "type", codes "HOME") ∷ [];
}

abbrev card : List VCardEntry
card = tel ∷ []

abbrev home : ParameterFilter
home = record {
  name = codes "TYPE";
  is_not_defined = false;
  text_match = some (record {
    text = codes "HOME";
    collation = some (codes "i;octet");
    negate_condition = false;
    match_type = some (codes "equals");
  });
}

abbrev tel_at_home : PropertyFilter
tel_at_home = record {
  name = codes "tel";
  is_not_defined = false;
  text_match = some (record {
    text = codes "234";
    collation = none;
    negate_condition = false;
    match_type = none;
  });
  param_filters = home ∷ [];
}

card-HasTexts : (vcard : List VCardEntry) → some card ≡ some vcard → HasTexts vcard
card-HasTexts vcard e = let same : card ≡ vcard = cc in subst HasTexts same (refl, tt)

queries_agree_example :
    addressbook_matches_parsed_query
      (λ s. s)
      (λ _. some card)
      (codes "BEGIN:VCARD")
      (record { filters = as_parsed tel_at_home ∷ []; test = any_of })
    ≡ addressbook_matches_query (λ s. s) (λ _. some card) (codes "BEGIN:VCARD") (some tel_at_home)
queries_agree_example =
    queries_agree (λ s. s) (λ _. some card) (codes "BEGIN:VCARD") tel_at_home any_of card-HasTexts

card_test :
    addressbook_matches_query (λ s. s) (λ _. some card) (codes "BEGIN:VCARD") (some tel_at_home)
    ≡ true
unfolding addressbook_matches_query vcard_matches_prop_filter vcard_entry_matches_prop_filter
    vcard_entry_matches_param_filter matches_any matches is_case_insensitive match_by
card_test = refl

extract_test :
    extract_vcard_property_value (codes "item1.fn;CHARSET=UTF-8:A: b") (codes "FN")
    ≡ some (codes "A: b")
unfolding extract_vcard_property_value name_of
extract_test = refl

child_test : is_immediate_child_of (codes "/addressbooks/a/") (codes "/addressbooks/") ≡ true
unfolding is_immediate_child_of
child_test = refl
