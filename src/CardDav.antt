-- ===== src/CardDav.antt =====
-- src/carddav.rs: whether a card matches the filter of an addressbook-query. The parser of cards is the
-- crate calcard's: a parameter. Of a card the entries are kept, of an entry its name, the texts of its
-- values that have one (`vcard_value_text`), and its parameters with their texts.
pub mod Queries
pub mod Texts
use dav_server_rs.Common.{
  Bool, true, false, not, Option, none, some, List, [], ◌∷◌, ◌++◌, Bytes, if◌then◌else◌, is_empty,
  any, all, map, retain, concat, ◌&&◌,
}
use dav_server_rs.DavFilters.{TextMatch, ParameterFilter, matches_any}
use dav_server_rs.DavHeaders.Server.{eq_ignore_ascii_case}

pub record VCardEntry : Type 0 where
  pub name : Bytes
  pub values : List Bytes
  pub params : List (Bytes × Bytes)

pub record PropertyFilter : Type 0 where
  pub name : Bytes
  pub is_not_defined : Bool
  pub text_match : Option TextMatch
  pub param_filters : List ParameterFilter

pub data FilterTest : Type 0 where
  any_of all_of : FilterTest

pub record ParsedPropertyFilter : Type 0 where
  pub name : Bytes
  pub is_not_defined : Bool
  pub text_matches : List TextMatch
  pub param_filters : List ParameterFilter
  pub test : FilterTest

-- The query of the public type has one filter at most.
pub record ParsedAddressBookQuery : Type 0 where
  pub filters : List ParsedPropertyFilter
  pub test : FilterTest

unfoldable pub test_matches : FilterTest → List Bool → Bool
test_matches any_of conditions = any (λ matched. matched) conditions
test_matches all_of conditions = all (λ matched. matched) conditions

abbrev pub entries_named : Bytes → List VCardEntry → List VCardEntry
entries_named name entries = retain (λ e. eq_ignore_ascii_case e.name name) entries

abbrev pub all_values : List VCardEntry → List Bytes
all_values entries = concat (map (λ e. e.values) entries)

module _ (to_lowercase : Bytes → Bytes) where
  abbrev pub text_matches_any : Option TextMatch → List Bytes → Bool
  text_matches_any none values = true
  text_matches_any (some tm) values = matches_any to_lowercase tm values

  unfoldable pub vcard_entry_matches_param_filter : VCardEntry → ParameterFilter → Bool
  vcard_entry_matches_param_filter entry paf =
      let values = map (λ p. p.1) (retain (λ p. eq_ignore_ascii_case p.0 paf.name) entry.params) in
      if paf.is_not_defined
      then is_empty values
      else if is_empty values
      then false
      else text_matches_any paf.text_match values

  unfoldable pub vcard_entry_matches_prop_filter : VCardEntry → PropertyFilter → Bool
  vcard_entry_matches_prop_filter entry pf =
      if not (all (vcard_entry_matches_param_filter entry) pf.param_filters)
      then false
      else text_matches_any pf.text_match entry.values

  unfoldable pub vcard_matches_prop_filter : List VCardEntry → PropertyFilter → Bool
  vcard_matches_prop_filter vcard pf =
      let entries = entries_named pf.name vcard in
      if pf.is_not_defined
      then is_empty entries
      else if is_empty entries
      then false
      else if is_empty pf.param_filters
      then (if is_empty (all_values entries)
          then false
          else text_matches_any pf.text_match (all_values entries))
      else any (λ entry. vcard_entry_matches_prop_filter entry pf) entries

  unfoldable pub vcard_matches_parsed_filter : List VCardEntry → ParsedPropertyFilter → Bool
  vcard_matches_parsed_filter vcard pf =
      let entries = entries_named pf.name vcard in
      if pf.is_not_defined
      then is_empty entries
      else if is_empty entries
      then false
      else if is_empty pf.text_matches && is_empty pf.param_filters
      then true
      else if is_empty pf.param_filters
      then test_matches pf.test
          (map (λ tm. matches_any to_lowercase tm (all_values entries)) pf.text_matches)
      else any
          (λ entry. test_matches pf.test (
            map (λ tm. matches_any to_lowercase tm entry.values) pf.text_matches
            ++ map (vcard_entry_matches_param_filter entry) pf.param_filters))
          entries

  module _ (validate_vcard_data : Bytes → Option (List VCardEntry)) where
    unfoldable pub addressbook_matches_parsed_query : Bytes → ParsedAddressBookQuery → Bool
    addressbook_matches_parsed_query content query =
        if is_empty query.filters then true else elim (validate_vcard_data content) [
          | none ↦ false
          | some vcard ↦
              test_matches query.test (map (vcard_matches_parsed_filter vcard) query.filters)
        ]

    unfoldable pub addressbook_matches_query : Bytes → Option PropertyFilter → Bool
    addressbook_matches_query content none = true
    addressbook_matches_query content (some pf) = elim (validate_vcard_data content) [
      | none ↦ false
      | some vcard ↦ vcard_matches_prop_filter vcard pf
    ]
