-- ===== src/DavFilters.antt =====
-- src/dav_filters.rs: the filters on texts and on parameters that calendars and address books share.
-- The crate xmltree's `Element` is a type with what the code reads of it.
use dav_server_rs.Common.{
  ◌-◌, Bool, true, false, not, ◌||◌, ◌&&◌, Option, none, some, List, [], ◌∷◌, ◌++◌, Result, ok, err,
  Bytes, codes, if◌then◌else◌, ◌==◌, nat_eq, list_eq, option_eq, any, length, drop, leb, is_empty,
  starts_with,
}
use dav_server_rs.DavHeaders.Server.{eq_ignore_ascii_case}
use dav_server_rs.Errors.{DavError, status_close}

pub record TextMatch : Type 0 where
  pub text : Bytes
  pub collation : Option Bytes
  pub negate_condition : Bool
  pub match_type : Option Bytes

pub record ParameterFilter : Type 0 where
  pub name : Bytes
  pub is_not_defined : Bool
  pub text_match : Option TextMatch

-- `str::ends_with`
abbrev pub ends_with : Bytes → Bytes → Bool
ends_with xs ys = leb (length ys) (length xs) && (drop (length xs - length ys) xs == ys)

-- `str::contains`
abbrev pub contains : Bytes → Bytes → Bool
contains [] ys = is_empty ys
contains (x ∷ xs) ys = starts_with (x ∷ xs) ys || contains xs ys

unfoldable pub is_case_insensitive : Option Bytes → Bool
is_case_insensitive none = true
is_case_insensitive (some c) =
    eq_ignore_ascii_case c (codes "i;ascii-casemap")
    || eq_ignore_ascii_case c (codes "i;unicode-casemap")

unfoldable pub match_by : Option Bytes → Bytes → Bytes → Bool
match_by match_type haystack needle =
    if match_type == some (codes "equals")
    then haystack == needle
    else if match_type == some (codes "starts-with")
    then starts_with haystack needle
    else if match_type == some (codes "ends-with")
    then ends_with haystack needle
    else contains haystack needle

-- `str::to_lowercase`, of all of Unicode, is a parameter.
module _ (to_lowercase : Bytes → Bytes) where
  unfoldable pub matches : TextMatch → Bytes → Bool
  matches tm value =
      if is_case_insensitive tm.collation
      then match_by tm.match_type (to_lowercase value) (to_lowercase tm.text)
      else match_by tm.match_type value tm.text

  unfoldable pub matches_any : TextMatch → List Bytes → Bool
  matches_any tm values =
      let found = any (matches tm) values in if tm.negate_condition then not found else found

pub data XmlNode (Element : Type 0) : Type 0 where
  element : Element → XmlNode Element
  text : Bytes → XmlNode Element
  other : XmlNode Element

pub record Xml (Element : Type 0) : Type 0 where
  pub name : Element → Bytes
  pub namespace : Element → Option Bytes
  pub attribute : Element → Bytes → Option Bytes
  pub children : Element → List (XmlNode Element)

-- `find_map(..).unwrap_or_default()`
abbrev pub first_text : List Bytes → Bytes
first_text [] = []
first_text (s ∷ _) = s

module _ {Element : Type 0} where
  -- `child_elems_iter` of xmltree_ext.rs
  unfoldable pub child_elems : List (XmlNode Element) → List Element
  child_elems [] = []
  child_elems (element e ∷ nodes) = e ∷ child_elems nodes
  child_elems (text _ ∷ nodes) = child_elems nodes
  child_elems (other ∷ nodes) = child_elems nodes

  unfoldable pub texts : List (XmlNode Element) → List Bytes
  texts [] = []
  texts (element _ ∷ nodes) = texts nodes
  texts (text s ∷ nodes) = s ∷ texts nodes
  texts (other ∷ nodes) = texts nodes

  module _ (xml : Xml Element) where
    -- `TextMatch::from_element`
    unfoldable pub text_match_from : Element → TextMatch
    text_match_from elem = record {
      text = first_text (texts (xml.children elem));
      collation = xml.attribute elem (codes "collation");
      negate_condition = xml.attribute elem (codes "negate-condition") == some (codes "yes");
      match_type = xml.attribute elem (codes "match-type");
    }

    unfoldable pub read_children : ParameterFilter → List Element → ParameterFilter
    read_children filter [] = filter
    read_children filter (child ∷ rest) =
        let name = xml.name child in
        read_children
          (if name == codes "is-not-defined"
            then record filter { is_not_defined = true }
            else if name == codes "text-match"
            then record filter { text_match = some (text_match_from child) }
            else filter)
          rest

    -- `ParameterFilter::from_element`
    unfoldable pub parameter_filter_from : Element → Result ParameterFilter DavError
    parameter_filter_from elem = elim (xml.attribute elem (codes "name")) [
      | none ↦ err (status_close 400)
      | some name ↦ ok (
          read_children (record { name = name; is_not_defined = false; text_match = none })
            (child_elems (xml.children elem)))
    ]

    unfoldable pub hrefs_of : List Element → List Bytes
    hrefs_of [] = []
    hrefs_of (child ∷ rest) =
        let hrefs = hrefs_of rest in
        if xml.name child == codes "href" then texts (xml.children child) ++ hrefs else hrefs

    unfoldable pub hrefs_from : Element → List Bytes
    hrefs_from root = hrefs_of (child_elems (xml.children root))
