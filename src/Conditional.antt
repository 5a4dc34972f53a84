-- ===== src/Conditional.antt =====
-- src/conditional.rs: the preconditions of a request. The typed headers are what `typed_get` returns:
-- `none` where a header is absent or cannot be parsed. `Meta` is what the code reads of a
-- `DavMetaData`. The lock system and the filesystem answer one request from one state: `discover`
-- and `metadata` are functions of the path.
pub mod Lists
pub mod Covers
pub mod Http
use dav_server_rs.Common.{
  ℕ, ◌+◌, ◌-◌, ◌*◌, ◌/◌, Bool, true, false, not, ◌&&◌, ◌||◌, Option, none, some, List, [], ◌∷◌,
  ◌++◌, Result, ok, err, codes, Bytes, ◌==◌, nat_eq, list_eq, option_eq, if◌then◌else◌, is_some,
  any, leb, ltb, length, take, get_elem?, starts_with, ends_with_byte,
}
use dav_server_rs.PercentEncoding.{PercentEncoding}
use dav_server_rs.DavPath.{DavPath, slash, as_bytes, get_prefix, from_str_and_prefix}
use dav_server_rs.DavHeaders.ETag.{ETag, ETagList, star, tags, from_meta, strong_eq, weak_eq}
use dav_server_rs.DavHeaders.Server.{ServerUrl, Origin, Host, request_is_same_server}
use dav_server_rs.DavHeaders.IfHeader.{IfItem, state_token, etag, IfCondition, IfList}
use dav_server_rs.Ls.{DavLock}

-- A `SystemTime`: nanoseconds after the epoch, or before it, less one.
pub data SystemTime : Type 0 where
  after_epoch before_epoch : ℕ → SystemTime

abbrev pub le_time : SystemTime → SystemTime → Bool
le_time (after_epoch a) (after_epoch b) = leb a b
le_time (after_epoch a) (before_epoch b) = false
le_time (before_epoch a) (after_epoch b) = true
le_time (before_epoch a) (before_epoch b) = leb b a

abbrev pub eq_time : SystemTime → SystemTime → Bool
eq_time a b = le_time a b && le_time b a

abbrev pub nanos : ℕ
nanos = 1000000000

unfoldable pub round_time : SystemTime → SystemTime
round_time (after_epoch d) = after_epoch (d / nanos * nanos)
round_time (before_epoch d) = before_epoch d

pub record Meta : Type 0 where
  pub etag : Option Bytes
  pub modified : Option SystemTime

pub data IfRange : Type 0 where
  range_tag : ETag → IfRange
  range_date : SystemTime → IfRange

unfoldable pub ifrange_match : IfRange → Option ETag → Option SystemTime → Bool
ifrange_match (range_date d) tag none = false
ifrange_match (range_date d) tag (some date) = eq_time (round_time date) (round_time d)
ifrange_match (range_tag t) none date = false
ifrange_match (range_tag t) (some tag) date = strong_eq t tag

unfoldable pub etaglist_match : ETagList → Bool → Option ETag → (ETag → ETag → Bool) → Bool
etaglist_match star exists tag cmp = exists
etaglist_match (tags t) exists none cmp = false
etaglist_match (tags t) exists (some tag) cmp = any (λ x. cmp x tag) t

-- The headers that the checks read. `reads` is whether the method is GET or HEAD.
pub record Request : Type 0 where
  pub reads : Bool
  pub if_match : Option ETagList
  pub if_unmodified_since : Option SystemTime
  pub if_none_match : Option ETagList
  pub if_modified_since : Option SystemTime
  pub if_header : Option (List IfList)
  pub origin : Origin
  pub host : Option Host

abbrev pub precondition_failed : ℕ
precondition_failed = 412

abbrev pub not_modified : ℕ
not_modified = 304

abbrev pub meta_etag : Option Meta → Option ETag
meta_etag none = none
meta_etag (some m) = from_meta m.etag

abbrev pub file_modified : Option Meta → Option SystemTime
file_modified none = none
file_modified (some m) = m.modified

-- `If-Match`, or else `If-Unmodified-Since`: whether it fails.
unfoldable pub match_fails : Request → Option Meta → Bool
match_fails req meta = elim req.if_match [
  | some r ↦ not (etaglist_match r (is_some meta) (meta_etag meta) strong_eq)
  | none ↦ elim req.if_unmodified_since [
    | none ↦ false
    | some r ↦ elim (file_modified meta) [
      | none ↦ true
      | some modified ↦ not (le_time (round_time modified) (round_time r))
    ]
  ]
]

-- `If-None-Match`, or else `If-Modified-Since`.
unfoldable pub none_match : Request → Option Meta → Option ℕ
none_match req meta = elim req.if_none_match [
  | some r ↦
      (if etaglist_match r (is_some meta) (meta_etag meta) weak_eq
        then (if req.reads then some not_modified else some precondition_failed)
        else none)
  | none ↦ elim req.if_modified_since [
    | none ↦ none
    | some r ↦ elim (file_modified meta) [
      | none ↦ none
      | some modified ↦
          (if req.reads && le_time (round_time modified) (round_time r)
            then some not_modified
            else none)
    ]
  ]
]

unfoldable pub http_if_match : Request → Option Meta → Option ℕ
http_if_match req meta =
    if match_fails req meta then some precondition_failed else none_match req meta

unfoldable pub davpath_key : DavPath → Bytes
davpath_key path =
    let b = as_bytes path in
    if ltb 1 (length b) && ends_with_byte b b'/' then take (length b - 1) b else b

module _ {Element : Type 0} where
  unfoldable pub lock_covers_path : DavLock Element → DavPath → Bool
  lock_covers_path lock path =
      let lock_key = davpath_key lock.path in
      let path_key = davpath_key path in
      if lock_key == path_key
      then true
      else if not lock.deep
      then false
      else if lock_key == slash
      then true
      else starts_with path_key lock_key && get_elem? path_key (length lock_key) == some b'/'

-- What the checks ask of the server.
pub record Backend (Element : Type 0) : Type 0 where
  pub pct : PercentEncoding
  -- The lock system, if there is one.
  pub discover : Option (DavPath → List (DavLock Element))
  -- `fs.metadata(p).ok()`
  pub metadata : DavPath → Option Meta

-- `==` of two `bool`s.
abbrev pub same : Bool → Bool → Bool
same true b = b
same false b = not b

module _ {Element : Type 0} (server : Backend Element) (req : Request) (path : DavPath) where
  -- The resource of a list, and whether its tag is a valid location.
  unfoldable pub list_resource : IfList → DavPath × Bool
  list_resource l = elim l.resource_tag [
    | none ↦ (path, true)
    | some url ↦ elim (from_str_and_prefix server.pct url.path (get_prefix path)) [
      | err _ ↦ (path, false)
      | ok p ↦ (if request_is_same_server req.origin req.host url then (p, true) else (path, false))
    ]
  ]

  unfoldable pub cond_ok : DavPath → Bool → IfItem → Bool
  cond_ok p valid (state_token s) =
      if not valid || starts_with s (codes "DAV:") then false else elim server.discover [
        | none ↦ false
        | some discover ↦ any (λ lock. lock.token == s && lock_covers_path lock p) (discover p)
      ]
  cond_ok p valid (etag tag) = if not valid then false else elim (server.metadata p) [
    | none ↦ false
    | some meta ↦ elim (from_meta meta.etag) [ none ↦ false | some mtag ↦ strong_eq tag mtag ]
  ]

  -- The loop over the conditions; `list_ok` is the variable of that name.
  unfoldable pub list_loop : DavPath → Bool → Bool → List IfCondition → Bool
  list_loop p valid list_ok [] = list_ok
  list_loop p valid list_ok (cond ∷ conditions) =
      let rest = list_loop p valid true conditions in
      if same (cond_ok p valid cond.item) cond.negated then false else rest

  -- The state tokens of a list.
  unfoldable pub state_tokens : List IfCondition → List Bytes
  state_tokens [] = []
  state_tokens (cond ∷ conditions) = elim cond.item [
    | state_token t ↦ t ∷ state_tokens conditions
    | etag _ ↦ state_tokens conditions
  ]

  -- The loop over the lists. Once one is true the others are read for their tokens alone.
  unfoldable pub if_loop : Bool → List Bytes → List IfList → Bool × List Bytes
  unfolding list_loop list_resource
  if_loop any_list_ok tokens [] = (any_list_ok, tokens)
  if_loop any_list_ok tokens (l ∷ lists) =
      let tokens' = tokens ++ state_tokens l.conditions in
      let (p, valid) = list_resource l in
      let list_ok = list_loop p valid false l.conditions in
      if_loop (if any_list_ok then any_list_ok else list_ok) tokens' lists

  unfoldable pub dav_if_match : Bool × List Bytes
  dav_if_match = elim req.if_header [ none ↦ (true, []) | some lists ↦ if_loop false [] lists ]

  unfoldable pub if_match : Option Meta → Option ℕ
  if_match meta = if dav_if_match.0 then http_if_match req meta else some precondition_failed

  unfoldable pub if_match_get_tokens : Option Meta → Result (List Bytes) ℕ
  if_match_get_tokens meta = elim (http_if_match req meta) [
    | some code ↦ err code
    | none ↦ (if dav_if_match.0 then ok dav_if_match.1 else err precondition_failed)
  ]
