-- ===== src/DavHeaders/IfHeader.antt =====
-- src/davheaders.rs: the parser of the header `If` (RFC 4918, 10.4): tokens, and a state machine over
-- them. `utf8` is whether bytes are UTF-8, and `parse_url` is `Url::parse` of the crate `url`.
pub mod Total
pub mod WellFormed
use dav_server_rs.Common.{
  ℕ, zero, suc, ◌+◌, Bool, true, false, not, ◌&&◌, ◌||◌, Option, none, some, List, [], ◌∷◌, ◌++◌,
  Result, ok, err, ◌>>=◌, ok_or, codes, Bytes, ◌==◌, nat_eq, list_eq, if◌then◌else◌, is_empty, any,
  ltb, length, drop, starts_with,
}
use dav_server_rs.DavHeaders.ETag.{ETag, from_str, quote}
use dav_server_rs.DavHeaders.Server.{ServerUrl}
use dav_server_rs.DavHeaders.Values.{HeaderError, invalid, one}

pub data IfItem : Type 0 where
  state_token : Bytes → IfItem
  etag : ETag → IfItem

-- The source's field `not`.
pub record IfCondition : Type 0 where
  pub negated : Bool
  pub item : IfItem

pub record IfList : Type 0 where
  pub resource_tag : Option ServerUrl
  pub conditions : List IfCondition

-- `IfList::new`
abbrev pub new_list : IfList
new_list = record { resource_tag = none; conditions = [] }

unfoldable pub add : IfList → Bool → IfItem → IfList
add l negated item = record l {
  conditions = l.conditions ++ record { negated = negated; item = item } ∷ [];
}

pub data IfToken : Type 0 where
  list_open list_close not_word : IfToken
  word pointy : Bytes → IfToken
  tag : ETag → IfToken
  end_of_input : IfToken

pub data IfState : Type 0 where
  start rtag in_list after_not bad : IfState

abbrev pub is_whitespace : ℕ → Bool
is_whitespace c = c == 32 || c == 9 || c == 13 || c == 10

abbrev pub is_special : ℕ → Bool
is_special c = any (λ x. x == c) (codes "<>()[]")

unfoldable pub trim_left : Bytes → Bytes
trim_left [] = []
trim_left (c ∷ out) = if is_whitespace c then trim_left out else c ∷ out

abbrev pub before : ℕ → Result (Bytes × Bytes) HeaderError → Result (Bytes × Bytes) HeaderError
before x (ok (s, rest)) = ok (x ∷ s, rest)
before x (err e) = err e

-- The loop of `scan_until`, behind the opening byte.
unfoldable pub scan_quoted : ℕ → Bool → Bytes → Result (Bytes × Bytes) HeaderError
scan_quoted c in_quote [] = err invalid
scan_quoted c in_quote (x ∷ buf) =
    let more = scan_quoted c (if x == quote then not in_quote else in_quote) buf in
    if in_quote || not (x == c)
    then (if is_whitespace x then err invalid else before x more)
    else ok ([], buf)

unfoldable pub scan_until : Bytes → ℕ → Result (Bytes × Bytes) HeaderError
unfolding scan_quoted
scan_until buf c = scan_quoted c false (drop 1 buf)

-- The loop of `scan_word`; `first` is whether the index is 0.
unfoldable pub scan_word_from : Bool → Bytes → Result (Bytes × Bytes) HeaderError
scan_word_from first [] = ok ([], [])
scan_word_from first (c ∷ buf) =
    let more = scan_word_from false buf in
    if is_whitespace c || is_special c || ltb c 32
    then (if first then err invalid else ok ([], c ∷ buf))
    else before c more

unfoldable pub scan_word : Bytes → Result (Bytes × Bytes) HeaderError
unfolding scan_word_from
scan_word buf = scan_word_from true buf

module _ (utf8 : Bytes → Bool) where
  -- `String::from_utf8(tok.to_vec()).map_err(map_invalid)`
  abbrev pub from_utf8 : Bytes → Result Bytes HeaderError
  from_utf8 s = if utf8 s then ok s else err invalid

  -- The tokens in brackets, and a word.
  unfoldable pub get_pointy : Bytes → Result (IfToken × Bytes) HeaderError
  get_pointy buf = scan_until buf b'>' >>= λ t. from_utf8 t.0 >>= λ url. ok (pointy url, t.1)

  unfoldable pub get_tag : Bytes → Result (IfToken × Bytes) HeaderError
  get_tag buf =
      scan_until buf b']' >>= λ t. from_utf8 t.0 >>= λ text. from_str text >>= λ e. ok (tag e, t.1)

  unfoldable pub get_word : Bytes → Result (IfToken × Bytes) HeaderError
  get_word buf = scan_word buf >>= λ t.
      if t.0 == codes "Not"
      then ok (not_word, t.1)
      else (from_utf8 t.0 >>= λ text. ok (word text, t.1))

  unfoldable pub tokenize : Bytes → Result (IfToken × Bytes) HeaderError
  tokenize [] = ok (end_of_input, [])
  tokenize (c ∷ s) =
      if c == b'('
      then ok (list_open, s)
      else if c == b')'
      then ok (list_close, s)
      else if c == b'N' && starts_with (c ∷ s) (codes "Not")
      then ok (not_word, drop 3 (c ∷ s))
      else if c == b'<'
      then get_pointy (c ∷ s)
      else if c == b'['
      then get_tag (c ∷ s)
      else get_word (c ∷ s)

  unfoldable pub get_token : Bytes → Result (IfToken × Bytes) HeaderError
  unfolding tokenize get_pointy get_tag get_word scan_until scan_word
  get_token buf = tokenize (trim_left buf)

-- The variables of the loop.
pub record Parser : Type 0 where
  pub if_lists : List IfList
  pub cur_list : IfList
  pub state : IfState

pub data Next : Type 0 where
  go : Parser → Next
  stop : List IfList → Next

abbrev pub goto : Parser → IfState → Result Next HeaderError
goto p state = ok (go (record p { state = state }))

-- A token that names a state must hold a colon.
abbrev pub has_colon : Bytes → Bool
has_colon s = any (λ c. c == b':') s

abbrev pub add_token : Parser → Bool → Bytes → Result Next HeaderError
add_token p negated stok =
    if not (has_colon stok)
    then goto p bad
    else goto (record p { cur_list = add p.cur_list negated (state_token stok) }) in_list

unfoldable pub step_list : Parser → Bool → IfToken → Result Next HeaderError
step_list p negated not_word = if negated then goto p bad else goto p after_not
step_list p negated (pointy stok) = add_token p negated stok
step_list p negated (word stok) = add_token p negated stok
step_list p negated (tag e) = goto (record p { cur_list = add p.cur_list negated (etag e) }) in_list
step_list p negated list_close =
    if is_empty p.cur_list.conditions
    then goto p bad
    else goto (record p { if_lists = p.if_lists ++ p.cur_list ∷ []; cur_list = new_list }) start
step_list p negated _ = goto p bad

module _ (parse_url : Bytes → Option ServerUrl) where
  unfoldable pub step_start : Parser → IfToken → Result Next HeaderError
  step_start p list_open = goto p in_list
  step_start p (pointy url) = ok_or (parse_url url) invalid >>= λ u.
      goto
        (record p {
          cur_list = record { resource_tag = some u; conditions = p.cur_list.conditions };
        })
        rtag
  step_start p end_of_input = if not (is_empty p.if_lists) then ok (stop p.if_lists) else goto p bad
  step_start p _ = goto p bad

  unfoldable pub step_rtag : Parser → IfToken → Result Next HeaderError
  step_rtag p list_open = goto p in_list
  step_rtag p _ = goto p bad

  unfoldable pub step_in : IfState → Parser → IfToken → Result Next HeaderError
  unfolding step_start step_rtag
  step_in start p tok = step_start p tok
  step_in rtag p tok = step_rtag p tok
  step_in in_list p tok = step_list p false tok
  step_in after_not p tok = step_list p true tok
  step_in bad p tok = err invalid

  module _ (utf8 : Bytes → Bool) where
    -- `none` is a loop that goes on when the fuel is used up.
    unfoldable pub decode_loop : ℕ → Parser → Bytes → Option (Result (List IfList) HeaderError)
    decode_loop zero p input = none
    decode_loop (suc fuel) p input = elim (get_token utf8 input) [
      | err e ↦ some (err e)
      | ok (tok, rest) ↦ elim (step_in p.state p tok) [
        | err e ↦ some (err e)
        | ok next ↦ elim next [ stop lists ↦ some (ok lists) | go p' ↦ decode_loop fuel p' rest ]
      ]
    ]

    abbrev pub new_parser : Parser
    new_parser = record { if_lists = []; cur_list = new_list; state = start }

    -- Each round but the last two shortens the input.
    unfoldable pub decode_if : List Bytes → Option (Result (List IfList) HeaderError)
    decode_if values = elim (one values) [
      | err e ↦ some (err e)
      | ok input ↦ decode_loop (length input + 3) new_parser input
    ]
