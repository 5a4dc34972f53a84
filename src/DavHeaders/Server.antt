-- ===== src/DavHeaders/Server.antt =====
-- src/davheaders.rs: whether a URL names a resource on the server of the request. `ServerUrl` is what
-- the code reads of a `url::Url`, and `Origin` what it reads of the URI of the request.
use dav_server_rs.Common.{
  ℕ, ◌+◌, Bool, true, false, not, ◌&&◌, Option, none, some, map, codes, Bytes, ◌==◌, nat_eq,
  list_eq, if◌then◌else◌, leb, is_some, List, Result, ok, err, ◌>>=◌, starts_with,
}
use dav_server_rs.DavHeaders.Values.{ToStr, HeaderError, invalid, one_str}

pub record ServerUrl : Type 0 where
  pub scheme : Bytes
  pub host_str : Option Bytes
  pub port : Option ℕ
  pub path : Bytes

pub record Origin : Type 0 where
  pub scheme_str : Option Bytes
  pub host : Option Bytes
  pub port_u16 : Option ℕ

-- The hostname and the port of the header `Host`.
pub record Host : Type 0 where
  pub hostname : Bytes
  pub port : Option ℕ

abbrev pub to_ascii_lowercase : ℕ → ℕ
to_ascii_lowercase c = if leb b'A' c && leb c b'Z' then c + 32 else c

abbrev pub eq_ignore_ascii_case : Bytes → Bytes → Bool
eq_ignore_ascii_case a b = map to_ascii_lowercase a == map to_ascii_lowercase b

unfoldable pub effective_port : Option Bytes → Option ℕ → Option ℕ
effective_port scheme (some port) = some port
effective_port none none = none
effective_port (some s) none =
    if eq_ignore_ascii_case s (codes "http")
    then some 80
    else if eq_ignore_ascii_case s (codes "https")
    then some 443
    else none

abbrev same_host : Option Bytes → Option Bytes → Bool
same_host (some a) (some b) = eq_ignore_ascii_case a b
same_host none none = true
same_host _ _ = false

abbrev same_scheme : Option Bytes → Bytes → Bool
same_scheme none scheme = true
same_scheme (some s) scheme = eq_ignore_ascii_case s scheme

abbrev same_port : Option ℕ → Option ℕ → Bool
same_port (some a) (some b) = a == b
same_port _ _ = true

unfoldable pub same_server : Option Bytes → Option Bytes → Option ℕ → ServerUrl → Bool
same_server req_scheme req_host req_port url =
    if not (same_host req_host url.host_str)
    then false
    else if not (same_scheme req_scheme url.scheme)
    then false
    else same_port (effective_port req_scheme req_port) (effective_port (some url.scheme) url.port)

unfoldable pub url_is_same_server : Origin → ServerUrl → Bool
url_is_same_server request url = same_server request.scheme_str request.host request.port_u16 url

unfoldable pub request_is_same_server : Origin → Option Host → ServerUrl → Bool
unfolding url_is_same_server
request_is_same_server request header url =
    if is_some request.host then url_is_same_server request url else elim header [
      | some h ↦ same_server request.scheme_str (some h.hostname) h.port url
      | none ↦ url_is_same_server request url
    ]

-- What the header Destination names.
pub record Destination : Type 0 where
  pub path : Bytes
  pub abs_url : Option ServerUrl

-- `parse_url` is `s.parse::<Url>()` of the crate `url`.
unfoldable pub decode_destination :
    ToStr → (Bytes → Option ServerUrl) → List Bytes → Result Destination HeaderError
decode_destination to_str parse_url values = one_str to_str values >>= λ s.
    if starts_with s (codes "/")
    then ok (record { path = s; abs_url = none })
    else elim (parse_url s) [
      | some url ↦ ok (record { path = url.path; abs_url = some url })
      | none ↦ err invalid
    ]

-- An absolute path is local.
unfoldable pub is_same_server : Origin → Option Host → Destination → Bool
unfolding request_is_same_server
is_same_server request header dest = elim dest.abs_url [
  | none ↦ true
  | some url ↦ request_is_same_server request header url
]
