-- ===== src/Emulator/V2Beta3/Targets.antt =====
-- emulator/v2beta3.go: the HTTP target of a queue, which overrides what its tasks say. A field that may
-- be missing is an option; `scheme` is 1 for HTTP and 2 for HTTPS, and the enforce mode 2 for ALWAYS.
use cloud_tasks_emulator.Base.{
  ℕ, Bool, false, ◌||◌, Option, none, some, List, [], ◌∷◌, ◌==◌, if◌then◌else◌, or_else, is_some,
}
use cloud_tasks_emulator.Base.Int.{ℤ}
use cloud_tasks_emulator.Base.Bytes.{Bytes, codes, bytes_eq, is_empty}
use cloud_tasks_emulator.Base.Dict.{Dict, insert}
use cloud_tasks_emulator.Std.Decimal.{itoa, atoi}
use cloud_tasks_emulator.Core.Types.{Auth, auth_none, auth_oidc, auth_oauth, HttpOverride}
use cloud_tasks_emulator.Emulator.Conv.{http_method_name, http_method_enum}
use cloud_tasks_emulator.Emulator.V2.{AuthorizationHeader, no_token, oidc_token, oauth_token}

-- `port` is an int64.
pub record UriOverride : Type 0 where
  pub scheme : Option ℕ
  pub host : Option Bytes
  pub port : Option ℤ
  pub path_override : Option Bytes
  pub query_override : Option Bytes
  pub uri_override_enforce_mode : ℕ

-- A header override may lack its header, which then reads as an empty key and value.
pub record HttpTarget : Type 0 where
  pub uri_override : Option UriOverride
  pub http_method : ℕ
  pub header_overrides : List (Option (Bytes × Bytes))
  pub authorization_header : AuthorizationHeader

abbrev pub v2beta3_auth_from_http_target : HttpTarget → Option Auth
v2beta3_auth_from_http_target h = elim h.authorization_header [
  | oidc_token email audience ↦
      some (record {
        kind = auth_oidc;
        service_account_email = email;
        audience = audience;
        scope = [];
      })
  | oauth_token email scope ↦
      some
        (record { kind = auth_oauth; service_account_email = email; audience = []; scope = scope })
  | no_token ↦ none
]

abbrev pub scheme_name : Option ℕ → Bytes
scheme_name none = []
scheme_name (some n) = if n == 1 then codes "http" else if n == 2 then codes "https" else []

abbrev pub port_name : Option ℤ → Bytes
port_name none = []
port_name (some p) = itoa p

-- `o.Headers[key] = value`, one override after the other.
unfoldable pub put_headers : List (Option (Bytes × Bytes)) → Dict Bytes → Dict Bytes
put_headers [] m = m
put_headers (none ∷ hs) m = put_headers hs (insert [] [] m)
put_headers (some (key, value) ∷ hs) m = put_headers hs (insert key value m)

-- The fields that the URI override sets, on an override that has none.
abbrev pub with_uri : Option UriOverride → HttpOverride → HttpOverride
with_uri none o = o
with_uri (some uo) o = record o {
  scheme = scheme_name uo.scheme;
  host = or_else uo.host [];
  port = port_name uo.port;
  path = or_else uo.path_override [];
  query = or_else uo.query_override [];
  always_enforce = uo.uri_override_enforce_mode == 2;
}

unfoldable pub v2beta3_http_override_to_core : HttpTarget → HttpOverride
unfolding put_headers http_method_name
v2beta3_http_override_to_core h = with_uri h.uri_override (record {
  scheme = [];
  host = [];
  port = [];
  path = [];
  query = [];
  always_enforce = false;
  method = if h.http_method == 0 then [] else http_method_name h.http_method;
  headers = put_headers h.header_overrides [];
  auth = v2beta3_auth_from_http_target h;
})

abbrev pub scheme_number : Bytes → Option ℕ
scheme_number s =
    if bytes_eq s (codes "http")
    then some 1
    else if bytes_eq s (codes "https")
    then some 2
    else none

-- A text that is there where it is not empty.
abbrev pub non_empty : Bytes → Option Bytes
non_empty s = if is_empty s then none else some s

-- A port that is not a number is left out.
abbrev pub port_number : Bytes → Option ℤ
port_number s = if is_empty s then none else atoi s

abbrev pub uri_of : HttpOverride → UriOverride
uri_of o = record {
  scheme = scheme_number o.scheme;
  host = non_empty o.host;
  port = port_number o.port;
  path_override = non_empty o.path;
  query_override = non_empty o.query;
  uri_override_enforce_mode = if o.always_enforce then 2 else 0;
}

-- Whether a field of the URI is set.
abbrev pub has_uri : UriOverride → Bool
has_uri uo =
    is_some uo.scheme
    || is_some uo.host
    || is_some uo.port
    || is_some uo.path_override
    || is_some uo.query_override

-- The order in which Go goes over a map is random: each call has an order of its own, an argument, which
-- gives the entries of a map in the order in which they come up.
abbrev pub Order : Type 0
Order = Dict Bytes → Dict Bytes

-- `for k, v := range o.Headers`, over the entries as they come up.
unfoldable pub header_list : Dict Bytes → List (Option (Bytes × Bytes))
header_list [] = []
header_list ((key, value) ∷ m) = some (key, value) ∷ header_list m

abbrev pub token_of : Option Auth → AuthorizationHeader
token_of none = no_token
token_of (some a) = elim a.kind [
  | auth_oidc ↦ oidc_token a.service_account_email a.audience
  | auth_oauth ↦ oauth_token a.service_account_email a.scope
  | auth_none ↦ no_token
]

unfoldable pub v2beta3_http_override_from_core : Order → HttpOverride → HttpTarget
unfolding header_list http_method_enum
v2beta3_http_override_from_core order o = record {
  uri_override = if has_uri (uri_of o) || o.always_enforce then some (uri_of o) else none;
  http_method = if is_empty o.method then 0 else http_method_enum o.method;
  header_overrides = header_list (order o.headers);
  authorization_header = token_of o.auth;
}
