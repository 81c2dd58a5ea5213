-- ===== src/Core/Dispatch/Override.antt =====
-- core/dispatch.go: applyHTTPOverride and applyURIOverride. net/url's Parse and String are parameters;
-- Hostname and Port are written out.
use cloud_tasks_emulator.Base.{
  Bool, true, not, ◌&&◌, ◌||◌, Option, none, some, [], ◌∷◌, ◌++◌, leb, ◌==◌, if◌then◌else◌, or_else,
}
use cloud_tasks_emulator.Base.Bytes.{Bytes, bytes_eq, is_empty}
use cloud_tasks_emulator.Base.Dict.{Dict, lookup, insert}
use cloud_tasks_emulator.Std.Strings.{split_last, cut_suffix}
use cloud_tasks_emulator.Core.Types.{Auth, HttpOverride}

-- The parts of a url.URL that the code reads or sets; `rest` stands for the others.
pub record Url (Rest : Type 0) : Type 0 where
  pub scheme : Bytes
  pub host : Bytes
  pub path : Bytes
  pub raw_query : Bytes
  pub rest : Rest

pub record UrlLibrary (Rest : Type 0) : Type 0 where
  pub parse : Bytes → Option (Url Rest)
  pub print : Url Rest → Bytes

unfoldable pub all_digits : Bytes → Bool
all_digits [] = true
all_digits (c ∷ s) = leb b'0' c && leb c b'9' && all_digits s

-- A host in brackets without them.
unfoldable pub strip_brackets : Bytes → Bytes
strip_brackets [] = []
strip_brackets (c ∷ s) = if c == b'[' then or_else (cut_suffix b']' s) (c ∷ s) else c ∷ s

-- Hostname and Port: a colon with digits behind it starts a port.
unfoldable pub split_host_port : Bytes → Bytes × Bytes
unfolding all_digits strip_brackets
split_host_port s = elim (split_last b':' s) [
  | none ↦ (strip_brackets s, [])
  | some (before, behind) ↦
      if all_digits behind then (strip_brackets before, behind) else (strip_brackets s, [])
]

-- The override, where there is one and either it is enforced or the URL has nothing there.
unfoldable pub overridden : Bool → Bytes → Bytes → Bytes
overridden enforce cur ov = if is_empty ov then cur else if enforce || is_empty cur then ov else cur

unfoldable pub join_host_port : Bytes → Bytes → Bytes
join_host_port host port = if is_empty port then host else host ++ (b':' ∷ port)

module _ {Rest : Type 0} where
  unfoldable pub override_url : HttpOverride → Url Rest → Url Rest
  unfolding overridden join_host_port split_host_port
  override_url ov u = record u {
    scheme = overridden ov.always_enforce u.scheme ov.scheme;
    host =
        let (host, port) = split_host_port u.host in
        join_host_port (overridden ov.always_enforce host ov.host)
          (overridden ov.always_enforce port ov.port);
    path =
        if not (is_empty ov.path)
          && (ov.always_enforce || is_empty u.path || bytes_eq u.path (b'/' ∷ []))
        then ov.path
        else u.path;
    raw_query = overridden ov.always_enforce u.raw_query ov.query;
  }

  -- A URL that does not parse is left as it is.
  unfoldable pub apply_uri_override : UrlLibrary Rest → Bytes → HttpOverride → Bytes
  unfolding override_url
  apply_uri_override lib raw ov = elim (lib.parse raw) [
    | none ↦ raw
    | some u ↦ lib.print (override_url ov u)
  ]

-- The override's headers, one after the other: one that is not enforced gives way to a header that is
-- there and not empty.
unfoldable pub merge_headers : Bool → Dict Bytes → Dict Bytes → Dict Bytes
merge_headers enforce [] headers = headers
merge_headers enforce ((k, v) ∷ ovs) headers =
    merge_headers enforce ovs
      (if enforce || is_empty (or_else (lookup k headers) []) then insert k v headers else headers)

unfoldable pub merge_auth : Bool → Option Auth → Option Auth → Option Auth
merge_auth enforce none auth = auth
merge_auth enforce (some a) none = some a
merge_auth enforce (some a) (some b) = if enforce then some a else some b

-- What a task of an HTTP target is sent with.
pub record Effective : Type 0 where
  pub method : Bytes
  pub url : Bytes
  pub headers : Dict Bytes
  pub auth : Option Auth

unfoldable pub apply_http_override :
    {Rest : Type 0} → UrlLibrary Rest → Effective → Option HttpOverride → Effective
unfolding merge_headers merge_auth apply_uri_override
apply_http_override lib own none = own
apply_http_override lib own (some ov) = record {
  method = if not (is_empty ov.method) && ov.always_enforce then ov.method else own.method;
  url = apply_uri_override lib own.url ov;
  headers = merge_headers ov.always_enforce ov.headers own.headers;
  auth = merge_auth ov.always_enforce ov.auth own.auth;
}
