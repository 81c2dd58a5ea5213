-- ===== src/Emulator/V2Beta3/Overrides.antt =====
-- The HTTP target of a queue, sent through emulator/v2beta3.go and read back.
use mathlib.Core.List.{Permᴰ}
use cloud_tasks_emulator.Base.{
  ℕ, ◌≡◌, ◌≢◌, ◌≤◌, refl, sym, ap, ◌∙◌, Bool, true, false, ◌||◌, Option, none, some, List, [], ◌∷◌,
  ◌++◌, ◌==◌, if◌then◌else◌, or_else, is_some, subst, append_assoc, append-nil, arith, Bool-cases,
  inl, inr,
}
use cloud_tasks_emulator.Base.Int.{ℤ, pos, negsuc}
use cloud_tasks_emulator.Base.Bytes.{Bytes, bytes_eq, bytes_eq_iff, is_empty}
use cloud_tasks_emulator.Base.Dict.{Dict, lookup, insert, has, Unique}
use cloud_tasks_emulator.Std.Decimal.{in_range, itoa, atoi-itoa, itoa-ne_nil}
use cloud_tasks_emulator.Core.Types.{Auth, HttpOverride}
use cloud_tasks_emulator.Emulator.Conv.{http_method_name, http_method_enum}
use cloud_tasks_emulator.Emulator.V2.{AuthorizationHeader, no_token, oidc_token, oauth_token}
use cloud_tasks_emulator.Emulator.V2Beta3.Targets.{
  Order, UriOverride, HttpTarget, scheme_name, port_name, put_headers, with_uri, uri_of, has_uri,
  scheme_number, non_empty, port_number, header_list, token_of, v2beta3_auth_from_http_target,
  v2beta3_http_override_to_core, v2beta3_http_override_from_core,
}

abbrev pub is_scheme : Option ℕ → Bool
is_scheme none = true
is_scheme (some n) = n == 1 || n == 2

abbrev pub is_port : Option ℤ → Bool
is_port none = true
is_port (some p) = is_some (in_range p)

-- A URI override that sets a field or is enforced always: its scheme is one of the two, its port fits an
-- int64, and a text that it has is not empty.
pub record IsSettled (uo : UriOverride) : Type 0 where
  pub scheme : is_scheme uo.scheme ≡ true
  pub host : uo.host ≢ some []
  pub port : is_port uo.port ≡ true
  pub path : uo.path_override ≢ some []
  pub query : uo.query_override ≢ some []
  pub mode : uo.uri_override_enforce_mode ≡ (if uo.uri_override_enforce_mode == 2 then 2 else 0)
  pub says : (has_uri uo || uo.uri_override_enforce_mode == 2) ≡ true

abbrev pub Settled : Option UriOverride → Type 0
Settled none = Unit
Settled (some uo) = IsSettled uo

scheme_number-scheme_name : (o : Option ℕ) → is_scheme o ≡ true → scheme_number (scheme_name o) ≡ o
unfolding bytes_eq
scheme_number-scheme_name none h = refl
scheme_number-scheme_name (some n) h = ground (arith, h)

non_empty-or_else : (o : Option Bytes) → o ≢ some [] → non_empty (or_else o []) ≡ o
non_empty-or_else none h = refl
non_empty-or_else (some []) h = absurd (h refl)
non_empty-or_else (some (c ∷ s)) h = refl

is_empty-ne_nil : (s : Bytes) → s ≢ [] → is_empty s ≡ false
is_empty-ne_nil [] h = absurd (h refl)
is_empty-ne_nil (c ∷ s) h = refl

in_range-is_some : (p : ℤ) → is_some (in_range p) ≡ true → in_range p ≡ some p
in_range-is_some (pos n) h = ground (arith, h)
in_range-is_some (negsuc n) h = ground (arith, h)

port_number-port_name : (o : Option ℤ) → is_port o ≡ true → port_number (port_name o) ≡ o
port_number-port_name none h = refl
port_number-port_name (some p) h =
    rw (is_empty-ne_nil (itoa p) (itoa-ne_nil p)) (atoi-itoa p (in_range-is_some p h))

-- The fields of a URI override behind any other fields.
uri_of-with_uri :
    (uo : UriOverride) (o : HttpOverride) → IsSettled uo → uri_of (with_uri (some uo) o) ≡ uo
uri_of-with_uri uo o w =
    rw
      (
        scheme_number-scheme_name uo.scheme w.scheme,
        non_empty-or_else uo.host w.host,
        port_number-port_name uo.port w.port,
        non_empty-or_else uo.path_override w.path,
        non_empty-or_else uo.query_override w.query,
      )
      (ap (λ (n : ℕ). record uo { uri_override_enforce_mode = n }) (sym w.mode))

method_of :
    (m : ℕ)
    → m ≤ 7
    → (if is_empty (if m == 0 then [] else http_method_name m)
        then 0
        else http_method_enum (if m == 0 then [] else http_method_name m))
      ≡ m
unfolding http_method_name http_method_enum bytes_eq
method_of m h = ground arith

token_of-v2beta3_auth_from_http_target :
    (h : HttpTarget) (a : AuthorizationHeader)
    → h.authorization_header ≡ a
    → token_of (v2beta3_auth_from_http_target h) ≡ a
token_of-v2beta3_auth_from_http_target h no_token e = rw e refl
token_of-v2beta3_auth_from_http_target h (oidc_token email audience) e = rw e refl
token_of-v2beta3_auth_from_http_target h (oauth_token email scope) e = rw e refl

insert_new :
    (key value : Bytes) (m : Dict Bytes)
    → has key m ≡ false
    → insert key value m ≡ m ++ (key, value) ∷ []
unfolding insert has lookup
insert_new key value [] h = refl
insert_new key value ((j, old) ∷ m) h = elim (Bool-cases (bytes_eq j key)) [
  | inl e ↦ absurd (ground (arith, h))
  | inr e ↦
      rw e (ap (λ (x : Dict Bytes). (j, old) ∷ x) (insert_new key value m (ground (arith, h))))
]

has-append : (key : Bytes) (xs ys : Dict Bytes) → has key (xs ++ ys) ≡ (has key xs || has key ys)
unfolding has lookup
has-append key [] ys = refl
has-append key ((j, v) ∷ xs) ys = ground (arith, has-append key xs ys)

Unique-append :
    (before : Dict Bytes) (key value : Bytes) (m : Dict Bytes)
    → Unique (before ++ (key, value) ∷ m)
    → has key before ≡ false
unfolding Unique has lookup
Unique-append [] key value m u = refl
Unique-append ((j, v) ∷ before) key value m u = ground (
  arith,
  u.0,
  has-append j before ((key, value) ∷ m),
  Unique-append before key value m u.1,
  bytes_eq_iff j key,
  bytes_eq_iff key j,
)

put_headers-header_list :
    (before m : Dict Bytes)
    → Unique (before ++ m)
    → put_headers (header_list m) before ≡ before ++ m
unfolding put_headers header_list
put_headers-header_list before [] u = sym (append-nil before)
put_headers-header_list before ((key, value) ∷ m) u =
    ap (λ (x : Dict Bytes). put_headers (header_list m) x)
      (insert_new key value before (Unique-append before key value m u))
    ∙ put_headers-header_list (before ++ (key, value) ∷ []) m
        (subst Unique (sym (append_assoc before ((key, value) ∷ []) m)) u)
    ∙ append_assoc before ((key, value) ∷ []) m

abbrev plain : Bytes → Dict Bytes → Option Auth → HttpOverride
plain method headers auth = record {
  scheme = [];
  host = [];
  port = [];
  path = [];
  query = [];
  always_enforce = false;
  method = method;
  headers = headers;
  auth = auth;
}

with_uri-rest :
    (u : Option UriOverride) (o : HttpOverride)
    → ((with_uri u o).method ≡ o.method)
      × ((with_uri u o).headers ≡ o.headers)
      × ((with_uri u o).auth ≡ o.auth)
with_uri-rest none o = (refl, refl, refl)
with_uri-rest (some uo) o = (refl, refl, refl)

abbrev uri_read : HttpOverride → Option UriOverride
uri_read o = if has_uri (uri_of o) || o.always_enforce then some (uri_of o) else none

uri_read-with_uri :
    (u : Option UriOverride) (method : Bytes) (headers : Dict Bytes) (auth : Option Auth)
    → Settled u
    → uri_read (with_uri u (plain method headers auth)) ≡ u
unfolding bytes_eq
uri_read-with_uri none method headers auth w = refl
uri_read-with_uri (some uo) method headers auth w =
    ap
      (λ (y : UriOverride). if has_uri y || uo.uri_override_enforce_mode == 2 then some y else none)
      (uri_of-with_uri uo (plain method headers auth) w)
    ∙ ap (λ (b : Bool). if b then some uo else none) w.says

pub Permᴰ-header_list : {a b : Dict Bytes} → Permᴰ a b → Permᴰ (header_list a) (header_list b)
unfolding header_list
Permᴰ-header_list Permᴰ.nil = Permᴰ.nil
Permᴰ-header_list (Permᴰ.cons e d) = Permᴰ.cons (ap some e) (Permᴰ-header_list d)
Permᴰ-header_list (Permᴰ.swap e f) = Permᴰ.swap (ap some e) (ap some f)
Permᴰ-header_list (Permᴰ.trans d f) = Permᴰ.trans (Permᴰ-header_list d) (Permᴰ-header_list f)

-- The HTTP target of a queue that a client sends is what it reads back, but for the order of its headers,
-- which is the one that the map's entries come up in, when its method is one that the service has a
-- number for or is not specified, its headers have different keys, and a URI override that it has sets a
-- field or is enforced always, with a known scheme, a port that an int64 holds, no empty text, and no
-- other enforcement that is spelled out.
pub v2beta3_http_override_from_core-v2beta3_http_override_to_core :
    (order : Order) (h : HttpTarget) (m : Dict Bytes)
    → Settled h.uri_override
    → h.http_method ≤ 7
    → h.header_overrides ≡ header_list m
    → Unique m
    → v2beta3_http_override_from_core order (v2beta3_http_override_to_core h)
      ≡ record h { header_overrides = header_list (order m) }
unfolding v2beta3_http_override_from_core v2beta3_http_override_to_core
v2beta3_http_override_from_core-v2beta3_http_override_to_core order h m w known listed u =
    let method = if h.http_method == 0 then [] else http_method_name h.http_method in
    let headers = put_headers h.header_overrides [] in
    let auth = v2beta3_auth_from_http_target h in
    let o = with_uri h.uri_override (plain method headers auth) in
    let rest = with_uri-rest h.uri_override (plain method headers auth) in
    let uri : uri_read o ≡ h.uri_override =
      uri_read-with_uri h.uri_override method headers auth w in
    let numbered : (if is_empty o.method then 0 else http_method_enum o.method) ≡ h.http_method =
      ap (λ (b : Bytes). if is_empty b then 0 else http_method_enum b) rest.0
      ∙ method_of h.http_method known in
    let kept : o.headers ≡ m =
      rest.1
      ∙ ap (λ (l : List (Option (Bytes × Bytes))). put_headers l []) listed
      ∙ put_headers-header_list [] m u in
    let token : token_of o.auth ≡ h.authorization_header =
      ap token_of rest.2 ∙ token_of-v2beta3_auth_from_http_target h h.authorization_header refl in
    ap
      (λ (x : Option UriOverride). record {
        uri_override = x;
        http_method = if is_empty o.method then 0 else http_method_enum o.method;
        header_overrides = header_list (order o.headers);
        authorization_header = token_of o.auth;
      })
      uri
    ∙ ap
        (λ (n : ℕ). record h {
          http_method = n;
          header_overrides = header_list (order o.headers);
          authorization_header = token_of o.auth;
        })
        numbered
    ∙ ap
        (λ (x : Dict Bytes). record h {
          header_overrides = header_list (order x);
          authorization_header = token_of o.auth;
        })
        kept
    ∙ ap
        (λ (a : AuthorizationHeader). record h {
          header_overrides = header_list (order m);
          authorization_header = a;
        })
        token
