-- ===== src/Core/Oidc.antt =====
-- core/oidc.go: the signer of OIDC tokens and the OpenID documents that it serves. RSA keys, SHA-256 and
-- certificates are arguments.
pub mod Token
use cloud_tasks_emulator.Base.{
  ℕ, ◌+◌, ◌/◌, ◌%◌, Option, none, some, List, [], ◌∷◌, ◌++◌, if◌then◌else◌, take, map,
}
use cloud_tasks_emulator.Base.Int.{ℤ, sub_ℕ}
use cloud_tasks_emulator.Base.Bytes.{Bytes, codes, bytes_eq, is_empty}
use cloud_tasks_emulator.Std.Decimal.{itoa}
use cloud_tasks_emulator.Std.Base64.{encode}
use cloud_tasks_emulator.Std.Quote.{hex_digit}
use cloud_tasks_emulator.Std.Json.{json_text, json_object, json_array}
use cloud_tasks_emulator.Core.Limits.{second, hour}
use cloud_tasks_emulator.Core.Types.{Time}

-- A key's public part in PKIX form, its modulus and exponent, its signature of a digest, and the text of
-- the certificate that it signs for itself under a name.
pub record Crypto (Key : Type 0) : Type 0 where
  pub public_der : Key → Bytes
  pub modulus : Key → Bytes
  pub exponent : Key → Bytes
  pub sha256 : Bytes → Bytes
  pub sign : Key → Bytes → Bytes
  pub certificate : Key → Bytes → Time → Bytes

pub record Signer (Key : Type 0) : Type 0 where
  pub issuer : Bytes
  pub key : Option Key
  pub kid : Bytes
  pub jwks : Bytes
  pub certs : Bytes
  pub discovery : Bytes

abbrev pub default_oidc_issuer : Bytes
default_oidc_issuer = codes "https://accounts.google.com"

abbrev pub discovery_path : Bytes
discovery_path = codes "/.well-known/openid-configuration"

abbrev pub jwks_path : Bytes
jwks_path = codes "/jwks"

abbrev pub certs_path : Bytes
certs_path = codes "/certs"

-- Two digits to a byte.
unfoldable pub encode_to_string : Bytes → Bytes
encode_to_string [] = []
encode_to_string (c ∷ s) = hex_digit (c / 16) ∷ hex_digit (c % 16) ∷ encode_to_string s

-- `t.Unix()`: the seconds since 1970, which is 62135596800 s after Go's zero time.
abbrev pub unix : Time → ℤ
unix t = sub_ℕ (t / second) 62135596800

abbrev pub header_entries : Bytes → List (Bytes × Bytes)
header_entries kid =
    (codes "alg", json_text (codes "RS256"))
    ∷ (codes "kid", json_text kid)
    ∷ (codes "typ", json_text (codes "JWT"))
    ∷ []

-- The header of a token: without a key it is a fixed text.
unfoldable pub header_of : {Key : Type 0} → Option Key → Bytes → Bytes
unfolding json_object json_text
header_of none kid = codes "{\"alg\":\"none\",\"typ\":\"JWT\"}"
header_of (some key) kid = json_object (header_entries kid)

-- A header and claims with what is appended to them: the signature, which is empty without a key.
unfoldable pub signed : {Key : Type 0} → Crypto Key → Option Key → Bytes → Bytes
unfolding encode
signed c none input = input ++ b'.' ∷ []
signed c (some key) input = input ++ b'.' ∷ encode (c.sign key (c.sha256 input))

module _ {Key : Type 0} (c : Crypto Key) where
  unfoldable pub key_id : Option Key → Bytes
  unfolding encode_to_string
  key_id none = []
  key_id (some key) = encode_to_string (take 10 (c.sha256 (c.public_der key)))

  -- One key, or none at all.
  abbrev public_keys : Option Key → Bytes → List Bytes
  public_keys none kid = []
  public_keys (some key) kid =
      json_object (
        (codes "alg", json_text (codes "RS256"))
        ∷ (codes "e", json_text (encode (c.exponent key)))
        ∷ (codes "kid", json_text kid)
        ∷ (codes "kty", json_text (codes "RSA"))
        ∷ (codes "n", json_text (encode (c.modulus key)))
        ∷ (codes "use", json_text (codes "sig"))
        ∷ [])
      ∷ []

  unfoldable pub build_jwks : Option Key → Bytes → Bytes
  unfolding json_object json_array json_text encode
  build_jwks key kid = json_object ((codes "keys", json_array (public_keys key kid)) ∷ [])

  abbrev certificates : Option Key → Bytes → Bytes → Time → List (Bytes × Bytes)
  certificates none kid issuer now = []
  certificates (some key) kid issuer now = (kid, json_text (c.certificate key issuer now)) ∷ []

  unfoldable pub build_certs : Option Key → Bytes → Bytes → Time → Bytes
  unfolding json_object json_text
  build_certs key kid issuer now = json_object (certificates key kid issuer now)

  abbrev texts : List Bytes → Bytes
  texts items = json_array (map json_text items)

  unfoldable pub build_discovery : Bytes → Bytes
  unfolding json_object json_array json_text
  build_discovery issuer = json_object (
      (
        codes "claims_supported",
        texts (
            codes "aud"
            ∷ codes "email"
            ∷ codes "email_verified"
            ∷ codes "exp"
            ∷ codes "iat"
            ∷ codes "iss"
            ∷ codes "sub"
            ∷ []),
      )
      ∷ (codes "id_token_signing_alg_values_supported", texts (codes "RS256" ∷ []))
      ∷ (codes "issuer", json_text issuer)
      ∷ (codes "jwks_uri", json_text (issuer ++ jwks_path))
      ∷ (codes "response_types_supported", texts (codes "id_token" ∷ []))
      ∷ (codes "subject_types_supported", texts (codes "public" ∷ []))
      ∷ [])

  unfoldable pub new_signer : Bytes → Option Key → Time → Signer Key
  unfolding key_id build_jwks build_certs build_discovery
  new_signer given key now =
      let issuer = if is_empty given then default_oidc_issuer else given in
      let kid = key_id key in
      record {
        issuer = issuer;
        key = key;
        kid = kid;
        jwks = build_jwks key kid;
        certs = build_certs key kid issuer now;
        discovery = build_discovery issuer;
      }

  abbrev pub claim_entries : Signer Key → Bytes → Bytes → Time → List (Bytes × Bytes)
  claim_entries s email audience now =
      (codes "aud", json_text audience)
      ∷ (codes "azp", json_text email)
      ∷ (codes "email", json_text email)
      ∷ (codes "email_verified", codes "true")
      ∷ (codes "exp", itoa (unix (now + hour)))
      ∷ (codes "iat", itoa (unix now))
      ∷ (codes "iss", json_text s.issuer)
      ∷ (codes "sub", json_text email)
      ∷ []

  unfoldable pub claims : Signer Key → Bytes → Bytes → Time → Bytes
  unfolding json_object json_text itoa
  claims s email audience now = json_object (claim_entries s email audience now)

  unfoldable pub token : Signer Key → Bytes → Bytes → Time → Bytes
  unfolding header_of signed claims encode
  token s email audience now =
      signed c s.key (encode (header_of s.key s.kid) ++ b'.' ∷ encode (claims s email audience now))

-- `Handler`: the document at a path, as application/json.
unfoldable pub open_id : {Key : Type 0} → Signer Key → Bytes → Option Bytes
open_id s path =
    if bytes_eq path discovery_path
    then some s.discovery
    else if bytes_eq path jwks_path
    then some s.jwks
    else if bytes_eq path certs_path
    then some s.certs
    else none
