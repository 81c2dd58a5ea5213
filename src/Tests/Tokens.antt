-- ===== src/Tests/Tokens.antt =====
-- Tokens with and without a key, for a key that is a number and whose signature is the number's byte in
-- front of the digest.
use cloud_tasks_emulator.Base.{ℕ, ◌≡◌, refl, none, some, [], ◌∷◌, ◌++◌, take}
use cloud_tasks_emulator.Base.Bytes.{Bytes, codes, bytes_eq}
use cloud_tasks_emulator.Std.Base64.{decode}
use cloud_tasks_emulator.Std.Decimal.{itoa}
use cloud_tasks_emulator.Std.Json.{json_text, json_object}
use cloud_tasks_emulator.Base.Int.{◌+ℤ◌}
use cloud_tasks_emulator.Std.Strings.{split, join}
use cloud_tasks_emulator.Core.Oidc.{Crypto, Signer, new_signer, claims, token, open_id, jwks_path}
use cloud_tasks_emulator.Core.Oidc.Token.{signature, token_lem}

abbrev toy : Crypto ℕ
toy = record {
  public_der = λ key. key ∷ [];
  modulus = λ key. key ∷ [];
  exponent = λ key. 1 ∷ 0 ∷ 1 ∷ [];
  sha256 = λ text. take 32 text;
  sign = λ key digest. key ∷ digest;
  certificate = λ key issuer now. codes "certificate of " ++ issuer;
}

abbrev signer : Signer ℕ
unfolding new_signer
signer = new_signer toy (codes "http://localhost:8980") (some 7) 62135596801000000000

abbrev keyless : Signer ℕ
unfolding new_signer
keyless = new_signer toy [] none 62135596801000000000

open_id-jwks : open_id signer jwks_path ≡ some signer.jwks
unfolding open_id new_signer bytes_eq
open_id-jwks = refl

keyless_jwks : keyless.jwks ≡ codes "{\"keys\":[]}"
unfolding new_signer join
keyless_jwks = refl

claims_at :
    claims toy signer (codes "me@x.dev") (codes "http://a/b") 62135596801000000000
    ≡ codes
        "{\"aud\":\"http://a/b\",\"azp\":\"me@x.dev\",\"email\":\"me@x.dev\",\"email_verified\":true,\"exp\":3601,\"iat\":1,\"iss\":\"http://localhost:8980\",\"sub\":\"me@x.dev\"}"
unfolding claims new_signer join
claims_at = refl

token_lem_example :
    (h : Bytes) × (body : Bytes) × (split b'.'
        (token toy signer (codes "me@x.dev") (codes "http://a/b") 62135596801000000000)
      ≡ h ∷ body ∷ signature toy signer.key h body ∷ [])
    × (decode h
        ≡ some (
            json_object (
              (codes "alg", codes "\"RS256\"")
              ∷ (codes "kid", json_text signer.kid)
              ∷ (codes "typ", codes "\"JWT\"")
              ∷ [])))
    × (decode body
        ≡ some (
            json_object (
              (codes "aud", json_text (codes "http://a/b"))
              ∷ (codes "azp", json_text (codes "me@x.dev"))
              ∷ (codes "email", json_text (codes "me@x.dev"))
              ∷ (codes "email_verified", codes "true")
              ∷ (codes "exp", codes "3601")
              ∷ (codes "iat", codes "1")
              ∷ (codes "iss", json_text signer.issuer)
              ∷ (codes "sub", json_text (codes "me@x.dev"))
              ∷ [])))
unfolding itoa ◌+ℤ◌ signer new_signer
token_lem_example =
    token_lem toy signer (codes "me@x.dev") (codes "http://a/b") 62135596801000000000
