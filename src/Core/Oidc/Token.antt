-- ===== src/Core/Oidc/Token.antt =====
-- What a target reads of a token of core/oidc.go.
use cloud_tasks_emulator.Base.{
  ℕ, ◌/◌, suc, ◌+◌, ◌≡◌, refl, ap, sym, ◌∙◌, Option, none, some, List, [], ◌∷◌, ◌++◌, append_assoc,
  arith,
}
use cloud_tasks_emulator.Base.Int.{ℤ, pos, negsuc, ◌+ℤ◌, sub_ℕ}
use cloud_tasks_emulator.Base.Bytes.{Bytes, codes}
use cloud_tasks_emulator.Std.Decimal.{itoa, format_nat-bytes}
use cloud_tasks_emulator.Std.Strings.{split, split_text, split-join_text}
use cloud_tasks_emulator.Std.Base64.{encode, decode, decode-encode, encode_dot}
use cloud_tasks_emulator.Std.Json.{
  AreBytes, json_text, json_object, json_text-AreBytes, json_object-AreBytes, all_bytes-AreBytes,
}
use cloud_tasks_emulator.Core.Limits.{second, hour}
use cloud_tasks_emulator.Core.Types.{Time}
use cloud_tasks_emulator.Core.Oidc.{
  Crypto, Signer, unix, claim_entries, claims, header_entries, header_of, signed, token,
}

itoa-AreBytes : (i : ℤ) → AreBytes (itoa i)
unfolding itoa
itoa-AreBytes (pos n) = format_nat-bytes n
itoa-AreBytes (negsuc n) = (omega arith, format_nat-bytes (suc n))

-- The signature of the two parts in front of it, which is empty without a key.
abbrev pub signature : {Key : Type 0} → Crypto Key → Option Key → Bytes → Bytes → Bytes
signature c none h body = []
signature c (some key) h body = encode (c.sign key (c.sha256 (h ++ b'.' ∷ body)))

three_parts :
    (a b d : Bytes)
    → split b'.' ((encode a ++ b'.' ∷ encode b) ++ b'.' ∷ d) ≡ encode a ∷ encode b ∷ split b'.' d
three_parts a b d =
    ap (split b'.') (append_assoc (encode a) (b'.' ∷ encode b) (b'.' ∷ d))
    ∙ split-join_text b'.' (encode a) (encode b ++ b'.' ∷ d) (encode_dot a)
    ∙ ap (λ (xs : List Bytes). encode a ∷ xs) (split-join_text b'.' (encode b) d (encode_dot b))

header_AreBytes_at : {Key : Type 0} (key : Option Key) (kid : Bytes) → AreBytes (header_of key kid)
unfolding header_of
header_AreBytes_at none kid = all_bytes-AreBytes (codes "{\"alg\":\"none\",\"typ\":\"JWT\"}") refl
header_AreBytes_at (some key) kid = json_object-AreBytes (header_entries kid) (
  json_text-AreBytes (codes "RS256"),
  (json_text-AreBytes kid, (json_text-AreBytes (codes "JWT"), tt)),
)

signed_parts :
    {Key : Type 0} (c : Crypto Key) (key : Option Key) (a b : Bytes)
    → split b'.' (signed c key (encode a ++ b'.' ∷ encode b))
      ≡ encode a ∷ encode b ∷ signature c key (encode a) (encode b) ∷ []
unfolding signed split
signed_parts c none a b = three_parts a b []
signed_parts c (some key) a b =
    three_parts a b (signature c (some key) (encode a) (encode b))
    ∙ ap (λ (xs : List Bytes). encode a ∷ encode b ∷ xs)
        (split_text b'.' (signature c (some key) (encode a) (encode b))
          (encode_dot (c.sign key (c.sha256 (encode a ++ b'.' ∷ encode b)))))

module _ {Key : Type 0} (c : Crypto Key) (s : Signer Key) where
  claims-AreBytes : (email audience : Bytes) (now : Time) → AreBytes (claims c s email audience now)
  unfolding claims
  claims-AreBytes email audience now = json_object-AreBytes (claim_entries c s email audience now) (
    json_text-AreBytes audience,
    (
      json_text-AreBytes email,
      (
        json_text-AreBytes email,
        (
          all_bytes-AreBytes (codes "true") refl,
          (
            itoa-AreBytes (unix (now + hour)),
            (
              itoa-AreBytes (unix now),
              (json_text-AreBytes s.issuer, (json_text-AreBytes email, tt)),
            ),
          ),
        ),
      ),
    ),
  )

header_of-texts :
    {Key : Type 0} (key : Option Key) (kid : Bytes)
    → header_of key kid ≡ elim key [
      | none ↦ codes "{\"alg\":\"none\",\"typ\":\"JWT\"}"
      | some k ↦ json_object (
          (codes "alg", codes "\"RS256\"")
          ∷ (codes "kid", json_text kid)
          ∷ (codes "typ", codes "\"JWT\"")
          ∷ [])
    ]
unfolding header_of json_text
header_of-texts none kid = refl
header_of-texts (some key) kid = refl

sub_ℕ_add : (a b n : ℕ) → sub_ℕ (a + n) b ≡ sub_ℕ a b +ℤ pos n
unfolding ◌+ℤ◌
sub_ℕ_add a b n = ground arith

-- An hour is 3600 seconds, whatever the time.
unix-hour : (now : Time) → unix (now + hour) ≡ unix now +ℤ pos 3600
unix-hour now =
    let later : (now + hour) / second ≡ now / second + 3600 = omega arith in
    rw later (sub_ℕ_add (now / second) 62135596800 3600)

claims-texts :
    {Key : Type 0} (c : Crypto Key) (s : Signer Key) (email audience : Bytes) (now : Time)
    → claims c s email audience now
      ≡ json_object (
          (codes "aud", json_text audience)
          ∷ (codes "azp", json_text email)
          ∷ (codes "email", json_text email)
          ∷ (codes "email_verified", codes "true")
          ∷ (codes "exp", itoa (unix now +ℤ pos 3600))
          ∷ (codes "iat", itoa (unix now))
          ∷ (codes "iss", json_text s.issuer)
          ∷ (codes "sub", json_text email)
          ∷ [])
unfolding claims
claims-texts c s email audience now = rw (sym (unix-hour now)) refl

-- A token is three parts with dots between them, each as a decoder gives it back. The first is a header
-- that names RS256 and the key's id, or none where there is no key. The second is the claims: the
-- audience, the account, the signer's issuer, the time in seconds since 1970, and the time 3600 s later
-- as the expiry. The third is the signature of the two with the key, or empty where there is no key.
pub token_lem :
    {Key : Type 0} (c : Crypto Key) (s : Signer Key) (email audience : Bytes) (now : Time)
    → (h : Bytes) × (body : Bytes) × (split b'.' (token c s email audience now)
        ≡ h ∷ body ∷ signature c s.key h body ∷ [])
      × (decode h
          ≡ some (elim s.key [
            | none ↦ codes "{\"alg\":\"none\",\"typ\":\"JWT\"}"
            | some key ↦ json_object (
                (codes "alg", codes "\"RS256\"")
                ∷ (codes "kid", json_text s.kid)
                ∷ (codes "typ", codes "\"JWT\"")
                ∷ [])
          ]))
      × (decode body
          ≡ some (
              json_object (
                (codes "aud", json_text audience)
                ∷ (codes "azp", json_text email)
                ∷ (codes "email", json_text email)
                ∷ (codes "email_verified", codes "true")
                ∷ (codes "exp", itoa (unix now +ℤ pos 3600))
                ∷ (codes "iat", itoa (unix now))
                ∷ (codes "iss", json_text s.issuer)
                ∷ (codes "sub", json_text email)
                ∷ [])))
unfolding token
token_lem c s email audience now = (
  encode (header_of s.key s.kid),
  encode (claims c s email audience now),
  signed_parts c s.key (header_of s.key s.kid) (claims c s email audience now),
  decode-encode (header_of s.key s.kid) (header_AreBytes_at s.key s.kid)
      ∙ ap some (header_of-texts s.key s.kid),
  decode-encode (claims c s email audience now) (claims-AreBytes c s email audience now)
      ∙ ap some (claims-texts c s email audience now),
)
