-- ===== src/Keys/Identity.antt =====
-- packages/crypto/src/identity.ts: identities of devices; packages/crypto/src/password.ts: the scalar
-- of a secret.
use Prim.Native.String.{◌++◌ as append}
use hop_desk.Bytes.{Bytes, take, of_be}
use hop_desk.Keys.{Primitives}
use hop_desk.Common.{
  Bool, List, Option, String, [], false, get_elem?, if◌then◌else◌, length, ltb, none, not, some,
  suc, zero, ℕ, ◌%◌, ◌++◌, ◌/◌, ◌==◌, ◌||◌, ◌∷◌,
}

pub record DeviceIdentity : Type 0 where
  pub public_key : Bytes
  pub secret_key : Bytes

abbrev pub alphabet : List String
alphabet =
    "0" ∷ "1" ∷ "2" ∷ "3" ∷ "4" ∷ "5" ∷ "6" ∷ "7" ∷ "8" ∷ "9" ∷ "A" ∷ "B" ∷ "C" ∷ "D" ∷ "E" ∷ "F"
    ∷ "G" ∷ "H" ∷ "J" ∷ "K" ∷ "M" ∷ "N" ∷ "P" ∷ "Q" ∷ "R" ∷ "S" ∷ "T" ∷ "V" ∷ "W" ∷ "X" ∷ "Y" ∷ "Z"
    ∷ []

abbrev pub letter : Option String → String
letter none = ""
letter (some s) = s

-- The last `k` characters of the 40 bits.
unfoldable pub id_chars : (k bits : ℕ) → String
id_chars zero bits = ""
id_chars (suc k) bits = append (id_chars k (bits / 32)) (letter (get_elem? alphabet (bits % 32)))

module _ (p : Primitives) where
  abbrev pub utf8 : String → Bytes
  utf8 = p.crypto.utf8

  abbrev pub labelled : String → Bytes → Bytes
  labelled label message = utf8 label ++ 0 ∷ message

  unfoldable pub sign : DeviceIdentity → String → Bytes → Bytes
  sign identity label message = p.ed_sign (labelled label message) identity.secret_key

  unfoldable pub verify : (public_key : Bytes) → String → (message signature : Bytes) → Bool
  verify public_key label message signature =
      if not (length public_key == 32) || not (length signature == 64)
      then false
      else p.ed_verify signature (labelled label message) public_key

  -- `none` where the source throws: 40 bits are eight characters of five.
  unfoldable pub device_id_from_public_key : Bytes → Option String
  device_id_from_public_key public_key =
      if not (length public_key == 32)
      then none
      else let bits = of_be (take 5 (p.sha256 (utf8 "hopdesk/device-id/v1\0" ++ public_key))) in
        some (
          append "HD-"
            (append (id_chars 4 (bits / 1_048_576)) (append "-" (id_chars 4 (bits % 1_048_576)))))

  unfoldable pub bytes_to_scalar : Bytes → Option ℕ
  bytes_to_scalar bytes =
      if ltb (length bytes) 40
      then none
      else let w = of_be bytes % p.order in if w == 0 then none else some w

  abbrev pub scalar_of : Option Bytes → Option ℕ
  scalar_of none = none
  scalar_of (some bytes) = bytes_to_scalar bytes

  unfoldable pub password_scalar : (password context : String) → Option ℕ
  password_scalar password context = scalar_of (
      p.scrypt (utf8 (p.nfkc password))
        (p.sha256 (utf8 "hopdesk/spake2-w/password/v1\0" ++ utf8 context)) 48)

  unfoldable pub secret_scalar : Bytes → String → Option ℕ
  secret_scalar secret context =
      if ltb (length secret) 32
      then none
      else bytes_to_scalar (p.hkdf_to secret (utf8 context) (utf8 "hopdesk/spake2-w/secret/v1") 48)
