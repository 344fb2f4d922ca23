-- ===== src/Encoding.antt =====
-- packages/crypto/src/bytes.ts: the encodings of bytes and of lists of fields.
pub mod Fields
mod Tests
use Prim.Native.Char.{Char, code}
use Prim.Native.String.{String}
use hop_desk.Bytes.{Bytes}
use hop_desk.Common.{
  Bool, List, Option, [], false, if◌then◌else◌, leb, length, map, none, some, str_eq, suc, true,
  zero, ℕ, ◌%◌, ◌&&◌, ◌++◌, ◌/◌, ◌==◌, ◌||◌, ◌∷◌,
}

abbrev pub codes : String → Bytes
codes String.[] = []
codes (String.◌∷◌ c s) = code c ∷ codes s

-- `a.length === b.length && timingSafeEqual(a, b)`
unfoldable pub equal_bytes : Bytes → Bytes → Bool
equal_bytes [] [] = true
equal_bytes [] (b ∷ bs) = false
equal_bytes (a ∷ xs) [] = false
equal_bytes (a ∷ xs) (b ∷ bs) = a == b && equal_bytes xs bs

-- The lowest `k` bytes of a number, the lowest first.
unfoldable pub to_le : ℕ → ℕ → Bytes
to_le zero n = []
to_le (suc k) n = n % 256 ∷ to_le k (n / 256)

unfoldable pub u64le : ℕ → Bytes
u64le n = to_le 8 n

-- A text or bytes.
pub data Field : Type 0 where
  text_field : String → Field
  bytes_field : Bytes → Field

abbrev pub field_bytes : (utf8 : String → Bytes) → Field → Bytes
field_bytes utf8 (text_field s) = utf8 s
field_bytes utf8 (bytes_field b) = b

unfoldable pub encode_bytes : List Bytes → Bytes
encode_bytes [] = []
encode_bytes (b ∷ bs) = u64le (length b) ++ (b ++ encode_bytes bs)

unfoldable pub encode_fields : (utf8 : String → Bytes) → List Field → Bytes
encode_fields utf8 fs = encode_bytes (map (field_bytes utf8) fs)

-- `/^[A-Za-z0-9+/]*={0,2}$/` on the numbers of a text's characters.
unfoldable pub is_base64_char : ℕ → Bool
is_base64_char c =
    (leb 65 c && leb c 90)
    || (leb 97 c && leb c 122)
    || (leb 48 c && leb c 57)
    || c == 43
    || c == 47

abbrev pub is_padding : Bytes → Bool
is_padding [] = true
is_padding (a ∷ []) = a == 61
is_padding (a ∷ b ∷ []) = a == 61 && b == 61
is_padding (a ∷ b ∷ c ∷ cs) = false

unfoldable pub is_base64 : Bytes → Bool
is_base64 [] = true
is_base64 (c ∷ cs) = (is_base64_char c && is_base64 cs) || is_padding (c ∷ cs)

-- `fromBase64`, `none` where it throws; `decode` is the runtime's own decoder.
unfoldable pub from_base64 : (decode : String → Bytes) → String → Option Bytes
from_base64 decode s =
    if is_base64 (codes s) && length (codes s) % 4 == 0 then some (decode s) else none

-- A field that may be missing; the empty text counts as missing.
abbrev pub truthy : Option String → Option String
truthy none = none
truthy (some s) = if str_eq s "" then none else some s
