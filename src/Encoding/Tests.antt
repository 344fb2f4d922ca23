-- ===== src/Encoding/Tests.antt =====
-- Two lists of fields that only the lengths tell apart, and the theorem at a list.
use hop_desk.Encoding.{codes, encode_fields, encode_bytes, u64le, to_le, field_bytes}
use hop_desk.Encoding.Field.{text_field, bytes_field}
use hop_desk.Encoding.Fields.{encode_fields-injective}
use hop_desk.Common.{[], map, refl, ◌∷◌, ◌≡◌, arith, ◌<◌}

encoding : Unit {0}
unfolding encode_fields encode_bytes u64le to_le
encoding = tt

apart :
    encode_fields codes (text_field "ab" ∷ text_field "c" ∷ [])
    ≡ 2 ∷ 0 ∷ 0 ∷ 0 ∷ 0 ∷ 0 ∷ 0 ∷ 0 ∷ 97 ∷ 98 ∷ 1 ∷ 0 ∷ 0 ∷ 0 ∷ 0 ∷ 0 ∷ 0 ∷ 0 ∷ 99 ∷ []
unfolding encoding
apart = refl

short : (2 < 18446744073709551616) × ((1 < 18446744073709551616) × Unit {0})
short = (omega arith, (omega arith, tt))

encode_fields-injective_example :
    map (field_bytes codes) (text_field "ab" ∷ text_field "c" ∷ [])
    ≡ map (field_bytes codes) (bytes_field (97 ∷ 98 ∷ []) ∷ text_field "c" ∷ [])
unfolding encoding
encode_fields-injective_example =
    encode_fields-injective codes (text_field "ab" ∷ text_field "c" ∷ [])
      (bytes_field (97 ∷ 98 ∷ []) ∷ text_field "c" ∷ []) short short refl
