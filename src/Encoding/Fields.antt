-- ===== src/Encoding/Fields.antt =====
-- The encoding of a list of fields is unambiguous.
use native.Mathlib.Nat.{pow-succ'}
use hop_desk.Bytes.{Bytes, take, drop, take-append, drop-append}
use hop_desk.Encoding.{Field, encode_bytes, encode_fields, field_bytes, to_le, u64le}
use hop_desk.Common.{
  List, String, [], ap, arith, length, map, refl, subst, suc, sym, zero, ℕ, ◌*◌, ◌++◌, ◌+◌, ◌/◌,
  ◌<◌, ◌^◌, ◌∙◌, ◌∷◌, ◌≡◌,
}

abbrev pub of_le : Bytes → ℕ
of_le [] = 0
of_le (b ∷ bs) = b + 256 * of_le bs

of_le-to_le : (k n : ℕ) → n < 256 ^ k → of_le (to_le k n) ≡ n
unfolding to_le
of_le-to_le zero n h = omega (arith, h)
of_le-to_le (suc k) n h =
    let m : n < 256 * 256 ^ k = subst (λ x. n < x) (pow-succ' 256 k) h in
    let q : n / 256 < 256 ^ k = omega (arith, m) in omega (arith, of_le-to_le k (n / 256) q)

length-to_le : (k n : ℕ) → length (to_le k n) ≡ k
unfolding to_le
length-to_le zero n = refl
length-to_le (suc k) n = ap suc (length-to_le k (n / 256))

-- Every field is shorter than 2 ^ 64 bytes.
abbrev pub AllShort : List Bytes → Type 0
AllShort [] = Unit
AllShort (b ∷ bs) = (length b < 2 ^ 64) × AllShort bs

u64le-injective : (m n : ℕ) → m < 2 ^ 64 → n < 2 ^ 64 → u64le m ≡ u64le n → m ≡ n
unfolding u64le
u64le-injective m n h k e =
    sym (of_le-to_le 8 m (omega (arith, h))) ∙ ap of_le e ∙ of_le-to_le 8 n (omega (arith, k))

-- The first field and the rest of an encoding.
split :
    (a b : Bytes) (xs ys : Bytes)
    → length a < 2 ^ 64
    → length b < 2 ^ 64
    → u64le (length a) ++ (a ++ xs) ≡ u64le (length b) ++ (b ++ ys)
    → (a ≡ b) × (xs ≡ ys)
unfolding u64le
split a b xs ys h k e =
    let la = length-to_le 8 (length a) in
    let lb = length-to_le 8 (length b) in
    let heads : to_le 8 (length a) ≡ to_le 8 (length b) =
      sym (take-append (to_le 8 (length a)) (a ++ xs) 8 la)
      ∙ ap (take 8) e
      ∙ take-append (to_le 8 (length b)) (b ++ ys) 8 lb in
    let rests : a ++ xs ≡ b ++ ys =
      sym (drop-append (to_le 8 (length a)) (a ++ xs) 8 la)
      ∙ ap (drop 8) e
      ∙ drop-append (to_le 8 (length b)) (b ++ ys) 8 lb in
    let same : length a ≡ length b = u64le-injective (length a) (length b) h k heads in
    (
      sym (take-append a xs (length a) refl)
          ∙ ap (take (length a)) rests
          ∙ take-append b ys (length a) (sym same),
      sym (drop-append a xs (length a) refl)
          ∙ ap (drop (length a)) rests
          ∙ drop-append b ys (length a) (sym same),
    )

nil_cons : (b : Bytes) (bs : Bytes) → [] ≡ u64le (length b) ++ (b ++ bs) → ⊥
unfolding u64le to_le
nil_cons b bs e = cc

-- Lists of fields with one encoding are the same, field by field.
pub encode_bytes-injective :
    (fs gs : List Bytes) → AllShort fs → AllShort gs → encode_bytes fs ≡ encode_bytes gs → fs ≡ gs
unfolding encode_bytes
encode_bytes-injective [] [] h k e = refl
encode_bytes-injective [] (g ∷ gs) h k e = absurd (nil_cons g (encode_bytes gs) e)
encode_bytes-injective (f ∷ fs) [] h k e = absurd (nil_cons f (encode_bytes fs) (sym e))
encode_bytes-injective (f ∷ fs) (g ∷ gs) h k e =
    let s = split f g (encode_bytes fs) (encode_bytes gs) h.0 k.0 e in
    ap (λ x. x ∷ fs) s.0 ∙ ap (λ xs. g ∷ xs) (encode_bytes-injective fs gs h.1 k.1 s.1)

-- Lists of texts and bytes below 2 ^ 64 bytes that are encoded alike have the same bytes in every
-- field.
pub encode_fields-injective :
    (utf8 : String → Bytes) (fs gs : List Field)
    → AllShort (map (field_bytes utf8) fs)
    → AllShort (map (field_bytes utf8) gs)
    → encode_fields utf8 fs ≡ encode_fields utf8 gs
    → map (field_bytes utf8) fs ≡ map (field_bytes utf8) gs
unfolding encode_fields
encode_fields-injective utf8 fs gs =
    encode_bytes-injective (map (field_bytes utf8) fs) (map (field_bytes utf8) gs)
