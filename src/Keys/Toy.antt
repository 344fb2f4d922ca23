-- ===== src/Keys/Toy.antt =====
-- Primitives that hide nothing and keep every law, to run the code on: a text of base64 counts each
-- byte out in groups of four letters, a point is a number, and every digest is zero.
use Prim.Native.Char.{Char}
use Prim.Native.String.{String}
use hop_desk.Bytes.{Bytes}
use hop_desk.Encoding.{codes, is_base64, is_base64_char, from_base64}
use hop_desk.Keys.{Primitives}
use hop_desk.Keys.Agreement.{IsCurve}
use hop_desk.Common.{
  ==_iff, Option, [], ap, arith, both_true, if_true, if◌then◌else◌, length, none, refl, some, suc,
  true, zero, ℕ, ◌%◌, ◌*◌, ◌+◌, ◌-◌, ◌==◌, ◌∙◌, ◌∷◌, ◌≡◌,
}

abbrev pub repeated : ℕ → ℕ → Bytes
repeated zero b = []
repeated (suc n) b = b ∷ repeated n b

abbrev four : Char → String → String
four c s = String.◌∷◌ c (String.◌∷◌ c (String.◌∷◌ c (String.◌∷◌ c s)))

abbrev count_out : ℕ → String → String
count_out zero s = four "B" s
count_out (suc n) s = four "A" (count_out n s)

abbrev pub show_bytes : Bytes → String
show_bytes [] = ""
show_bytes (b ∷ bs) = count_out b (show_bytes bs)

abbrev count_in : ℕ → Bytes → Bytes
count_in k (a ∷ b ∷ c ∷ d ∷ cs) = if a == 66 then k ∷ count_in 0 cs else count_in (suc k) cs
count_in k cs = []

abbrev read_bytes : String → Bytes
read_bytes s = count_in 0 (codes s)

abbrev number_in : Bytes → Option ℕ
number_in (a ∷ b ∷ bs) = some b
number_in bs = none

abbrev pub toy : Primitives
toy = record {
  crypto = record {
    hkdf = λ secret salt info. repeated 32 7;
    utf8 = codes;
    units = λ s. length (codes s);
    encrypt = λ key nonce aad plain. (plain, repeated 16 0);
    decrypt = λ key nonce aad body tag. some body;
  };
  sha256 = λ b. repeated 32 0;
  hmac = λ key message. repeated 32 1;
  hkdf_to = λ secret salt info n. repeated n 3;
  nfkc = λ s. s;
  scrypt = λ password salt n. some (repeated n 1);
  base64 = show_bytes;
  unbase64 = read_bytes;
  ed_sign = λ message secret. repeated 64 2;
  ed_verify = λ signature message key. true;
  x_public = λ secret. repeated 32 4;
  x_shared = λ secret theirs. some (repeated 32 5);
  Point = ℕ;
  order = 101;
  base_point = 1;
  point_m = 2;
  point_n = 3;
  multiply = λ a b. a * b;
  plus = λ a b. a + b;
  minus = λ a b. a - b;
  is_zero = λ a. a == 0;
  point_bytes = λ a. 4 ∷ a ∷ repeated 63 0;
  of_bytes = number_in;
}

cancel : (a b : ℕ) → (a + b) - a ≡ b
cancel a b = omega arith

exchanges : (m n : ℕ) → (1 * m) * n ≡ (1 * n) * m
exchanges m n = grind arith

pub toy-IsCurve : IsCurve toy
toy-IsCurve = record {
  cancels = cancel;
  commutes = exchanges;
  reads = λ a z. refl;
  size = λ a z. refl;
  head = λ a z. refl;
}

read_counted :
    (n k : ℕ) (s : String) → count_in k (codes (count_out n s)) ≡ (n + k) ∷ count_in 0 (codes s)
read_counted zero k s = ap (λ m. m ∷ count_in 0 (codes s)) (omega arith)
read_counted (suc n) k s =
    read_counted n (suc k) s ∙ ap (λ m. m ∷ count_in 0 (codes s)) (omega arith)

read_shown : (b : Bytes) → read_bytes (show_bytes b) ≡ b
read_shown [] = refl
read_shown (b ∷ bs) =
    read_counted b 0 (show_bytes bs)
    ∙ ap (λ xs. (b + 0) ∷ xs) (read_shown bs)
    ∙ ap (λ m. m ∷ bs) (omega arith)

four_letters :
    (c : ℕ) (cs : Bytes)
    → is_base64_char c ≡ true
    → is_base64 cs ≡ true
    → is_base64 (c ∷ c ∷ c ∷ c ∷ cs) ≡ true
unfolding is_base64
four_letters c cs h k = ground (arith, h, k)

counted-is_base64 :
    (n : ℕ) (s : String) → is_base64 (codes s) ≡ true → is_base64 (codes (count_out n s)) ≡ true
unfolding is_base64_char
counted-is_base64 zero s h = four_letters 66 (codes s) refl h
counted-is_base64 (suc n) s h = four_letters 65 _ refl (counted-is_base64 n s h)

shown-is_base64 : (b : Bytes) → is_base64 (codes (show_bytes b)) ≡ true
unfolding is_base64
shown-is_base64 [] = refl
shown-is_base64 (b ∷ bs) = counted-is_base64 b (show_bytes bs) (shown-is_base64 bs)

four_more : (n : ℕ) → n % 4 ≡ 0 → suc (suc (suc (suc n))) % 4 ≡ 0
four_more n h = omega (arith, h)

counted_length :
    (n : ℕ) (s : String) → length (codes s) % 4 ≡ 0 → length (codes (count_out n s)) % 4 ≡ 0
counted_length zero s h = four_more _ h
counted_length (suc n) s h = four_more _ (counted_length n s h)

shown_length : (b : Bytes) → length (codes (show_bytes b)) % 4 ≡ 0
shown_length [] = refl
shown_length (b ∷ bs) = counted_length b (show_bytes bs) (shown_length bs)

pub toy-round : (b : Bytes) → from_base64 read_bytes (show_bytes b) ≡ some b
unfolding from_base64
toy-round b =
    if_true _ _ none (
      both_true _ _ (shown-is_base64 b)
        ((==_iff (length (codes (show_bytes b)) % 4) 0).1 (shown_length b)))
    ∙ ap some (read_shown b)
