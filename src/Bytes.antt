-- ===== src/Bytes.antt =====
-- Arrays of bytes as lists of numbers: parts of them, and numbers in big-endian order as
-- `writeBigUInt64BE` and its kin lay them out.
use native.Mathlib.Nat.{pow-succ'}
use hop_desk.Common.{
  List, [], ap, arith, length, length-append, refl, suc, zero, ℕ, ◌*◌, ◌++◌, ◌+◌, ◌/◌, ◌<◌, ◌^◌,
  ◌∙◌, ◌∷◌, ◌≡◌, subst, ◌%◌, ◌-◌, ◌≤◌,
}

abbrev pub Bytes : Type 0
Bytes = List ℕ

abbrev pub take : ℕ → Bytes → Bytes
take zero bs = []
take (suc n) [] = []
take (suc n) (b ∷ bs) = b ∷ take n bs

abbrev pub drop : ℕ → Bytes → Bytes
drop zero bs = bs
drop (suc n) [] = []
drop (suc n) (b ∷ bs) = drop n bs

-- The lowest `k` bytes of a number, the highest first.
unfoldable pub to_be : ℕ → ℕ → Bytes
to_be zero n = []
to_be (suc k) n = to_be k (n / 256) ++ n % 256 ∷ []

unfoldable pub of_be_from : ℕ → Bytes → ℕ
of_be_from acc [] = acc
of_be_from acc (b ∷ bs) = of_be_from (acc * 256 + b) bs

abbrev pub of_be : Bytes → ℕ
of_be bs = of_be_from 0 bs

of_be_from-append :
    (acc : ℕ) (bs : Bytes) (b : ℕ) → of_be_from acc (bs ++ b ∷ []) ≡ of_be_from acc bs * 256 + b
unfolding of_be_from
of_be_from-append acc [] b = refl
of_be_from-append acc (c ∷ bs) b = of_be_from-append (acc * 256 + c) bs b

pow_suc : (k : ℕ) → 256 ^ suc k ≡ 256 * 256 ^ k
pow_suc k = pow-succ' 256 k

high : (n m : ℕ) → n < 256 * m → n / 256 < m
high n m h = omega (arith, h)

-- A number that fits is read back.
pub of_be-to_be : (k n : ℕ) → n < 256 ^ k → of_be (to_be k n) ≡ n
unfolding to_be of_be_from
of_be-to_be zero n h = omega (arith, h)
of_be-to_be (suc k) n h =
    of_be_from-append 0 (to_be k (n / 256)) (n % 256)
    ∙ omega (arith, of_be-to_be k (n / 256) (high n (256 ^ k) (subst (λ x. n < x) (pow_suc k) h)))

pub length-to_be : (k n : ℕ) → length (to_be k n) ≡ k
unfolding to_be
length-to_be zero n = refl
length-to_be (suc k) n =
    omega (arith, length-append (to_be k (n / 256)) (n % 256 ∷ []), length-to_be k (n / 256))

pub take-append : (xs ys : Bytes) (k : ℕ) → length xs ≡ k → take k (xs ++ ys) ≡ xs
take-append [] ys zero e = refl
take-append [] ys (suc k) e = absurd (omega arith)
take-append (x ∷ xs) ys zero e = absurd (omega arith)
take-append (x ∷ xs) ys (suc k) e = ap (λ l. x ∷ l) (take-append xs ys k (omega arith))

pub drop-append : (xs ys : Bytes) (k : ℕ) → length xs ≡ k → drop k (xs ++ ys) ≡ ys
drop-append [] ys zero e = refl
drop-append [] ys (suc k) e = absurd (omega arith)
drop-append (x ∷ xs) ys zero e = absurd (omega arith)
drop-append (x ∷ xs) ys (suc k) e = drop-append xs ys k (omega arith)

pub drop_two :
    (xs ys zs : Bytes) (k : ℕ) → length xs + length ys ≡ k → drop k (xs ++ (ys ++ zs)) ≡ zs
drop_two [] ys zs k e = drop-append ys zs k (omega (arith, e))
drop_two (x ∷ xs) ys zs zero e = absurd (omega arith)
drop_two (x ∷ xs) ys zs (suc k) e = drop_two xs ys zs k (omega arith)

pub take_short : (xs ys : Bytes) (k : ℕ) → k ≤ length xs → take k (xs ++ ys) ≡ take k xs
take_short xs ys zero h = refl
take_short [] ys (suc k) h = absurd (omega (arith, h))
take_short (x ∷ xs) ys (suc k) h = ap (λ l. x ∷ l) (take_short xs ys k (omega arith))

pub drop_short : (xs ys : Bytes) (k : ℕ) → k ≤ length xs → drop k (xs ++ ys) ≡ drop k xs ++ ys
drop_short xs ys zero h = refl
drop_short [] ys (suc k) h = absurd (omega (arith, h))
drop_short (x ∷ xs) ys (suc k) h = drop_short xs ys k (omega arith)

pub length-drop : (xs : Bytes) (k : ℕ) → length (drop k xs) ≡ length xs - k
length-drop xs zero = omega arith
length-drop [] (suc k) = omega arith
length-drop (x ∷ xs) (suc k) = omega (arith, length-drop xs k)

pub take_all : (xs : Bytes) → take (length xs) xs ≡ xs
take_all [] = refl
take_all (x ∷ xs) = ap (λ l. x ∷ l) (take_all xs)

pub drop_all : (xs : Bytes) → drop (length xs) xs ≡ []
drop_all [] = refl
drop_all (x ∷ xs) = drop_all xs

pub length-take : (k : ℕ) (xs : Bytes) → k ≤ length xs → length (take k xs) ≡ k
length-take zero xs h = refl
length-take (suc k) [] h = ground arith
length-take (suc k) (x ∷ xs) h = ground (arith, length-take k xs)
