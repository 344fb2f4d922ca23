-- ===== src/Limiter/Counts.antt =====
-- The attempts of the limiter that are still open, over all peers and for one record.
use hop_desk.Common.{
  ℕ, zero, suc, ◌+◌, ◌≡◌, refl, true, false, some, List, [], ◌∷◌, ◌++◌, arith, if◌then◌else◌, ◌==◌,
  get_elem?, set,
}
use hop_desk.Limiter.{Attempt}

abbrev pub weight : Attempt → ℕ
weight a = if a.settled then 0 else 1

abbrev pub weight_at : ℕ → Attempt → ℕ
weight_at r a = if a.target == r then weight a else 0

unfoldable pub open_in : List Attempt → ℕ
open_in [] = 0
open_in (a ∷ as') = weight a + open_in as'

unfoldable pub open_at : ℕ → List Attempt → ℕ
open_at r [] = 0
open_at r (a ∷ as') = weight_at r a + open_at r as'

pub open_in-nil : open_in [] ≡ 0
unfolding open_in
open_in-nil = refl

pub open_at-nil : (r : ℕ) → open_at r [] ≡ 0
unfolding open_at
open_at-nil r = refl

pub open_in-append :
    (xs : List Attempt) (a : Attempt) → open_in (xs ++ a ∷ []) ≡ open_in xs + weight a
unfolding open_in
open_in-append [] a = omega arith
open_in-append (x ∷ xs) a = omega (arith, open_in-append xs a)

pub open_at-append :
    (r : ℕ) (xs : List Attempt) (a : Attempt)
    → open_at r (xs ++ a ∷ []) ≡ open_at r xs + weight_at r a
unfolding open_at
open_at-append r [] a = omega arith
open_at-append r (x ∷ xs) a = omega (arith, open_at-append r xs a)

-- Settling an open attempt takes one off.
pub open_in-set :
    (xs : List Attempt) (i : ℕ) (a : Attempt)
    → get_elem? xs i ≡ some a
    → a.settled ≡ false
    → open_in (set xs i (record a { settled = true })) + 1 ≡ open_in xs
unfolding open_in
open_in-set [] i a e h = ground arith
open_in-set (x ∷ xs) zero a e h = ground arith
open_in-set (x ∷ xs) (suc i) a e h = omega (arith, open_in-set xs i a e h)

pub open_at-set :
    (r : ℕ) (xs : List Attempt) (i : ℕ) (a : Attempt)
    → get_elem? xs i ≡ some a
    → a.settled ≡ false
    → open_at r (set xs i (record a { settled = true })) + (if a.target == r then 1 else 0)
      ≡ open_at r xs
unfolding open_at
open_at-set r [] i a e h = ground arith
open_at-set r (x ∷ xs) zero a e h = ground arith
open_at-set r (x ∷ xs) (suc i) a e h = omega (arith, open_at-set r xs i a e h)
