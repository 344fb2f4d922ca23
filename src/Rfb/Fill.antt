-- ===== src/Rfb/Fill.antt =====
-- What `fillRgba` leaves at each byte of a picture. A pixel of four bytes has its index over the
-- whole picture, row by row.
use native.Mathlib.Nat.{mul-le-mul_left}
use hop_desk.Rfb.Canvas.{Pixels, Colour, fill_row, write_pixel, fill_rgba}
use hop_desk.Common.{
  Bool, arith, if◌then◌else◌, leb, ltb, suc, zero, ℕ, ◌&&◌, ◌*◌, ◌+◌, ◌<◌, ◌==◌, ◌≡◌, ap, false,
  refl, true, ◌∙◌, ◌≤◌, ◌⊎◌, inl, inr,
}
use hop_desk.Rfb.Sizes.{size-fill_row, size-write_pixel}

abbrev pub component : ℕ → Colour → ℕ
component zero c = c.red
component (suc zero) c = c.green
component (suc (suc zero)) c = c.blue
component (suc (suc (suc k))) c = 255

abbrev pub within : (start count at : ℕ) → Bool
within start count at = leb start at && ltb at (start + count)

write_pixel-at :
    (c : Colour) (i p q k : ℕ) (out : Pixels)
    → i ≡ p * 4
    → k < 4
    → q * 4 + k < out.size
    → (write_pixel c i out).at (q * 4 + k) ≡ (if p == q then component k c else out.at (q * 4 + k))
unfolding write_pixel
write_pixel-at c i p q zero out e l s = ground arith
write_pixel-at c i p q (suc zero) out e l s = ground arith
write_pixel-at c i p q (suc (suc zero)) out e l s = ground arith
write_pixel-at c i p q (suc (suc (suc zero))) out e l s = ground arith
write_pixel-at c i p q (suc (suc (suc (suc k)))) out e l s = ground arith

widen :
    (p w q v x y : ℕ)
    → y ≡ (if p == q then v else x)
    → (if within (p + 1) w q then v else y) ≡ (if within p (suc w) q then v else x)
widen p w q v x y e = ground arith

fill_row-at :
    (c : Colour) (w i p q k : ℕ) (out : Pixels)
    → i ≡ p * 4
    → k < 4
    → q * 4 + k < out.size
    → (fill_row c w i out).at (q * 4 + k)
      ≡ (if within p w q then component k c else out.at (q * 4 + k))
unfolding fill_row
fill_row-at c zero i p q k out e l s = ground arith
fill_row-at c (suc w) i p q k out e l s =
    fill_row-at c w (i + 4) (p + 1) q k (write_pixel c i out) (omega (arith, e)) l
      (omega (arith, s, size-write_pixel c i out))
    ∙ widen p w q (component k c) (out.at (q * 4 + k)) ((write_pixel c i out).at (q * 4 + k))
        (write_pixel-at c i p q k out e l s)

pub row_above : (y py stride : ℕ) → y < py → y * stride + stride ≤ py * stride
row_above y py stride l =
    let product : stride * (y + 1) ≤ stride * py = mul-le-mul_left stride (omega (arith, l)) in
    omega (arith, product)

apart :
    (y py a b stride x w px : ℕ)
    → px < stride
    → w ≡ 0 ⊎ x + w ≤ stride
    → (y < py × a + stride ≤ b) ⊎ (py < y × b + stride ≤ a)
    → within (a + x) w (b + px) ≡ (y == py) && within x w px
apart y py a b stride x w px l fits rows = ground arith

level :
    (y py a b x w px : ℕ) → y ≡ py → a ≡ b → within (a + x) w (b + px) ≡ (y == py) && within x w px
level y py a b x w px e f = ground arith

-- A row of a rectangle that ends within the stride holds the pixels of its row and columns.
within-row :
    (stride x y w px py : ℕ)
    → px < stride
    → w ≡ 0 ⊎ x + w ≤ stride
    → within (y * stride + x) w (py * stride + px) ≡ (y == py) && within x w px
within-row stride x y w px py l fits = elim compared [
  | inl below ↦
      let r = row_above y py stride below in
      apart y py (y * stride) (py * stride) stride x w px l fits (inl (below, r))
  | inr (inl same) ↦
      level y py (y * stride) (py * stride) x w px same (ap (λ (n : ℕ). n * stride) same)
  | inr (inr above) ↦
      let r = row_above py y stride above in
      apart y py (y * stride) (py * stride) stride x w px l fits (inr (above, r))
]
  where
    compared : y < py ⊎ y ≡ py ⊎ py < y
    compared = ground arith

abbrev pub in_area : (x y w h px py : ℕ) → Bool
in_area x y w h px py = within y h py && within x w px

lower :
    (b : Bool) (y py h v a z : ℕ)
    → z ≡ (if y == py && b then v else a)
    → (if within (y + 1) h py && b then v else z) ≡ (if within y (suc h) py && b then v else a)
lower true y py h v a z e = ground arith
lower false y py h v a z e = ground arith

-- A pixel of a picture has a colour: the rectangle's when it is in it, or what it had.
pub fill_rgba-at :
    (out : Pixels) (stride x y w h : ℕ) (c : Colour) (px py k : ℕ)
    → px < stride
    → w ≡ 0 ⊎ x + w ≤ stride
    → k < 4
    → (py * stride + px) * 4 + k < out.size
    → (fill_rgba out stride x y w h c).at ((py * stride + px) * 4 + k)
      ≡ (if in_area x y w h px py then component k c else out.at ((py * stride + px) * 4 + k))
unfolding fill_rgba
fill_rgba-at out stride x y w zero c px py k l fits l4 s = ground arith
fill_rgba-at out stride x y w (suc h) c px py k l fits l4 s =
    let q = py * stride + px in
    let row = fill_row c w ((y * stride + x) * 4) out in
    fill_rgba-at row stride x (y + 1) w h c px py k l fits l4
      (omega (arith, s, size-fill_row c w ((y * stride + x) * 4) out))
    ∙ lower (within x w px) y py h (component k c) (out.at (q * 4 + k)) (row.at (q * 4 + k)) (
        fill_row-at c w ((y * stride + x) * 4) (y * stride + x) q k out refl l4 s
        ∙ ap (λ (b : Bool). if b then component k c else out.at (q * 4 + k))
            (within-row stride x y w px py l fits))
