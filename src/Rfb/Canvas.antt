-- ===== src/Rfb/Canvas.antt =====
-- packages/core/src/protocols/rfb.ts: pixels. A buffer that pixels are written to is its size and
-- what stands at each place; a write beyond the size does nothing, as on a `Buffer`.
use hop_desk.Bytes.{Bytes, take, drop, of_be}
use hop_desk.Common.{
  get_elem?, if◌then◌else◌, length, ltb, min, none, some, suc, zero, ℕ, ◌%◌, ◌&&◌, ◌*◌, ◌+◌, ◌-◌,
  ◌==◌,
}

pub record Pixels : Type 0 where
  pub size : ℕ
  pub at : ℕ → ℕ

-- The first three bytes of RGBA; the fourth is 255 wherever a colour is written.
pub record Colour : Type 0 where
  pub red : ℕ
  pub green : ℕ
  pub blue : ℕ

abbrev pub blank : ℕ → Pixels
blank size = record { size = size; at = λ i. 0 }

abbrev pub byte_at : Bytes → ℕ → ℕ
byte_at b i = elim (get_elem? b i) [ none ↦ 0 | some n ↦ n ]

abbrev pub write : ℕ → ℕ → Pixels → Pixels
write i v out = record {
  size = out.size;
  at = λ j. if ltb i out.size && j == i then v else out.at j;
}

unfoldable pub pixel_to_rgba : Bytes → ℕ → Colour
pixel_to_rgba b at = record {
  red = byte_at b (at + 2);
  green = byte_at b (at + 1);
  blue = byte_at b at;
}

unfoldable pub write_pixel : Colour → ℕ → Pixels → Pixels
write_pixel c i out =
    write (i + 3) 255 (write (i + 2) c.blue (write (i + 1) c.green (write i c.red out)))

-- The inner loop of `fillRgba`: `w` pixels from the byte `i` on.
unfoldable pub fill_row : Colour → (w i : ℕ) → Pixels → Pixels
fill_row c zero i out = out
fill_row c (suc w) i out = fill_row c w (i + 4) (write_pixel c i out)

unfoldable pub fill_rgba : Pixels → (stride x y w h : ℕ) → Colour → Pixels
fill_rgba out stride x y w zero c = out
fill_rgba out stride x y w (suc h) c =
    fill_rgba (fill_row c w ((y * stride + x) * 4) out) stride x (y + 1) w h c

abbrev pub word_at : Bytes → ℕ → ℕ
word_at b at = of_be (take 2 (drop at b))

abbrev pub long_at : Bytes → ℕ → ℕ
long_at b at = of_be (take 4 (drop at b))

-- One subrectangle of RRE at `pos`, cut off at the edges.
unfoldable pub rre_sub : Bytes → (width height pos : ℕ) → Pixels → Pixels
rre_sub block width height pos out =
    let x = word_at block (pos + 4) in
    let y = word_at block (pos + 6) in
    let w = min (word_at block (pos + 8)) (width - x) in
    let h = min (word_at block (pos + 10)) (height - y) in
    if ltb 0 w && ltb 0 h then fill_rgba out width x y w h (pixel_to_rgba block pos) else out

unfoldable pub rre_subs : Bytes → (width height count pos : ℕ) → Pixels → Pixels
rre_subs block width height zero pos out = out
rre_subs block width height (suc count) pos out =
    rre_subs block width height count (pos + 12) (rre_sub block width height pos out)

unfoldable pub decode_rre : Bytes → (width height : ℕ) → Pixels
decode_rre block width height =
    rre_subs block width height (long_at block 0) 8
      (fill_rgba (blank (width * height * 4)) width 0 0 width height (pixel_to_rgba block 4))

-- `bgraToRgba`, at each byte.
abbrev pub swapped : Bytes → ℕ → ℕ → ℕ
swapped src i zero = byte_at src (i + 2)
swapped src i (suc zero) = byte_at src i
swapped src i (suc (suc zero)) = byte_at src (i - 2)
swapped src i (suc (suc (suc k))) = 255

unfoldable pub bgra_to_rgba : Bytes → Pixels
bgra_to_rgba src = record {
  size = length src;
  at = λ i. if ltb i (length src) then swapped src i (i % 4) else 0;
}
