-- ===== src/Rfb/Rre.antt =====
-- What RRE means, apart from how it is decoded: each pixel shows the last of the subrectangles that
-- cover it, and the background when none does.
use hop_desk.Bytes.{Bytes}
use hop_desk.Rfb.Canvas.{
  Pixels, Colour, blank, decode_rre, fill_rgba, long_at, pixel_to_rgba, rre_sub, rre_subs, word_at,
}
use hop_desk.Common.{
  Bool, List, [], ap, arith, false, if◌then◌else◌, inr, ltb, min, refl, suc, true, zero, ℕ, ◌&&◌,
  ◌*◌, ◌+◌, ◌-◌, ◌<◌, ◌∙◌, ◌∷◌, ◌≡◌, ◌≤◌, ◌⊎◌,
}
use hop_desk.Rfb.Fill.{component, fill_rgba-at, in_area, row_above}
use hop_desk.Rfb.Sizes.{size-fill_rgba, size-rre_sub}

-- A subrectangle as the server sends it: it may reach over the edges.
pub record Sub : Type 0 where
  pub colour : Colour
  pub x : ℕ
  pub y : ℕ
  pub width : ℕ
  pub height : ℕ

abbrev pub sub_at : Bytes → (pos : ℕ) → Sub
sub_at block pos = record {
  colour = pixel_to_rgba block pos;
  x = word_at block (pos + 4);
  y = word_at block (pos + 6);
  width = word_at block (pos + 8);
  height = word_at block (pos + 10);
}

unfoldable pub subs_at : Bytes → (count pos : ℕ) → List Sub
subs_at block zero pos = []
subs_at block (suc count) pos = sub_at block pos ∷ subs_at block count (pos + 12)

abbrev pub covers : Sub → (px py : ℕ) → Bool
covers s px py = in_area s.x s.y s.width s.height px py

unfoldable pub shown : List Sub → Colour → (px py : ℕ) → Colour
shown [] under px py = under
shown (s ∷ ss) under px py = shown ss (if covers s px py then s.colour else under) px py

-- Within the picture, a subrectangle that is cut off at the edges covers the same pixels.
clipped :
    (x y w h width height px py v a : ℕ)
    → px < width
    → py < height
    → let w' = min w (width - x) in
      let h' = min h (height - y) in
      (if ltb 0 w' && ltb 0 h' then (if in_area x y w' h' px py then v else a) else a)
      ≡ (if in_area x y w h px py then v else a)
clipped x y w h width height px py v a l m = ground arith

fits_width : (w x width : ℕ) → min w (width - x) ≡ 0 ⊎ x + min w (width - x) ≤ width
fits_width w x width = ground arith

component_if :
    (b : Bool) (k : ℕ) (c d : Colour)
    → (if b then component k c else component k d) ≡ component k (if b then c else d)
component_if true k c d = refl
component_if false k c d = refl

rre_sub-at :
    (block : Bytes) (width height pos px py k : ℕ) (out : Pixels)
    → px < width
    → py < height
    → k < 4
    → (py * width + px) * 4 + k < out.size
    → (rre_sub block width height pos out).at ((py * width + px) * 4 + k) ≡ (
        if covers (sub_at block pos) px py
        then component k (pixel_to_rgba block pos)
        else out.at ((py * width + px) * 4 + k))
unfolding rre_sub
rre_sub-at block width height pos px py k out l m l4 s =
    let i = (py * width + px) * 4 + k in
    let b = sub_at block pos in
    let w = min b.width (width - b.x) in
    let h = min b.height (height - b.y) in
    if_at (ltb 0 w && ltb 0 h) (fill_rgba out width b.x b.y w h b.colour) out i
    ∙ ap (λ (n : ℕ). if ltb 0 w && ltb 0 h then n else out.at i)
        (fill_rgba-at out width b.x b.y w h b.colour px py k l (fits_width b.width b.x width) l4 s)
    ∙ clipped b.x b.y b.width b.height width height px py (component k b.colour) (out.at i) l m
  where
    if_at :
        (b : Bool) (p q : Pixels) (i : ℕ)
        → (if b then p else q).at i ≡ (if b then p.at i else q.at i)
    if_at true p q i = refl
    if_at false p q i = refl

rre_subs-at :
    (block : Bytes) (width height count pos px py k : ℕ) (out : Pixels) (under : Colour)
    → px < width
    → py < height
    → k < 4
    → (py * width + px) * 4 + k < out.size
    → out.at ((py * width + px) * 4 + k) ≡ component k under
    → (rre_subs block width height count pos out).at ((py * width + px) * 4 + k)
      ≡ component k (shown (subs_at block count pos) under px py)
unfolding rre_subs subs_at shown
rre_subs-at block width height zero pos px py k out under l m l4 s e = e
rre_subs-at block width height (suc count) pos px py k out under l m l4 s e =
    let b = sub_at block pos in
    let out' = rre_sub block width height pos out in
    rre_subs-at block width height count (pos + 12) px py k out'
      (if covers b px py then b.colour else under) l m l4
      (omega (arith, s, size-rre_sub block width height pos out))
      (rre_sub-at block width height pos px py k out l m l4 s
        ∙ ap (λ (n : ℕ). if covers b px py then component k b.colour else n) e
        ∙ component_if (covers b px py) k b.colour under)

index_fits :
    (px py width height k : ℕ)
    → px < width
    → py < height
    → k < 4
    → (py * width + px) * 4 + k < width * height * 4
index_fits px py width height k l m l4 =
    let r = row_above py height width m in omega (arith, r, l, l4)

-- For each pixel within the rectangle and each of its four bytes: the decoder leaves there the colour
-- of the last subrectangle that covers the pixel, in the order in which they are sent, and the
-- background's when none does, although it cuts each subrectangle off at the edges.
pub decode_rre-shown :
    (block : Bytes) (width height px py k : ℕ)
    → px < width
    → py < height
    → k < 4
    → (decode_rre block width height).at ((py * width + px) * 4 + k)
      ≡ component k (shown (subs_at block (long_at block 0) 8) (pixel_to_rgba block 4) px py)
unfolding decode_rre
decode_rre-shown block width height px py k l m l4 =
    let bg = pixel_to_rgba block 4 in
    let start = fill_rgba (blank (width * height * 4)) width 0 0 width height bg in
    let i = index_fits px py width height k l m l4 in
    rre_subs-at block width height (long_at block 0) 8 px py k start bg l m l4
      (omega (arith, i, size-fill_rgba (blank (width * height * 4)) width 0 0 width height bg))
      (fill_rgba-at (blank (width * height * 4)) width 0 0 width height bg px py k l
          (inr (omega arith)) l4 i
        ∙ whole (component k bg))
  where
    whole : (v : ℕ) → (if in_area 0 0 width height px py then v else 0) ≡ v
    whole v = ground arith
