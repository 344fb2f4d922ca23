-- ===== src/Rfb/Sizes.antt =====
-- Drawing never changes the size of a picture.
use hop_desk.Rfb.{RectHead, HextileState, bit, u8}
use hop_desk.Bytes.{Bytes, take, drop, length-drop}
use hop_desk.Common.{
  Bool, Option, arith, if_both, length, ltb, min, none, refl, some, suc, zero, ℕ, ◌&&◌, ◌*◌, ◌+◌,
  ◌-◌, ◌||◌, ◌∙◌, ◌≡◌, ◌≤◌,
}
use hop_desk.Rfb.Canvas.{
  Colour, Pixels, bgra_to_rgba, blank, decode_rre, fill_rgba, fill_row, long_at, pixel_to_rgba,
  rre_sub, rre_subs, word_at, write, write_pixel,
}
use hop_desk.Rfb.Hextile.{
  Tile, after_tile, copy_bytes, copy_rows, read_tile, read_tiles, subs_count, subs_start,
  tile_copied, tile_drawn, tile_end, tile_of, tile_subs, tile_with,
}

pub size-write_pixel : (c : Colour) (i : ℕ) (out : Pixels) → (write_pixel c i out).size ≡ out.size
unfolding write_pixel
size-write_pixel c i out = refl

pub size-fill_row : (c : Colour) (w i : ℕ) (out : Pixels) → (fill_row c w i out).size ≡ out.size
unfolding fill_row write_pixel
size-fill_row c zero i out = refl
size-fill_row c (suc w) i out = size-fill_row c w (i + 4) (write_pixel c i out)

pub size-fill_rgba :
    (out : Pixels) (stride x y w h : ℕ) (c : Colour)
    → (fill_rgba out stride x y w h c).size ≡ out.size
unfolding fill_rgba
size-fill_rgba out stride x y w zero c = refl
size-fill_rgba out stride x y w (suc h) c =
    size-fill_rgba (fill_row c w ((y * stride + x) * 4) out) stride x (y + 1) w h c
    ∙ size-fill_row c w ((y * stride + x) * 4) out

pub size-rre_sub :
    (block : Bytes) (width height pos : ℕ) (out : Pixels)
    → (rre_sub block width height pos out).size ≡ out.size
unfolding rre_sub
size-rre_sub block width height pos out =
    if_both (λ (p : Pixels). p.size ≡ out.size)
      (ltb 0 (min (word_at block (pos + 8)) (width - word_at block (pos + 4)))
        && ltb 0 (min (word_at block (pos + 10)) (height - word_at block (pos + 6))))
      (size-fill_rgba out width (word_at block (pos + 4)) (word_at block (pos + 6))
        (min (word_at block (pos + 8)) (width - word_at block (pos + 4)))
        (min (word_at block (pos + 10)) (height - word_at block (pos + 6)))
        (pixel_to_rgba block pos))
      refl

size-rre_subs :
    (block : Bytes) (width height count pos : ℕ) (out : Pixels)
    → (rre_subs block width height count pos out).size ≡ out.size
unfolding rre_subs
size-rre_subs block width height zero pos out = refl
size-rre_subs block width height (suc count) pos out =
    size-rre_subs block width height count (pos + 12) (rre_sub block width height pos out)
    ∙ size-rre_sub block width height pos out

pub size-decode_rre :
    (block : Bytes) (width height : ℕ) → (decode_rre block width height).size ≡ width * height * 4
unfolding decode_rre
size-decode_rre block width height =
    let ground' = blank (width * height * 4) in
    size-rre_subs block width height (long_at block 0) 8
      (fill_rgba ground' width 0 0 width height (pixel_to_rgba block 4))
    ∙ size-fill_rgba ground' width 0 0 width height (pixel_to_rgba block 4)

pub size-bgra_to_rgba : (src : Bytes) → (bgra_to_rgba src).size ≡ length src
unfolding bgra_to_rgba
size-bgra_to_rgba src = refl

size-copy_bytes :
    (src : Pixels) (from n at : ℕ) (out : Pixels) → (copy_bytes src from n at out).size ≡ out.size
unfolding copy_bytes
size-copy_bytes src from zero at out = refl
size-copy_bytes src from (suc n) at out =
    size-copy_bytes src (from + 1) n (at + 1) (write at (src.at from) out)

size-copy_rows :
    (t : Tile) (src : Pixels) (row rows : ℕ) (out : Pixels)
    → (copy_rows t src row rows out).size ≡ out.size
unfolding copy_rows
size-copy_rows t src row zero out = refl
size-copy_rows t src row (suc rows) out =
    let at = ((t.ty + row) * t.stride + t.tx) * 4 in
    size-copy_rows t src (row + 1) rows (copy_bytes src (row * t.tw * 4) (t.tw * 4) at out)
    ∙ size-copy_bytes src (row * t.tw * 4) (t.tw * 4) at out

size-tile_subs :
    (t : Tile) (buf : Bytes) (coloured : Bool) (fg : Colour) (count pos : ℕ) (out : Pixels)
    → (tile_subs t buf coloured fg count pos out).size ≡ out.size
unfolding tile_subs
size-tile_subs t buf coloured fg zero pos out = refl
size-tile_subs t buf coloured fg (suc count) pos out =
    size-tile_subs t buf coloured fg count _ _ ∙ size-fill_rgba out t.stride _ _ _ _ _

size-tile_drawn :
    (t : Tile) (sub : ℕ) (buf : Bytes) (h : HextileState)
    → (tile_drawn t sub buf h).out.size ≡ h.out.size
unfolding tile_drawn
size-tile_drawn t sub buf h =
    size-tile_subs t buf (bit 4 sub) _ (subs_count sub buf) (subs_start sub) _
    ∙ size-fill_rgba h.out t.stride t.tx t.ty t.tw t.th _

size-tile_copied :
    (t : Tile) (buf : Bytes) (h : HextileState) → (tile_copied t buf h).out.size ≡ h.out.size
unfolding tile_copied
size-tile_copied t buf h =
    size-copy_rows t (bgra_to_rgba (take (t.tw * t.th * 4) (drop 1 buf))) 0 t.th h.out

-- A tile that is decoded leaves a picture of the same size.
abbrev pub SameSize : HextileState → Option (HextileState × ℕ) → Type 0
SameSize h none = Unit {0}
SameSize h (some (h', used)) = h'.out.size ≡ h.out.size

read_tile-SameSize :
    (r : RectHead) (h : HextileState) (buf : Bytes) → SameSize h (read_tile r h buf)
unfolding read_tile tile_with
read_tile-SameSize r h buf =
    let t = tile_of r h.tile in
    let sub = u8 buf 0 in
    if_both (SameSize h) (ltb (length buf) 1) tt (
      if_both (SameSize h) (bit 0 sub)
        (if_both (SameSize h) (ltb (length buf) (1 + t.tw * t.th * 4)) tt
          (size-tile_copied t buf h))
        (if_both (SameSize h)
          (ltb (length buf) (subs_start sub) || ltb (length buf) (tile_end sub buf)) tt
          (size-tile_drawn t sub buf h)))

-- What holds of the tiles that are left: the size stays, and the buffer does not grow.
pub read_tiles_lem :
    (r : RectHead) (k : ℕ) (h : HextileState) (buf : Bytes)
    → ((read_tiles r k h buf).0.out.size ≡ h.out.size)
      × (length (read_tiles r k h buf).1 ≤ length buf)
unfolding read_tiles
read_tiles_lem r zero h buf = (refl, omega arith)
read_tiles_lem r (suc k) h buf =
    step (read_tile r h buf) (read_tile-SameSize r h buf)
      (λ h' used. read_tiles_lem r k h' (drop used buf))
  where
    step :
        (o : Option (HextileState × ℕ))
        → SameSize h o
        → ((h' : HextileState) (used : ℕ)
            → ((read_tiles r k h' (drop used buf)).0.out.size ≡ h'.out.size)
              × (length (read_tiles r k h' (drop used buf)).1 ≤ length (drop used buf)))
        → let e = after_tile o (h, buf) (λ h' used. read_tiles r k h' (drop used buf)) in
          (e.0.out.size ≡ h.out.size) × (length e.1 ≤ length buf)
    step none s again = (refl, omega arith)
    step (some (h', used)) s again =
        let rest = again h' used in (rest.0 ∙ s, omega (arith, rest.1, length-drop buf used))
