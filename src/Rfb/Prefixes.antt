-- ===== src/Rfb/Prefixes.antt =====
-- What is read of a tile is the same when more bytes follow those of the tile.
use hop_desk.Bytes.{Bytes}
use hop_desk.Rfb.Canvas.{Pixels, Colour, byte_at, fill_rgba, pixel_to_rgba}
use hop_desk.Common.{
  Bool, Option, [], ap, arith, false, get_elem?, if◌then◌else◌, length, min, none, refl, some, suc,
  true, zero, ℕ, ◌%◌, ◌*◌, ◌++◌, ◌+◌, ◌-◌, ◌/◌, ◌<◌, ◌∷◌, ◌≡◌, ◌≤◌, ◌∙◌,
}
use hop_desk.Rfb.Hextile.{
  Tile, tile_subs, colours_end, has_bit, subs_count, subs_start, tile_drawn, tile_end,
}
use hop_desk.Rfb.{or_zero, u8, HextileState, bit}

-- A value that a condition guards.
guarded {ℓ} :
    {A : Type ℓ} (b : Bool) (x y z : A)
    → (b ≡ true → x ≡ y)
    → (if b then x else z) ≡ (if b then y else z)
guarded true x y z e = e refl
guarded false x y z e = refl

-- What is read of a tile lies before its end.
background_there : (sub n : ℕ) → subs_start sub ≤ n → bit 1 sub ≡ true → 1 + 4 ≤ n
background_there sub n l e = ground arith

foreground_there : (sub n : ℕ) → subs_start sub ≤ n → bit 2 sub ≡ true → 1 + has_bit 1 sub 4 + 4 ≤ n
foreground_there sub n l e = ground arith

count_there : (sub n : ℕ) → subs_start sub ≤ n → bit 3 sub ≡ true → colours_end sub < n
count_there sub n l e = ground arith

module _ (more : Bytes) where
  get_elem?-prefix :
      (bs : Bytes) (i : ℕ) → i < length bs → get_elem? (bs ++ more) i ≡ get_elem? bs i
  get_elem?-prefix [] i l = ground arith
  get_elem?-prefix (b ∷ bs) zero l = refl
  get_elem?-prefix (b ∷ bs) (suc i) l = get_elem?-prefix bs i (omega (arith, l))

  pub u8-prefix : (bs : Bytes) (i : ℕ) → i < length bs → u8 (bs ++ more) i ≡ u8 bs i
  u8-prefix bs i l = ap or_zero (get_elem?-prefix bs i l)

  byte_at-prefix : (bs : Bytes) (i : ℕ) → i < length bs → byte_at (bs ++ more) i ≡ byte_at bs i
  byte_at-prefix bs i l =
      ap (λ (o : Option ℕ). elim o [ none ↦ 0 | some n ↦ n ]) (get_elem?-prefix bs i l)

  pixel-prefix :
      (bs : Bytes) (i : ℕ) → i + 4 ≤ length bs → pixel_to_rgba (bs ++ more) i ≡ pixel_to_rgba bs i
  unfolding pixel_to_rgba
  pixel-prefix bs i l = λ d. record {
    red = byte_at-prefix bs (i + 2) (omega (arith, l)) d;
    green = byte_at-prefix bs (i + 1) (omega (arith, l)) d;
    blue = byte_at-prefix bs i (omega (arith, l)) d;
  }

  -- What one subrectangle of a tile leaves, by its colour and its two bytes.
  abbrev one_sub : Tile → Colour → (xy wh : ℕ) → Pixels → Pixels
  one_sub t colour xy wh out =
      fill_rgba out t.stride (t.tx + xy / 16) (t.ty + xy % 16) (min (wh / 16 + 1) (t.tw - xy / 16))
        (min (wh % 16 + 1) (t.th - xy % 16)) colour

  tile_subs-prefix :
      (t : Tile) (bs : Bytes) (coloured : Bool) (fg : Colour) (count pos : ℕ) (out : Pixels)
      → pos + count * (if coloured then 6 else 2) ≤ length bs
      → tile_subs t (bs ++ more) coloured fg count pos out
        ≡ tile_subs t bs coloured fg count pos out
  unfolding tile_subs
  tile_subs-prefix t bs coloured fg zero pos out l = refl
  tile_subs-prefix t bs true fg (suc count) pos out l =
      let xy = u8-prefix bs (pos + 4) (omega (arith, l)) in
      let wh = u8-prefix bs (pos + 4 + 1) (omega (arith, l)) in
      let colour = pixel-prefix bs pos (omega (arith, l)) in
      tile_subs-prefix t bs true fg count (pos + 4 + 2) _ (omega (arith, l))
      ∙ (λ d. tile_subs t bs true fg count (pos + 4 + 2) (one_sub t (colour d) (xy d) (wh d) out))
  tile_subs-prefix t bs false fg (suc count) pos out l =
      let xy = u8-prefix bs pos (omega (arith, l)) in
      let wh = u8-prefix bs (pos + 1) (omega (arith, l)) in
      tile_subs-prefix t bs false fg count (pos + 2) _ (omega (arith, l))
      ∙ (λ d. tile_subs t bs false fg count (pos + 2) (one_sub t fg (xy d) (wh d) out))

  subs_count-prefix :
      (sub : ℕ) (bs : Bytes)
      → subs_start sub ≤ length bs
      → subs_count sub (bs ++ more) ≡ subs_count sub bs
  subs_count-prefix sub bs l =
      guarded (bit 3 sub) _ _ 0 (λ e. u8-prefix bs (colours_end sub) (count_there sub _ l e))

  pub tile_end-prefix :
      (sub : ℕ) (bs : Bytes)
      → subs_start sub ≤ length bs
      → tile_end sub (bs ++ more) ≡ tile_end sub bs
  tile_end-prefix sub bs l =
      ap (λ (n : ℕ). subs_start sub + n * (if bit 4 sub then 6 else 2)) (subs_count-prefix sub bs l)

  pub tile_drawn-prefix :
      (t : Tile) (sub : ℕ) (bs : Bytes) (h : HextileState)
      → subs_start sub ≤ length bs
      → tile_end sub bs ≤ length bs
      → tile_drawn t sub (bs ++ more) h ≡ tile_drawn t sub bs h
  unfolding tile_drawn
  tile_drawn-prefix t sub bs h l m =
      λ d. record { out = (first ∙ rest) d; tile = suc h.tile; bg = bg d; fg = fg d }
    where
      bg :
          (if bit 1 sub then pixel_to_rgba (bs ++ more) 1 else h.bg)
          ≡ (if bit 1 sub then pixel_to_rgba bs 1 else h.bg)
      bg = guarded (bit 1 sub) _ _ h.bg (λ e. pixel-prefix bs 1 (background_there sub _ l e))

      fg :
          (if bit 2 sub then pixel_to_rgba (bs ++ more) (1 + has_bit 1 sub 4) else h.fg)
          ≡ (if bit 2 sub then pixel_to_rgba bs (1 + has_bit 1 sub 4) else h.fg)
      fg =
          guarded (bit 2 sub) _ _ h.fg
            (λ e. pixel-prefix bs (1 + has_bit 1 sub 4) (foreground_there sub _ l e))

      old : Pixels
      old =
          fill_rgba h.out t.stride t.tx t.ty t.tw t.th
            (if bit 1 sub then pixel_to_rgba (bs ++ more) 1 else h.bg)

      first :
          tile_subs t
            (bs ++ more)
            (bit 4 sub)
            (if bit 2 sub then pixel_to_rgba (bs ++ more) (1 + has_bit 1 sub 4) else h.fg)
            (subs_count sub (bs ++ more))
            (subs_start sub)
            old
          ≡ tile_subs t bs
              (bit 4 sub)
              (if bit 2 sub then pixel_to_rgba (bs ++ more) (1 + has_bit 1 sub 4) else h.fg)
              (subs_count sub (bs ++ more))
              (subs_start sub)
              old
      first =
          tile_subs-prefix t bs (bit 4 sub) _ (subs_count sub (bs ++ more)) (subs_start sub) old
            (omega (arith, m, tile_end-prefix sub bs l))

      rest :
          tile_subs t bs
            (bit 4 sub)
            (if bit 2 sub then pixel_to_rgba (bs ++ more) (1 + has_bit 1 sub 4) else h.fg)
            (subs_count sub (bs ++ more))
            (subs_start sub)
            old
          ≡ (tile_drawn t sub bs h).out
      rest = λ d.
          tile_subs t bs (bit 4 sub) (fg d) (subs_count-prefix sub bs l d) (subs_start sub)
            (fill_rgba h.out t.stride t.tx t.ty t.tw t.th (bg d))
