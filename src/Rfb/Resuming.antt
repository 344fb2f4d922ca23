-- ===== src/Rfb/Resuming.antt =====
-- A Hextile rectangle that arrives in pieces: decoding goes on where the buffer ended.
use hop_desk.Rfb.Prefixes.{u8-prefix, tile_drawn-prefix, tile_end-prefix}
use hop_desk.Bytes.{Bytes, take, drop, length-drop, drop_short, take_short}
use hop_desk.Rfb.Canvas.{bgra_to_rgba}
use hop_desk.Common.{
  Bool, Option, ap, arith, false, if◌then◌else◌, length, none, refl, some, suc, true, zero, ℕ, ◌*◌,
  ◌++◌, ◌+◌, ◌-◌, ◌≡◌, ◌≤◌, ◌∙◌, ltb, ◌||◌, if_cases, if_false, length-append, or_false, subst⁻¹,
  leb,
}
use hop_desk.Rfb.Hextile.{
  Tile, subs_start, tile_drawn, tile_end, tile_copied, tile_of, copy_rows, read_tile, read_tiles,
  tile_with, after_tile, hextile_or_new, read_hextile, tiles_of,
}
use hop_desk.Rfb.{u8, HextileState, bit, RectHead, RfbClient}

not_below : (n m : ℕ) → ltb n m ≡ false → m ≤ n
not_below n m e = ground arith

at_least : (n m : ℕ) → m ≤ n → ltb n m ≡ false
at_least n m l = ground arith

neither : (n a b : ℕ) → a ≤ n → b ≤ n → ltb n a || ltb n b ≡ false
neither n a b l m = ground arith

module _ (more : Bytes) where
  -- A tile that is decoded is decoded alike when more bytes follow, and it took none of these.
  abbrev Stable :
      Bytes → HextileState → Option (HextileState × ℕ) → Option (HextileState × ℕ) → Type 0
  Stable bs h none o = Unit {0}
  Stable bs h (some (h', used)) o =
      (o ≡ some (h', used)) × used ≤ length bs × (h'.tile ≡ suc h.tile)

  guarded-Stable :
      (bs : Bytes) (h h' h'' : HextileState) (used used' : ℕ) (b c : Bool)
      → (b ≡ false
          → (c ≡ false) × (h'' ≡ h') × (used' ≡ used) × used ≤ length bs × (h'.tile ≡ suc h.tile))
      → Stable bs h (if b then none else some (h', used)) (if c then none else some (h'', used'))
  guarded-Stable bs h h' h'' used used' true c k = tt
  guarded-Stable bs h h' h'' used used' false c k =
      let e = k refl in
      (if_false c none (some (h'', used')) e.0 ∙ (λ d. some (e.1 d, e.2 d)), e.3, e.4)

  longer : (bs : Bytes) → length bs ≤ length (bs ++ more)
  longer bs = omega (arith, length-append bs more)

  raw-prefix :
      (bs : Bytes) (n : ℕ) → 1 + n ≤ length bs → take n (drop 1 (bs ++ more)) ≡ take n (drop 1 bs)
  raw-prefix bs n l =
      ap (take n) (drop_short bs more 1 (omega (arith, l)))
      ∙ take_short (drop 1 bs) more n (omega (arith, l, length-drop bs 1))

  tile_copied-prefix :
      (t : Tile) (bs : Bytes) (h : HextileState)
      → 1 + t.tw * t.th * 4 ≤ length bs
      → tile_copied t (bs ++ more) h ≡ tile_copied t bs h
  unfolding tile_copied
  tile_copied-prefix t bs h l =
      ap
        (λ (b : Bytes). record h {
          out = copy_rows t (bgra_to_rgba b) 0 t.th h.out;
          tile = suc h.tile;
        })
        (raw-prefix bs (t.tw * t.th * 4) l)

  tile_with-Stable :
      (sub : ℕ) (r : RectHead) (h : HextileState) (bs : Bytes)
      → Stable bs h (tile_with sub r h bs) (tile_with sub r h (bs ++ more))
  unfolding tile_with tile_copied tile_drawn
  tile_with-Stable sub r h bs = of_bit (bit 0 sub)
    where
      t : Tile
      t = tile_of r h.tile

      end : ℕ
      end = 1 + t.tw * t.th * 4

      raw :
          ltb (length bs) end ≡ false
          → (ltb (length (bs ++ more)) end ≡ false)
            × (tile_copied t (bs ++ more) h ≡ tile_copied t bs h)
            × (end ≡ end)
            × end ≤ length bs
            × (suc h.tile ≡ suc h.tile)
      raw e =
          let l = longer bs in
          (ground arith, tile_copied-prefix t bs h (ground arith), refl, ground arith, refl)

      drawn :
          ltb (length bs) (subs_start sub) || ltb (length bs) (tile_end sub bs) ≡ false
          → (ltb (length (bs ++ more)) (subs_start sub)
                || ltb (length (bs ++ more)) (tile_end sub (bs ++ more))
              ≡ false)
            × (tile_drawn t sub (bs ++ more) h ≡ tile_drawn t sub bs h)
            × (tile_end sub (bs ++ more) ≡ tile_end sub bs)
            × tile_end sub bs ≤ length bs
            × (suc h.tile ≡ suc h.tile)
      drawn e =
          let both =
            or_false (ltb (length bs) (subs_start sub)) (ltb (length bs) (tile_end sub bs)) e in
          let l = longer bs in
          let m : subs_start sub ≤ length bs = not_below (length bs) (subs_start sub) both.0 in
          let n : tile_end sub bs ≤ length bs = not_below (length bs) (tile_end sub bs) both.1 in
          let same = tile_end-prefix more sub bs m in
          (
            neither (length (bs ++ more)) (subs_start sub) (tile_end sub (bs ++ more))
                (omega (arith, l, m)) (omega (arith, l, n, same)),
            tile_drawn-prefix more t sub bs h m n,
            same,
            n,
            refl,
          )

      of_bit :
          (b : Bool)
          → Stable bs h
              (if b
                then (if ltb (length bs) end then none else some (tile_copied t bs h, end))
                else if ltb (length bs) (subs_start sub) || ltb (length bs) (tile_end sub bs)
                then none
                else some (tile_drawn t sub bs h, tile_end sub bs))
              (if b
                then (if ltb (length (bs ++ more)) end
                    then none
                    else some (tile_copied t (bs ++ more) h, end))
                else if ltb (length (bs ++ more)) (subs_start sub)
                    || ltb (length (bs ++ more)) (tile_end sub (bs ++ more))
                then none
                else some (tile_drawn t sub (bs ++ more) h, tile_end sub (bs ++ more)))
      of_bit true =
          guarded-Stable bs h (tile_copied t bs h) (tile_copied t (bs ++ more) h) end end
            (ltb (length bs) end) (ltb (length (bs ++ more)) end) raw
      of_bit false =
          guarded-Stable bs h (tile_drawn t sub bs h) (tile_drawn t sub (bs ++ more) h)
            (tile_end sub bs) (tile_end sub (bs ++ more))
            (ltb (length bs) (subs_start sub) || ltb (length bs) (tile_end sub bs))
            (ltb (length (bs ++ more)) (subs_start sub)
              || ltb (length (bs ++ more)) (tile_end sub (bs ++ more)))
            drawn

  read_tile-Stable :
      (r : RectHead) (h : HextileState) (bs : Bytes)
      → Stable bs h (read_tile r h bs) (read_tile r h (bs ++ more))
  unfolding read_tile
  read_tile-Stable r h bs =
      if_cases (λ (o : Option (HextileState × ℕ)). Stable bs h o (read_tile r h (bs ++ more)))
        (ltb (length bs) 1) (λ e. tt)
        (λ e.
          let l = not_below (length bs) 1 e in
          subst⁻¹ (λ (o : Option (HextileState × ℕ)). Stable bs h (tile_with (u8 bs 0) r h bs) o)
            (if_false (ltb (length (bs ++ more)) 1) none _
                (at_least (length (bs ++ more)) 1 (omega (arith, l, longer bs)))
              ∙ ap (λ (sub : ℕ). tile_with sub r h (bs ++ more)) (u8-prefix more bs 0 l))
            (tile_with-Stable (u8 bs 0) r h bs))

  -- The tiles that are left are the same when the buffer goes on after the part that was decoded.
  read_tiles-resume :
      (r : RectHead) (k : ℕ) (h : HextileState) (bs : Bytes)
      → let e = read_tiles r k h bs in
        (read_tiles r k h (bs ++ more) ≡ read_tiles r (k - (e.0.tile - h.tile)) e.0 (e.1 ++ more))
        × h.tile ≤ e.0.tile
  unfolding read_tiles
  read_tiles-resume r zero h bs =
      let none_left : zero ≡ zero - (h.tile - h.tile) = omega arith in
      (ap (λ (n : ℕ). read_tiles r n h (bs ++ more)) none_left, omega arith)
  read_tiles-resume r (suc k) h bs =
      step (read_tile r h bs) (read_tile-Stable r h bs)
        (λ h' used. read_tiles-resume r k h' (drop used bs))
    where
      step :
          (o : Option (HextileState × ℕ))
          → Stable bs h o (read_tile r h (bs ++ more))
          → ((h' : HextileState) (used : ℕ)
              → let e = read_tiles r k h' (drop used bs) in
                (read_tiles r k h' (drop used bs ++ more)
                  ≡ read_tiles r (k - (e.0.tile - h'.tile)) e.0 (e.1 ++ more))
                × h'.tile ≤ e.0.tile)
          → let e = after_tile o (h, bs) (λ h' used. read_tiles r k h' (drop used bs)) in
            (read_tiles r (suc k) h (bs ++ more)
              ≡ read_tiles r (suc k - (e.0.tile - h.tile)) e.0 (e.1 ++ more))
            × h.tile ≤ e.0.tile
      step none s again =
          let all : suc k ≡ suc k - (h.tile - h.tile) = omega arith in
          (ap (λ (n : ℕ). read_tiles r n h (bs ++ more)) all, omega arith)
      step (some (h', used)) s again =
          let e = read_tiles r k h' (drop used bs) in
          let rest = again h' used in
          let left : k - (e.0.tile - h'.tile) ≡ suc k - (e.0.tile - h.tile) =
            omega (arith, s.2, rest.1) in
          (
            ap
                  (λ (o : Option (HextileState × ℕ)).
                    after_tile o (h, bs ++ more) (λ x n. read_tiles r k x (drop n (bs ++ more))))
                  s.0
                ∙ ap (read_tiles r k h') (drop_short bs more used s.1)
                ∙ rest.0
                ∙ ap (λ (n : ℕ). read_tiles r n e.0 (e.1 ++ more)) left,
            omega (arith, s.2, rest.1),
          )

-- A Hextile rectangle that arrives in pieces is decoded as one that arrives whole: what `readHextile`
-- leaves, and its answer, are those of a second call, made where the first one stopped when the rest
-- of the buffer has come.
pub read_hextile_resumes :
    (r : RectHead) (c : RfbClient) (more : Bytes)
    → let d = (read_hextile r c).0 in
      read_hextile r (record c { buffer = c.buffer ++ more })
      ≡ read_hextile r (record d { buffer = d.buffer ++ more })
unfolding read_hextile
read_hextile_resumes r c more =
    let h = hextile_or_new r c.hextile in
    let e = read_tiles r (tiles_of r - h.tile) h c.buffer in
    let rest = read_tiles-resume more r (tiles_of r - h.tile) h c.buffer in
    let left : tiles_of r - h.tile - (e.0.tile - h.tile) ≡ tiles_of r - e.0.tile =
      omega (arith, rest.1) in
    ap
      (λ (p : HextileState × Bytes).
        (record c { hextile = some p.0; buffer = p.1 }, leb (tiles_of r) p.0.tile))
      (rest.0 ∙ ap (λ (n : ℕ). read_tiles r n e.0 (e.1 ++ more)) left)
