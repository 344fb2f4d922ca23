-- ===== src/Rfb/Drawing.antt =====
-- The handlers of rectangles keep what Keeping says: a picture is as large as its rectangle, and the
-- decoder of tiles is never left to another rectangle.
use hop_desk.Rfb.Finishing.{
  count_down-Keeps, finish_rect-Keeps, finish_with-Keeps, layout_lem, resized-Keeps,
}
use hop_desk.Bytes.{Bytes, drop}
use hop_desk.Rfb.{
  RfbClient, HextileState, RectHead, Turn, copies, dropped, note, paints, resizes, u16, u32, u8,
}
use hop_desk.Rfb.Keeping.{
  After, Fits, Keeps, Keeps-note, Keeps-same, Keeps-trans, Sound, View, dropped-After, if-Keeps,
  view, went, when_there-After, with_block-After, AllSized-snoc, then-After, threw, Told-snoc,
}
use hop_desk.Common.{
  Bool, Option, arith, false, if_cases, if◌then◌else◌, leb, length, none, refl, some, subst,
  subst⁻¹, true, ◌*◌, ◌+◌, ◌-◌, ◌==◌, ◌∙◌, ◌≡◌, ◌≢◌, ◌≤◌,
}
use hop_desk.Rfb.Canvas.{bgra_to_rgba, decode_rre}
use hop_desk.Rfb.Rects.{
  count_down, finish_with, layout, read_copy, read_layout, read_raw, read_rre, read_screens,
  read_size, read_tiled, read_rect, rect_body, rect_head, with_pending, resized,
}
use hop_desk.Rfb.Hextile.{hextile_or_new, read_hextile, read_tiles, tiles_of}
use hop_desk.Rfb.Sizes.{read_tiles_lem, size-bgra_to_rgba, size-decode_rre}

by_cases-After :
    {v : View} (b : Bool) {s t : Turn}
    → (b ≡ true → After v s)
    → (b ≡ false → After v t)
    → After v (if b then s else t)
by_cases-After {v} b k l = if_cases (After v) b k l

read_layout-After :
    (r : RectHead) (c : RfbClient)
    → r.encoding ≢ 5
    → c.pending_rect ≡ some r
    → After (view c) (read_layout r c)
unfolding read_layout
read_layout-After r c ne e =
    let count = u8 c.buffer 0 in
    let n = 4 + count * 16 in
    when_there-After 4 c (
      with_block-After n c _ (λ b len le.
        let screens = read_screens count (drop 4 b) in
        let kept = layout_lem r screens (dropped n c) in
        dropped-After n c (
          went (
            Keeps-trans kept.0
              (finish_rect-Keeps r (layout r screens (dropped n c)) ne (kept.1 ∙ e))))))

read_size-After :
    (r : RectHead) (c : RfbClient)
    → r.encoding ≢ 5
    → c.pending_rect ≡ some r
    → After (view c) (read_size r c)
unfolding read_size
read_size-After r c ne e =
    let c' : RfbClient = record c { info = resized r c.info; had_content = true } in
    went (
      Keeps-trans (resized-Keeps r c) (
        Keeps-trans (Keeps-note (resizes r.width r.height) c' tt)
          (finish_rect-Keeps r (note (resizes r.width r.height) c') ne e)))

read_raw-After :
    (r : RectHead) (c : RfbClient)
    → r.encoding ≢ 5
    → c.pending_rect ≡ some r
    → After (view c) (read_raw r c)
unfolding read_raw
read_raw-After r c ne e =
    let n = r.width * r.height * 4 in
    with_block-After n c _ (λ b len le. dropped-After n c (
      went (
        finish_with-Keeps r (paints r (bgra_to_rgba b)) (dropped n c) ne e
          (size-bgra_to_rgba b ∙ len))))

read_copy-After :
    (r : RectHead) (c : RfbClient)
    → r.encoding ≢ 5
    → c.pending_rect ≡ some r
    → After (view c) (read_copy r c)
unfolding read_copy
read_copy-After r c ne e = with_block-After 4 c _ (λ b len le.
    dropped-After 4 c
      (went (finish_with-Keeps r (copies r (u16 b 0) (u16 b 2)) (dropped 4 c) ne e tt)))

read_rre-After :
    (r : RectHead) (c : RfbClient)
    → r.encoding ≢ 5
    → c.pending_rect ≡ some r
    → After (view c) (read_rre r c)
unfolding read_rre
read_rre-After r c ne e =
    let n = 8 + u32 c.buffer 0 * 12 in
    when_there-After 8 c (
      with_block-After n c _ (λ b len le. dropped-After n c (
        went (
          finish_with-Keeps r (paints r (decode_rre b r.width r.height)) (dropped n c) ne e
            (size-decode_rre b r.width r.height)))))

-- The decoder of the rectangle, the one that is there or a new one, has its size.
decoder-size :
    (r : RectHead) (pending : Option RectHead) (tiles : Option HextileState)
    → pending ≡ some r
    → Fits pending tiles
    → (hextile_or_new r tiles).out.size ≡ r.width * r.height * 4
decoder-size r pending none e f = refl
decoder-size r pending (some h) e f = (subst (λ (p : Option RectHead). Fits p (some h)) e f).1

read_tiled-After :
    (r : RectHead) (c : RfbClient)
    → r.encoding ≡ 5
    → c.pending_rect ≡ some r
    → After (view c) (read_tiled r c)
unfolding read_tiled read_hextile finish_with
read_tiled-After r c five e = went (
    if-Keeps (leb (tiles_of r) done.0.tile) _ _
      (record {
        shorter = omega (arith, rest.1, ended.shorter);
        sound = λ s. ended.sound (
          AllSized-snoc c.log (paints r done.0.out) s.0 (sized s),
          tt,
          s.2,
          Told-snoc c.closed c.log (paints r done.0.out) s.3,
        );
      })
      (record {
        shorter = rest.1;
        sound = λ s. (
          s.0,
          subst⁻¹ (λ (p : Option RectHead). Fits p (some done.0)) e (five, sized s),
          s.2,
          s.3,
        );
      }))
  where
    start : HextileState
    start = hextile_or_new r c.hextile

    done : HextileState × Bytes
    done = read_tiles r (tiles_of r - start.tile) start c.buffer

    rest : (done.0.out.size ≡ start.out.size) × (length done.1 ≤ length c.buffer)
    rest = read_tiles_lem r (tiles_of r - start.tile) start c.buffer

    sized : Sound (view c) → done.0.out.size ≡ r.width * r.height * 4
    sized s = rest.0 ∙ decoder-size r c.pending_rect c.hextile e s.1

    ended :
        let d = note (paints r done.0.out) (record c {
          buffer = done.1;
          hextile = none;
          pending_rect = none;
          rects_left = c.rects_left - 1;
          had_content = true;
        }) in
        Keeps (view d) (view (count_down d))
    ended = count_down-Keeps _

rect_body-After :
    (r : RectHead) (c : RfbClient) → c.pending_rect ≡ some r → After (view c) (rect_body r c)
unfolding rect_body
rect_body-After r c e =
    by_cases-After (r.encoding == 4_294_966_988)
      (λ h. read_layout-After r c (λ five. ground arith) e)
      (λ _.
        by_cases-After (r.encoding == 4_294_967_073)
          (λ h. read_size-After r c (λ five. ground arith) e)
          (λ _.
            by_cases-After (r.encoding == 0) (λ h. read_raw-After r c (λ five. ground arith) e)
              (λ _.
                by_cases-After (r.encoding == 1) (λ h. read_copy-After r c (λ five. ground arith) e)
                  (λ _.
                    by_cases-After (r.encoding == 2)
                      (λ h. read_rre-After r c (λ five. ground arith) e)
                      (λ _.
                        by_cases-After (r.encoding == 5)
                          (λ h. read_tiled-After r c (ground arith) e)
                          (λ _. threw (Keeps-same (view c))))))))

-- A rectangle begins with no decoder.
fit_new : (r : RectHead) (tiles : Option HextileState) → Fits none tiles → Fits (some r) tiles
fit_new r none f = tt
fit_new r (some h) f = absurd f

begin-Keeps : (r : RectHead) (v : View) → v.pending ≡ none → Keeps v (record v { pending = some r })
begin-Keeps r v e = record {
  shorter = omega arith;
  sound = λ s.
      (s.0, fit_new r v.tiles (subst (λ (p : Option RectHead). Fits p v.tiles) e s.1), s.2, s.3);
}

pub read_rect-After : (c : RfbClient) → After (view c) (read_rect c)
unfolding read_rect
read_rect-After c = with_pending-After c.pending_rect refl
  where
    with_pending-After :
        (p : Option RectHead) → c.pending_rect ≡ p → After (view c) (with_pending p c)
    with_pending-After (some r) e = rect_body-After r c e
    with_pending-After none e = with_block-After 12 c _ (λ b len le.
        let r = rect_head b in
        dropped-After 12 c (
          then-After (begin-Keeps r (view (dropped 12 c)) e)
            (rect_body-After r (record (dropped 12 c) { pending_rect = some r }) refl)))
