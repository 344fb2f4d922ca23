-- ===== src/Rfb/Finishing.antt =====
-- The end of a rectangle, and a new layout or size of the screen, keep what Keeping says.
use hop_desk.Rfb.{
  RfbClient, Area, HextileState, RectHead, RemoteScreen, RfbEvent, ServerInfo, note,
  resize_rejected, resizes, sends, shows_screens, update_ends, RfbState, auth, init, ready, result,
  security, security33, version,
}
use hop_desk.Rfb.Keeping.{
  Fits, IsSized, Keeps, Keeps-note, Keeps-same, Keeps-trans, View, if-Keeps, view, Prepared,
}
use hop_desk.Common.{
  Bool, List, Option, arith, false, if_both, none, not, refl, some, subst, true, ◌&&◌, ◌-◌, ◌==◌,
  ◌≡◌, ◌≢◌, is_some,
}
use hop_desk.Rfb.Rects.{
  count_down, end_update, end_with, finish_rect, finish_with, is_other_size, layout, repeated,
  take_layout, resized,
}
use hop_desk.Rfb.Output.{request_update, request_with}

pub count_down-Keeps : (c : RfbClient) → Keeps (view c) (view (count_down c))
unfolding end_update request_update
count_down-Keeps c =
    if-Keeps (c.rects_left == 0) (end_update c) c (ended (repeated c.last_request c))
      (Keeps-same (view c))
  where
    requested :
        (area : Area) (info : Option ServerInfo)
        → Keeps
            (view c)
            (view (request_with true (some area) info (record c { announced_layout = false })))
    requested area none = Keeps-same (view c)
    requested area (some info) = Keeps-note (sends _) c tt

    ended : (o : Option Area) → Keeps (view c) (view (end_with o c))
    ended none = Keeps-note update_ends c tt
    ended (some area) = requested area c.info

unfit :
    (r : RectHead) (tiles : Option HextileState)
    → r.encoding ≢ 5
    → Fits (some r) tiles
    → Fits none tiles
unfit r none ne f = tt
unfit r (some h) ne f = absurd (ne f.0)

-- A rectangle that is not of tiles is done with: there is no decoder then.
done-Keeps :
    (r : RectHead) (v : View)
    → r.encoding ≢ 5
    → v.pending ≡ some r
    → Keeps v (record v { pending = none })
done-Keeps r v ne e = record {
  shorter = omega arith;
  sound = λ s.
      (s.0, unfit r v.tiles ne (subst (λ (p : Option RectHead). Fits p v.tiles) e s.1), s.2, s.3);
}

pub finish_rect-Keeps :
    (r : RectHead) (c : RfbClient)
    → r.encoding ≢ 5
    → c.pending_rect ≡ some r
    → Keeps (view c) (view (finish_rect c))
unfolding finish_rect
finish_rect-Keeps r c ne e =
    Keeps-trans (done-Keeps r (view c) ne e)
      (count_down-Keeps (record c { pending_rect = none; rects_left = c.rects_left - 1 }))

pub finish_with-Keeps :
    (r : RectHead) (x : RfbEvent) (c : RfbClient)
    → r.encoding ≢ 5
    → c.pending_rect ≡ some r
    → IsSized x
    → Keeps (view c) (view (finish_with x c))
unfolding finish_with
finish_with-Keeps r x c ne e sized =
    let c' : RfbClient = record c {
      pending_rect = none;
      rects_left = c.rects_left - 1;
      had_content = true;
    } in
    Keeps-trans (done-Keeps r (view c) ne e)
      (Keeps-trans (Keeps-note x c' sized) (count_down-Keeps (note x c')))

-- The screen has another size, and is still there.
pub resized-Keeps :
    (r : RectHead) (c : RfbClient) → Keeps (view c) (view (record c { info = resized r c.info }))
resized-Keeps r c = record {
  shorter = omega arith;
  sound = λ s. (s.0, s.1, still c.state c.info s.2, s.3);
}
  where
    still_there : (info : Option ServerInfo) → is_some info ≡ true → is_some (resized r info) ≡ true
    still_there none e = e
    still_there (some i) e = refl

    still :
        (s : RfbState) (info : Option ServerInfo)
        → Prepared s c.password info
        → Prepared s c.password (resized r info)
    still ready info p = still_there info p
    still auth info p = p
    still version info p = p
    still security info p = p
    still security33 info p = p
    still result info p = p
    still init info p = p

-- A layout touches neither the rectangle nor the decoder.
pub layout_lem :
    (r : RectHead) (screens : List RemoteScreen) (c : RfbClient)
    → Keeps (view c) (view (layout r screens c))
      × ((layout r screens c).pending_rect ≡ c.pending_rect)
unfolding layout
layout_lem r screens c =
    if_both (λ (d : RfbClient). Keeps (view c) (view d) × (d.pending_rect ≡ c.pending_rect))
      (r.x == 1 && not (r.y == 0)) (Keeps-note (resize_rejected r.y) c tt, refl)
      (taken (is_other_size r c.info))
  where
    c' : RfbClient
    c' = record c { screens = some screens; info = resized r c.info }

    shown : Keeps (view c) (view (note (shows_screens screens) c'))
    shown = Keeps-trans (resized-Keeps r c) (Keeps-note (shows_screens screens) c' tt)

    taken :
        (changed : Bool)
        → Keeps (view c) (view (take_layout changed r screens c))
          × ((take_layout changed r screens c).pending_rect ≡ c.pending_rect)
    taken false = (shown, refl)
    taken true = (
      Keeps-trans shown
          (Keeps-note (resizes r.width r.height) (note (shows_screens screens) c') tt),
      refl,
    )
