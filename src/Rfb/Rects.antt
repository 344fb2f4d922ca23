-- ===== src/Rfb/Rects.antt =====
-- packages/core/src/protocols/rfb.ts: rectangles of a FramebufferUpdate, and the end of an update.
use hop_desk.Rfb.{
  RfbClient, Area, HextileState, RectHead, RemoteScreen, RfbEvent, ServerInfo, Turn, UpdateRequest,
  copies, goes, note, paints, resize_rejected, resizes, shows_screens, throws, u16, u32, u8,
  update_ends, when_there, with_block,
}
use hop_desk.Bytes.{Bytes, drop}
use hop_desk.Common.{
  Bool, List, Option, [], false, if◌then◌else◌, none, not, some, suc, true, zero, ℕ, ◌&&◌, ◌*◌, ◌+◌,
  ◌-◌, ◌==◌, ◌∷◌,
}
use hop_desk.Rfb.Canvas.{bgra_to_rgba, decode_rre}
use hop_desk.Rfb.Hextile.{read_hextile}
use hop_desk.Rfb.Output.{request_update}

unfoldable pub rect_head : Bytes → RectHead
rect_head b = record {
  x = u16 b 0;
  y = u16 b 2;
  width = u16 b 4;
  height = u16 b 6;
  encoding = u32 b 8;
}

-- The last request, if the update only announced a layout and the request was for all of its area.
abbrev pub repeated : Option UpdateRequest → RfbClient → Option Area
repeated none c = none
repeated (some last) c =
    if not c.had_content && c.announced_layout && not last.incremental then some last.area else none

abbrev pub end_with : Option Area → RfbClient → RfbClient
end_with none c = note update_ends c
end_with (some area) c = request_update true (some area) (record c { announced_layout = false })

unfoldable pub end_update : RfbClient → RfbClient
end_update c = end_with (repeated c.last_request c) c

abbrev pub count_down : RfbClient → RfbClient
count_down c = if c.rects_left == 0 then end_update c else c

unfoldable pub finish_rect : RfbClient → RfbClient
finish_rect c = count_down (record c { pending_rect = none; rects_left = c.rects_left - 1 })

-- `finishRect` of a rectangle, which is reported.
unfoldable pub finish_with : RfbEvent → RfbClient → RfbClient
finish_with e c =
    count_down
      (note e (record c { pending_rect = none; rects_left = c.rects_left - 1; had_content = true }))

unfoldable pub read_screens : (count : ℕ) → Bytes → List RemoteScreen
read_screens zero b = []
read_screens (suc n) b =
    record {
      id = u32 b 0;
      x = u16 b 4;
      y = u16 b 6;
      width = u16 b 8;
      height = u16 b 10;
      flags = u32 b 12;
    }
    ∷ read_screens n (drop 16 b)

abbrev pub resized : RectHead → Option ServerInfo → Option ServerInfo
resized r none = none
resized r (some info) = some (record info { width = r.width; height = r.height })

abbrev pub is_other_size : RectHead → Option ServerInfo → Bool
is_other_size r none = false
is_other_size r (some info) = not (info.width == r.width && info.height == r.height)

-- A layout that is not refused: `changed` is whether the size is another.
abbrev pub take_layout : (changed : Bool) → RectHead → List RemoteScreen → RfbClient → RfbClient
take_layout changed r screens c =
    let c' =
      note (shows_screens screens) (record c { screens = some screens; info = resized r c.info }) in
    if changed
    then note (resizes r.width r.height) (record c' { had_content = true })
    else record c' { announced_layout = true }

unfoldable pub layout : RectHead → List RemoteScreen → RfbClient → RfbClient
layout r screens c =
    if r.x == 1 && not (r.y == 0)
    then note (resize_rejected r.y) c
    else take_layout (is_other_size r c.info) r screens c

-- The encodings, one by one.
unfoldable pub read_layout : RectHead → RfbClient → Turn
read_layout r c =
    let count = u8 c.buffer 0 in
    when_there 4 c (
      with_block (4 + count * 16) c
        (λ block c'. goes (finish_rect (layout r (read_screens count (drop 4 block)) c'))))

unfoldable pub read_size : RectHead → RfbClient → Turn
read_size r c = goes (
    finish_rect
      (note (resizes r.width r.height) (record c { info = resized r c.info; had_content = true })))

unfoldable pub read_raw : RectHead → RfbClient → Turn
read_raw r c =
    with_block (r.width * r.height * 4) c
      (λ pixels c'. goes (finish_with (paints r (bgra_to_rgba pixels)) c'))

unfoldable pub read_copy : RectHead → RfbClient → Turn
read_copy r c = with_block 4 c (λ src c'. goes (finish_with (copies r (u16 src 0) (u16 src 2)) c'))

unfoldable pub read_rre : RectHead → RfbClient → Turn
read_rre r c = when_there 8 c (
    with_block (8 + u32 c.buffer 0 * 12) c
      (λ block c'. goes (finish_with (paints r (decode_rre block r.width r.height)) c')))

abbrev pub finish_hextile : RectHead → Option HextileState → RfbClient → RfbClient
finish_hextile r none c = c
finish_hextile r (some h) c = finish_with (paints r h.out) (record c { hextile = none })

unfoldable pub read_tiled : RectHead → RfbClient → Turn
read_tiled r c =
    let done = read_hextile r c in
    goes (if done.1 then finish_hextile r done.0.hextile done.0 else done.0)

unfoldable pub rect_body : RectHead → RfbClient → Turn
rect_body r c =
    if r.encoding == 4_294_966_988
    then read_layout r c
    else if r.encoding == 4_294_967_073
    then read_size r c
    else if r.encoding == 0
    then read_raw r c
    else if r.encoding == 1
    then read_copy r c
    else if r.encoding == 2
    then read_rre r c
    else if r.encoding == 5
    then read_tiled r c
    else throws c

abbrev pub with_pending : Option RectHead → RfbClient → Turn
with_pending (some r) c = rect_body r c
with_pending none c =
    with_block 12 c
      (λ head c'. rect_body (rect_head head) (record c' { pending_rect = some (rect_head head) }))

unfoldable pub read_rect : RfbClient → Turn
read_rect c = with_pending c.pending_rect c
