-- ===== src/Rfb/Hextile.antt =====
-- packages/core/src/protocols/rfb.ts: `readHextile`. A tile is decoded when all of it is there.
use hop_desk.Bytes.{Bytes, take, drop}
use hop_desk.Rfb.{RfbClient, RectHead, HextileState, bit, u8}
use hop_desk.Rfb.Canvas.{Pixels, Colour, blank, write, fill_rgba, pixel_to_rgba, bgra_to_rgba}
use hop_desk.Common.{
  Bool, Option, if◌then◌else◌, leb, length, ltb, min, none, some, suc, zero, ℕ, ◌%◌, ◌*◌, ◌+◌, ◌-◌,
  ◌/◌, ◌||◌,
}

abbrev pub ceil16 : ℕ → ℕ
ceil16 n = (n + 15) / 16

-- Where a tile is, and its size.
pub record Tile : Type 0 where
  pub stride : ℕ
  pub tx : ℕ
  pub ty : ℕ
  pub tw : ℕ
  pub th : ℕ

unfoldable pub tile_of : RectHead → (tile : ℕ) → Tile
tile_of r tile =
    let cols = ceil16 r.width in
    let tx = tile % cols * 16 in
    let ty = tile / cols * 16 in
    record {
      stride = r.width;
      tx = tx;
      ty = ty;
      tw = min 16 (r.width - tx);
      th = min 16 (r.height - ty);
    }

-- `pixels.copy(out, at, from, from + n)`
unfoldable pub copy_bytes : Pixels → (from n at : ℕ) → Pixels → Pixels
copy_bytes src from zero at out = out
copy_bytes src from (suc n) at out =
    copy_bytes src (from + 1) n (at + 1) (write at (src.at from) out)

unfoldable pub copy_rows : Tile → Pixels → (row rows : ℕ) → Pixels → Pixels
copy_rows t src row zero out = out
copy_rows t src row (suc rows) out =
    copy_rows t src (row + 1) rows
      (copy_bytes src (row * t.tw * 4) (t.tw * 4) (((t.ty + row) * t.stride + t.tx) * 4) out)

-- The subrectangles from `pos` on; `coloured` is whether each has its own colour.
unfoldable pub tile_subs :
    Tile → Bytes → (coloured : Bool) → Colour → (count pos : ℕ) → Pixels → Pixels
tile_subs t buf coloured fg zero pos out = out
tile_subs t buf coloured fg (suc count) pos out =
    let colour = if coloured then pixel_to_rgba buf pos else fg in
    let at = if coloured then pos + 4 else pos in
    let xy = u8 buf at in
    let wh = u8 buf (at + 1) in
    let sx = xy / 16 in
    let sy = xy % 16 in
    tile_subs t buf coloured fg count (at + 2) (
      fill_rgba out t.stride (t.tx + sx) (t.ty + sy) (min (wh / 16 + 1) (t.tw - sx))
        (min (wh % 16 + 1) (t.th - sy)) colour)

-- The bytes that a tile which is not raw takes, as far as the buffer shows: up to its colours, up to
-- its count, and all of it.
abbrev pub has_bit : ℕ → ℕ → ℕ → ℕ
has_bit k sub n = if bit k sub then n else 0

abbrev pub colours_end : ℕ → ℕ
colours_end sub = 1 + has_bit 1 sub 4 + has_bit 2 sub 4

abbrev pub subs_start : ℕ → ℕ
subs_start sub = colours_end sub + has_bit 3 sub 1

abbrev pub subs_count : ℕ → Bytes → ℕ
subs_count sub buf = has_bit 3 sub (u8 buf (colours_end sub))

abbrev pub tile_end : ℕ → Bytes → ℕ
tile_end sub buf = subs_start sub + subs_count sub buf * (if bit 4 sub then 6 else 2)

unfoldable pub tile_drawn : Tile → (sub : ℕ) → Bytes → HextileState → HextileState
tile_drawn t sub buf h =
    let bg = if bit 1 sub then pixel_to_rgba buf 1 else h.bg in
    let fg = if bit 2 sub then pixel_to_rgba buf (1 + has_bit 1 sub 4) else h.fg in
    record {
      out =
          tile_subs t buf (bit 4 sub) fg (subs_count sub buf) (subs_start sub)
            (fill_rgba h.out t.stride t.tx t.ty t.tw t.th bg);
      tile = suc h.tile;
      bg = bg;
      fg = fg;
    }

unfoldable pub tile_copied : Tile → Bytes → HextileState → HextileState
tile_copied t buf h = record h {
  out = copy_rows t (bgra_to_rgba (take (t.tw * t.th * 4) (drop 1 buf))) 0 t.th h.out;
  tile = suc h.tile;
}

-- One tile at the front of the buffer, with the first byte: what is decoded and what it took, if all
-- of it is there.
unfoldable pub tile_with : (sub : ℕ) → RectHead → HextileState → Bytes → Option (HextileState × ℕ)
tile_with sub r h buf =
    let t = tile_of r h.tile in
    let raw_end = 1 + t.tw * t.th * 4 in
    if bit 0 sub
    then (if ltb (length buf) raw_end then none else some (tile_copied t buf h, raw_end))
    else if ltb (length buf) (subs_start sub) || ltb (length buf) (tile_end sub buf)
    then none
    else some (tile_drawn t sub buf h, tile_end sub buf)

unfoldable pub read_tile : RectHead → HextileState → Bytes → Option (HextileState × ℕ)
read_tile r h buf = if ltb (length buf) 1 then none else tile_with (u8 buf 0) r h buf

abbrev pub after_tile : {R : Type 0} → Option (HextileState × ℕ) → R → (HextileState → ℕ → R) → R
after_tile none stop go = stop
after_tile (some (h, used)) stop go = go h used

-- The tiles that are left, `k` of them, as far as the buffer goes, and the rest of the buffer.
unfoldable pub read_tiles : RectHead → (k : ℕ) → HextileState → Bytes → HextileState × Bytes
read_tiles r zero h buf = (h, buf)
read_tiles r (suc k) h buf =
    after_tile (read_tile r h buf) (h, buf) (λ h' used. read_tiles r k h' (drop used buf))

abbrev pub tiles_of : RectHead → ℕ
tiles_of r = ceil16 r.width * ceil16 r.height

abbrev pub hextile_or_new : RectHead → Option HextileState → HextileState
hextile_or_new r (some h) = h
hextile_or_new r none =
    let black : Colour = record { red = 0; green = 0; blue = 0 } in
    record { out = blank (r.width * r.height * 4); tile = 0; bg = black; fg = black }

-- `readHextile`: the client with the decoder's state, and whether every tile is decoded.
unfoldable pub read_hextile : RectHead → RfbClient → RfbClient × Bool
read_hextile r c =
    let h = hextile_or_new r c.hextile in
    let done = read_tiles r (tiles_of r - h.tile) h c.buffer in
    (record c { hextile = some done.0; buffer = done.1 }, leb (tiles_of r) done.0.tile)
