-- ===== src/Rfb/Tests.antt =====
-- Concrete runs of the client, of its decoders and of its cipher.
use hop_desk.Bytes.{Bytes, to_be, of_be_from}
use hop_desk.Encoding.{codes}
use hop_desk.Rfb.{
  Runtime, RfbClient, RfbEvent, Turn, new_client, paints, security33, u16, u32, update_ends,
  when_there, with_block, RectHead,
}
use hop_desk.Common.{
  [], refl, some, ◌∷◌, ◌≡◌, List, Option, arith, none, true, ℕ, ◌*◌, ◌+◌, ◌++◌, is_some, map,
}
use hop_desk.Rfb.Des.{
  des_encrypt_block, feistel, from_bits, permute, rotate_left, round_keys, rounds, subkeys,
  substitute, to_bits,
}
use hop_desk.Rfb.Keeping.{AllSized, Prepared}
use hop_desk.Rfb.Canvas.{
  Pixels, bgra_to_rgba, decode_rre, fill_rgba, fill_row, pixel_to_rgba, rre_sub, rre_subs,
  write_pixel,
}
use hop_desk.Rfb.Opening.{
  answer_version, choose_security, chosen33, denied, is_version, minor_of, offered_types,
  read_auth_challenge, read_security, read_security33, read_security_result, read_server_init,
  read_version, refused, refused33,
}
use hop_desk.Rfb.Messages.{
  begin_update, drain, message_of, on_data, read_cut_text, read_in, read_message, show_cut_text,
}
use hop_desk.Rfb.Fill.{component}
use hop_desk.Rfb.Hextile.{
  copy_bytes, copy_rows, read_hextile, read_tile, read_tiles, tile_copied, tile_drawn, tile_of,
  tile_subs, tile_with,
}
use hop_desk.Rfb.Rre.{decode_rre-shown, shown, subs_at}
use hop_desk.Rfb.Output.{
  disconnect, fail, request_desktop_size, request_update, send_key, send_pointer, set_encodings,
  set_pixel_format,
}
use hop_desk.Rfb.Painting.{run-AllSized, run-Prepared, drain_ends, on_timeout-settles}
use hop_desk.Rfb.Rects.{
  end_update, finish_rect, finish_with, layout, read_copy, read_layout, read_raw, read_rect,
  read_rre, read_screens, read_size, read_tiled, rect_body, rect_head,
}
use hop_desk.Rfb.Clipboard.{
  of_wire, provide_clipboard, read_extended_clipboard, send_client_cut_text, send_clipboard,
  send_extended_clipboard, to_wire, trim_nul,
}
use hop_desk.Rfb.Resuming.{read_hextile_resumes}
use hop_desk.Rfb.Connect.{gets, on_timeout, run, settles, step}

abbrev plain_runtime : Runtime
plain_runtime = record {
  utf8 = codes;
  text_of = λ b. "";
  latin1 = codes;
  latin1_text = λ b. "";
  inflate = λ b max_bytes. some b;
  deflate = λ b. b;
}

des_vector :
    des_encrypt_block
      (1 ∷ 35 ∷ 69 ∷ 103 ∷ 137 ∷ 171 ∷ 205 ∷ 239 ∷ [])
      (19 ∷ 52 ∷ 87 ∷ 121 ∷ 155 ∷ 188 ∷ 223 ∷ 241 ∷ [])
    ≡ 133 ∷ 232 ∷ 19 ∷ 84 ∷ 15 ∷ 10 ∷ 180 ∷ 5 ∷ []
unfolding to_bits from_bits permute rotate_left round_keys subkeys substitute feistel rounds
    des_encrypt_block
des_vector = refl

receiving : Unit {0}
unfolding tile_with answer_version begin_update bgra_to_rgba choose_security chosen33 copy_bytes
    copy_rows decode_rre denied disconnect drain end_update fail fill_rgba fill_row finish_rect
    finish_with is_version layout message_of minor_of new_client of_be_from of_wire offered_types
    on_data pixel_to_rgba provide_clipboard read_auth_challenge read_copy read_cut_text
    read_extended_clipboard read_hextile read_in read_layout read_message read_raw read_rect
    read_rre read_screens read_security read_security33 read_security_result read_server_init
    read_size read_tile read_tiled read_tiles read_version rect_body rect_head refused refused33
    request_desktop_size request_update rre_sub rre_subs send_client_cut_text send_clipboard
    send_extended_clipboard send_key send_pointer set_encodings set_pixel_format show_cut_text
    tile_copied tile_drawn tile_of tile_subs to_be to_wire trim_nul u16 u32 when_there with_block
    write_pixel step run settles on_timeout
receiving = tt

-- A server of one pixel that wants no password, in three chunks, and its first update, of a raw
-- rectangle.
abbrev demo_session : List Bytes
demo_session =
    (82 ∷ 70 ∷ 66 ∷ 32 ∷ 48 ∷ 48 ∷ 51 ∷ 46 ∷ 48 ∷ 48 ∷ 56 ∷ [])
    ∷ (10 ∷ 1 ∷ 1 ∷ 0 ∷ 0 ∷ 0 ∷ 0 ∷ 0 ∷ 1 ∷ 0 ∷ 1 ∷ 32 ∷ 24 ∷ 0 ∷ 1 ∷ 0 ∷ 0 ∷ 0 ∷ 0 ∷ 0 ∷ 0 ∷ 0 ∷ 0
        ∷ 0 ∷ 0 ∷ 0 ∷ 0 ∷ 0 ∷ 0 ∷ 0 ∷ 0 ∷ [])
    ∷ (0 ∷ 0 ∷ 0 ∷ 1 ∷ 0 ∷ 0 ∷ 0 ∷ 0 ∷ 0 ∷ 1 ∷ 0 ∷ 1 ∷ 0 ∷ 0 ∷ 0 ∷ 0 ∷ 7 ∷ 8 ∷ 9 ∷ 0 ∷ [])
    ∷ []

abbrev last_picture : List RfbEvent → Option Pixels
last_picture [] = none
last_picture (paints r p ∷ update_ends ∷ []) = some p
last_picture (e ∷ es) = last_picture es

abbrev at_start : Option Pixels → ℕ
at_start none = 0
at_start (some p) = p.at 0 * 65536 + p.at 1 * 256 + p.at 2

paints_pixel :
    at_start (last_picture (run plain_runtime (map gets demo_session) (new_client true none)).log)
    ≡ 9 * 65536 + 8 * 256 + 7
unfolding receiving
paints_pixel = refl

run-AllSized_example :
    AllSized (run plain_runtime (map gets demo_session) (new_client true none)).log
run-AllSized_example = run-AllSized plain_runtime (map gets demo_session) true none

run-Prepared_example :
    let c = run plain_runtime (map gets demo_session) (new_client true none) in
    Prepared c.state c.password c.info
run-Prepared_example = run-Prepared plain_runtime (map gets demo_session) true none

drain_ends_example :
    let c : RfbClient = record (new_client true none) {
      state = security33;
      buffer = 0 ∷ 0 ∷ 0 ∷ 1 ∷ 7 ∷ [];
    } in
    (t : Turn) × (drain plain_runtime 6 c ≡ some t)
unfolding new_client
drain_ends_example =
    drain_ends plain_runtime
      (record (new_client true none) { state = security33; buffer = 0 ∷ 0 ∷ 0 ∷ 1 ∷ 7 ∷ [] })

-- Two subrectangles on a background of three by two pixels; the second reaches over the edge.
abbrev demo_block : Bytes
demo_block =
    0 ∷ 0 ∷ 0 ∷ 2 ∷ 1 ∷ 2 ∷ 3 ∷ 0 ∷ 10 ∷ 20 ∷ 30 ∷ 0 ∷ 0 ∷ 0 ∷ 0 ∷ 0 ∷ 0 ∷ 2 ∷ 0 ∷ 2 ∷ 40 ∷ 50 ∷ 60
    ∷ 0 ∷ 0 ∷ 1 ∷ 0 ∷ 1 ∷ 0 ∷ 9 ∷ 0 ∷ 9 ∷ []

decode_rre-shown_example :
    (decode_rre demo_block 3 2).at 17
    ≡ component 1 (shown (subs_at demo_block 2 8) (pixel_to_rgba demo_block 4) 1 1)
unfolding of_be_from
decode_rre-shown_example =
    decode_rre-shown demo_block 3 2 1 1 1 (omega arith) (omega arith) (omega arith)

last_wins :
    shown (subs_at demo_block 2 8) (pixel_to_rgba demo_block 4) 1 1 ≡ pixel_to_rgba demo_block 20
unfolding shown subs_at pixel_to_rgba of_be_from
last_wins = refl

-- A rectangle of one tile, of a red background, with its colour in two pieces.
abbrev tile_head : RectHead
tile_head = record { x = 0; y = 0; width = 1; height = 1; encoding = 5 }

abbrev half_tile : RfbClient
half_tile = record (new_client true none) { buffer = 2 ∷ 0 ∷ 0 ∷ [] }

read_hextile_resumes_example :
    let d = (read_hextile tile_head half_tile).0 in
    read_hextile tile_head (record half_tile { buffer = half_tile.buffer ++ 255 ∷ 0 ∷ [] })
    ≡ read_hextile tile_head (record d { buffer = d.buffer ++ 255 ∷ 0 ∷ [] })
read_hextile_resumes_example = read_hextile_resumes tile_head half_tile (255 ∷ 0 ∷ [])

decodes_tile :
    let d = read_hextile tile_head (record half_tile { buffer = 2 ∷ 0 ∷ 0 ∷ 255 ∷ 0 ∷ [] }) in
    (d.1 ≡ true) × (d.0.buffer ≡ [])
unfolding receiving
decodes_tile = (refl, refl)

-- A server that says nothing.
on_timeout-settles_example :
    is_some (settles (on_timeout (run plain_runtime [] (new_client true none))).log) ≡ true
on_timeout-settles_example = on_timeout-settles plain_runtime [] true none
