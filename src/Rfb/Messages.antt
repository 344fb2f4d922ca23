-- ===== src/Rfb/Messages.antt =====
-- packages/core/src/protocols/rfb.ts: messages of the server, and the rounds that a chunk of data
-- sets off.
use hop_desk.Rfb.{
  RfbClient, RfbState, Runtime, Turn, auth, goes, init, note, ready, result, security, security33,
  shows_clipboard, throws, u16, u32, u8, version, when_there, with_block,
}
use hop_desk.Bytes.{Bytes, drop}
use hop_desk.Common.{
  Bool, Option, false, if◌then◌else◌, leb, length, ltb, none, some, suc, true, zero, ℕ, ◌++◌, ◌+◌,
  ◌-◌, ◌==◌, ◌||◌,
}
use hop_desk.Rfb.Clipboard.{clip_max_bytes, read_extended_clipboard}
use hop_desk.Rfb.Rects.{count_down, read_rect}
use hop_desk.Rfb.Output.{fail}
use hop_desk.Rfb.Opening.{
  read_auth_challenge, read_security, read_security33, read_security_result, read_server_init,
  read_version,
}

unfoldable pub begin_update : Bytes → RfbClient → RfbClient
begin_update head c =
    count_down (record c { rects_left = u16 head 2; had_content = false; announced_layout = false })

-- The size of a clipboard text: the length is a signed word, and a negative one is of the extended
-- clipboard.
abbrev pub is_negative : ℕ → Bool
is_negative len = leb 2_147_483_648 len

abbrev pub text_size : ℕ → ℕ
text_size len = if is_negative len then 4_294_967_296 - len else len

module _ (runtime : Runtime) where
  unfoldable pub show_cut_text : (len : ℕ) → Bytes → RfbClient → RfbClient
  show_cut_text len body c =
      if is_negative len
      then read_extended_clipboard runtime body c
      else note (shows_clipboard (runtime.latin1_text body)) c

  unfoldable pub read_cut_text : RfbClient → Turn
  read_cut_text c =
      let len = u32 c.buffer 4 in
      when_there 8 c (
        if ltb clip_max_bytes (text_size len)
        then throws c
        else with_block (8 + text_size len) c
            (λ block c'. goes (show_cut_text len (drop 8 block) c')))

  -- A FramebufferUpdate, a bell, a text, the end of continuous updates, or a stream out of step.
  unfoldable pub message_of : (type : ℕ) → RfbClient → Turn
  message_of type c =
      if type == 0
      then with_block 4 c (λ head c'. goes (begin_update head c'))
      else if type == 2 || type == 150
      then with_block 1 c (λ head c'. goes c')
      else if type == 3
      then read_cut_text c
      else throws c

  unfoldable pub read_message : RfbClient → Turn
  read_message c =
      if ltb 0 c.rects_left then read_rect c else when_there 1 c (message_of (u8 c.buffer 0) c)

  unfoldable pub read_in : RfbState → RfbClient → Turn
  read_in version c = read_version c
  read_in security c = read_security c
  read_in security33 c = read_security33 c
  read_in auth c = read_auth_challenge runtime c
  read_in result c = read_security_result c
  read_in init c = read_server_init runtime c
  read_in ready c = read_message c

  -- `drain`, of so many rounds at most: none when they do not do.
  abbrev pub after_round : Turn → (before : ℕ) → (RfbClient → Option Turn) → Option Turn
  after_round (throws c) before again = some (throws c)
  after_round (goes c) before again = elim (length c.buffer == before) [
    | true ↦ some (goes c)
    | false ↦ again c
  ]

  unfoldable pub drain : (rounds : ℕ) → RfbClient → Option Turn
  drain zero c = none
  drain (suc n) c = after_round (read_in c.state c) (length c.buffer) (drain n)

  abbrev pub settled : Option Turn → RfbClient → RfbClient
  settled none c = c
  settled (some (goes c')) c = c'
  settled (some (throws c')) c = fail c'

  -- The listener of `data`: one round more than there are bytes is enough.
  unfoldable pub on_data : (chunk : Bytes) → RfbClient → RfbClient
  on_data chunk c =
      let c' = record c { buffer = c.buffer ++ chunk } in
      settled (drain (suc (length c'.buffer)) c') c'
