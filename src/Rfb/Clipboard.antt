-- ===== src/Rfb/Clipboard.antt =====
-- packages/core/src/protocols/rfb.ts: the extended clipboard. Flags are words: a text is bit 0, the
-- actions are bits 24 to 28.
use Prim.Native.Char.{code}
use Prim.Native.String.{◌++◌ as append}
use hop_desk.Bytes.{Bytes, take, drop, to_be}
use hop_desk.Encoding.{codes}
use hop_desk.Rfb.{RfbClient, Runtime, shows_clipboard, note, send, bit, u32}
use hop_desk.Common.{
  Bool, Option, String, [], false, if◌then◌else◌, leb, length, ltb, min, none, not, some, true, ℕ,
  ◌%◌, ◌&&◌, ◌*◌, ◌++◌, ◌+◌, ◌-◌, ◌/◌, ◌==◌, ◌∷◌,
}

abbrev pub clip_max_bytes : ℕ
clip_max_bytes = 10_485_760

abbrev pub clip_text : ℕ
clip_text = 1

abbrev pub clip_request : ℕ
clip_request = 33_554_432

abbrev pub clip_notify : ℕ
clip_notify = 134_217_728

abbrev pub clip_provide : ℕ
clip_provide = 268_435_456

-- `text.replace(/\r?\n/g, '\r\n')`; `after` is whether a carriage return was just put out.
unfoldable pub to_wire : (after : Bool) → String → String
to_wire after String.[] = ""
to_wire after (String.◌∷◌ c s) =
    if code c == 10 && not after
    then String.◌∷◌ "\r" (String.◌∷◌ c (to_wire false s))
    else String.◌∷◌ c (to_wire (code c == 13) s)

-- `text.replace(/\r\n/g, '\n')`
unfoldable pub of_wire : String → String
of_wire String.[] = ""
of_wire (String.◌∷◌ c String.[]) = String.◌∷◌ c String.[]
of_wire (String.◌∷◌ c (String.◌∷◌ d s)) =
    let rest = of_wire (String.◌∷◌ d s) in
    if code c == 13 && code d == 10 then rest else String.◌∷◌ c rest

abbrev pub all_nul : String → Bool
all_nul String.[] = true
all_nul (String.◌∷◌ c s) = code c == 0 && all_nul s

-- `text.replace(/\0+$/, '')`
unfoldable pub trim_nul : String → String
trim_nul String.[] = ""
trim_nul (String.◌∷◌ c s) = if all_nul (String.◌∷◌ c s) then "" else String.◌∷◌ c (trim_nul s)

-- Both length and payload of a negative `ClientCutText`.
unfoldable pub send_client_cut_text : Bytes → RfbClient → RfbClient
send_client_cut_text payload c =
    send (6 ∷ 0 ∷ 0 ∷ 0 ∷ to_be 4 (4_294_967_296 - length payload) ++ payload) c

unfoldable pub send_extended_clipboard : (flags : ℕ) → RfbClient → RfbClient
send_extended_clipboard flags c = send_client_cut_text (to_be 4 flags) c

module _ (runtime : Runtime) where
  abbrev pub provide_pending : Option String → RfbClient → RfbClient
  provide_pending none c = c
  provide_pending (some pending) c =
      let text = runtime.utf8 (append (to_wire false pending) "\0") in
      if ltb clip_max_bytes (length text)
      then c
      else send_client_cut_text
          (to_be 4 (clip_provide + clip_text) ++ runtime.deflate (to_be 4 (length text) ++ text)) c

  unfoldable pub provide_clipboard : RfbClient → RfbClient
  provide_clipboard c = provide_pending c.clip_pending c

  abbrev pub every_latin1 : Bytes → Bool
  every_latin1 [] = true
  every_latin1 (n ∷ ns) = leb n 255 && every_latin1 ns

  abbrev pub send_clipboard_with : String → Option ℕ → RfbClient → RfbClient × Bool
  send_clipboard_with text none c =
      let body = runtime.latin1 text in
      (send (6 ∷ 0 ∷ 0 ∷ 0 ∷ to_be 4 (length body) ++ body) c, every_latin1 (codes text))
  send_clipboard_with text (some actions) c =
      let offered = record c { clip_pending = some text } in
      (
        if bit 27 actions
            then send_extended_clipboard (clip_notify + clip_text) offered
            else if bit 28 actions
            then provide_clipboard offered
            else offered,
        true,
      )

  -- The client, and whether the text goes over intact.
  unfoldable pub send_clipboard : String → RfbClient → RfbClient × Bool
  send_clipboard text c = send_clipboard_with text c.clip_actions c

  abbrev pub inflated : Option Bytes → RfbClient → RfbClient
  inflated none c = c
  inflated (some raw) c =
      let size = min (u32 raw 0) (length raw - 4) in
      if ltb (length raw) 4
      then c
      else note (shows_clipboard (of_wire (trim_nul (runtime.text_of (take size (drop 4 raw)))))) c

  abbrev pub pending_flag : Option String → ℕ
  pending_flag none = 0
  pending_flag (some text) = clip_text

  unfoldable pub read_extended_clipboard : Bytes → RfbClient → RfbClient
  read_extended_clipboard payload c =
      let flags = u32 payload 0 in
      if ltb (length payload) 4
      then c
      else if bit 24 flags
      then send_client_cut_text (to_be 4 520_093_697 ++ to_be 4 clip_max_bytes)
          (record c { clip_actions = some (flags / clip_request % 16 * clip_request) })
      else if bit 25 flags
      then (if bit 0 flags then provide_clipboard c else c)
      else if bit 26 flags
      then send_extended_clipboard (clip_notify + pending_flag c.clip_pending) c
      else if bit 27 flags
      then (if bit 0 flags then send_extended_clipboard (clip_request + clip_text) c else c)
      else if bit 28 flags && bit 0 flags
      then inflated (runtime.inflate (drop 4 payload) (clip_max_bytes + 4)) c
      else c
