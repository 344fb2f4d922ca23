-- ===== src/Rfb/Output.antt =====
-- packages/core/src/protocols/rfb.ts: what the client sends. Numbers fit the fields they are
-- written to.
use hop_desk.Bytes.{Bytes, to_be}
use hop_desk.Rfb.{RfbClient, RemoteScreen, Area, ServerInfo, closes, fails, send, note}
use hop_desk.Common.{
  Bool, List, Option, [], false, if◌then◌else◌, length, ltb, min, none, some, true, ℕ, ◌++◌, ◌||◌,
  ◌∷◌,
}

abbrev pub flag_byte : Bool → ℕ
flag_byte false = 0
flag_byte true = 1

unfoldable pub set_pixel_format : RfbClient → RfbClient
set_pixel_format c =
    send
      (0 ∷ 0 ∷ 0 ∷ 0 ∷ 32 ∷ 24 ∷ 0 ∷ 1 ∷ 0 ∷ 255 ∷ 0 ∷ 255 ∷ 0 ∷ 255 ∷ 16 ∷ 8 ∷ 0 ∷ 0 ∷ 0 ∷ 0 ∷ [])
      c

-- CopyRect, Hextile, RRE, Raw, DesktopSize, ExtendedDesktopSize and the extended clipboard.
abbrev pub supported_encodings : List ℕ
supported_encodings = 1 ∷ 5 ∷ 2 ∷ 0 ∷ 4_294_967_073 ∷ 4_294_966_988 ∷ 3_231_835_598 ∷ []

abbrev pub words : List ℕ → Bytes
words [] = []
words (e ∷ es) = to_be 4 e ++ words es

unfoldable pub set_encodings : List ℕ → RfbClient → RfbClient
set_encodings es c = send (2 ∷ 0 ∷ to_be 2 (length es) ++ words es) c

abbrev pub area_of : Option Area → ServerInfo → Area
area_of (some a) info = a
area_of none info = record { x = 0; y = 0; width = info.width; height = info.height }

abbrev pub request_with : Bool → Option Area → Option ServerInfo → RfbClient → RfbClient
request_with incremental area none c = c
request_with incremental area (some info) c =
    let a = area_of area info in
    send
      (3 ∷ flag_byte incremental ∷ to_be 2 a.x
        ++ to_be 2 a.y
        ++ to_be 2 a.width
        ++ to_be 2 a.height)
      (record c { last_request = some (record { incremental = incremental; area = a }) })

unfoldable pub request_update : Bool → Option Area → RfbClient → RfbClient
request_update incremental area c = request_with incremental area c.info c

unfoldable pub send_key : (keysym : ℕ) → Bool → RfbClient → RfbClient
send_key keysym down c = send (4 ∷ flag_byte down ∷ 0 ∷ 0 ∷ to_be 4 keysym) c

unfoldable pub send_pointer : (x y mask : ℕ) → RfbClient → RfbClient
send_pointer x y mask c = send (5 ∷ mask ∷ to_be 2 x ++ to_be 2 y) c

-- `this.screens[0] ?? { id: 0, flags: 0 }`
abbrev pub first_screen : List RemoteScreen → ℕ × ℕ
first_screen [] = (0, 0)
first_screen (s ∷ ss) = (s.id, s.flags)

abbrev pub desktop_size_with :
    (width height : ℕ) → Option (List RemoteScreen) → RfbClient → RfbClient × Bool
desktop_size_with width height none c = (c, false)
desktop_size_with width height (some screens) c =
    let w = to_be 2 (min width 16_384) in
    let h = to_be 2 (min height 16_384) in
    let first = first_screen screens in
    if ltb width 1 || ltb height 1 then (c, false) else (
      send
          (251 ∷ 0 ∷ w ++ h ++ 1 ∷ 0 ∷ to_be 4 first.0 ++ 0 ∷ 0 ∷ 0 ∷ 0 ∷ w ++ h ++ to_be 4 first.1)
          c,
      true,
    )

-- `requestDesktopSize` of whole numbers.
unfoldable pub request_desktop_size : (width height : ℕ) → RfbClient → RfbClient × Bool
request_desktop_size width height c = desktop_size_with width height c.screens c

unfoldable pub fail : RfbClient → RfbClient
fail c = if c.closed then c else note fails (record c { closed = true })

-- `disconnect()`, the source's `destroy` of a reason.
unfoldable pub disconnect : RfbClient → RfbClient
disconnect c = if c.closed then c else note (closes "Disconnected") (record c { closed = true })

-- The listener of the socket's `close`.
unfoldable pub on_close : RfbClient → RfbClient
on_close c = if c.closed then c else note (closes "Connection closed") (record c { closed = true })
