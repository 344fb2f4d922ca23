-- ===== src/Rfb/Connect.antt =====
-- packages/core/src/protocols/rfb.ts: the promise of `connect`, which is called once and first, and
-- everything that may happen to a client after it.
use hop_desk.Bytes.{Bytes}
use hop_desk.Rfb.{
  Area, RfbClient, RfbEvent, Runtime, ServerInfo, closes, connects, copies, fails, paints,
  resize_rejected, resizes, sends, shows_clipboard, shows_screens, update_ends,
}
use hop_desk.Common.{
  Bool, List, Option, String, [], if◌then◌else◌, is_some, none, some, str_eq, ℕ, ◌∷◌,
}
use hop_desk.Rfb.Output.{
  disconnect, fail, on_close, request_desktop_size, request_update, send_key, send_pointer,
}
use hop_desk.Rfb.Messages.{on_data}
use hop_desk.Rfb.Clipboard.{send_clipboard}

pub data Settled : Type 0 where
  resolves : ServerInfo → Settled
  fails_with_error : Settled
  rejects : (reason : String) → Settled

abbrev pub handshake_reason : String → String
handshake_reason reason =
    if str_eq reason "Connection closed"
    then "The server closed the connection during the handshake"
    else reason

-- The first of the three events that `connect` listens to settles its promise.
unfoldable pub settles : List RfbEvent → Option Settled
settles [] = none
settles (connects info ∷ es) = some (resolves info)
settles (fails ∷ es) = some fails_with_error
settles (closes reason ∷ es) = some (rejects (handshake_reason reason))
settles (sends b ∷ es) = settles es
settles (paints r p ∷ es) = settles es
settles (copies r x y ∷ es) = settles es
settles (update_ends ∷ es) = settles es
settles (resizes w h ∷ es) = settles es
settles (shows_clipboard t ∷ es) = settles es
settles (shows_screens s ∷ es) = settles es
settles (resize_rejected s ∷ es) = settles es

-- The timer of `connect`, which settling the promise clears.
unfoldable pub on_timeout : RfbClient → RfbClient
on_timeout c = if is_some (settles c.log) then c else fail c

pub data RfbCall : Type 0 where
  gets : (chunk : Bytes) → RfbCall
  errs shuts times_out stops : RfbCall
  requests : (incremental : Bool) → Option Area → RfbCall
  keys : (keysym : ℕ) → Bool → RfbCall
  points : (x y mask : ℕ) → RfbCall
  offers : String → RfbCall
  asks_size : (width height : ℕ) → RfbCall

unfoldable pub step : Runtime → RfbCall → RfbClient → RfbClient
step runtime (gets chunk) c = on_data runtime chunk c
step runtime errs c = fail c
step runtime shuts c = on_close c
step runtime times_out c = on_timeout c
step runtime stops c = disconnect c
step runtime (requests incremental area) c = request_update incremental area c
step runtime (keys keysym down) c = send_key keysym down c
step runtime (points x y mask) c = send_pointer x y mask c
step runtime (offers text) c = (send_clipboard runtime text c).0
step runtime (asks_size width height) c = (request_desktop_size width height c).0

unfoldable pub run : Runtime → List RfbCall → RfbClient → RfbClient
run runtime [] c = c
run runtime (call ∷ calls) c = run runtime calls (step runtime call c)
