-- ===== src/Rfb.antt =====
-- packages/core/src/protocols/rfb.ts: the state of `RfbClient` and its buffer. Listeners are called
-- after a round: an event is an entry of the log, as what is sent is. Texts of errors are left out,
-- and memory is taken to suffice.
pub mod Canvas
pub mod Des
pub mod Output
pub mod Clipboard
pub mod Hextile
pub mod Rects
pub mod Opening
pub mod Messages
pub mod Connect
mod Sizes
mod Keeping
mod Handshaking
mod Calling
mod Finishing
mod Drawing
mod Rounds
mod Painting
mod Fill
mod Rre
mod Prefixes
mod Resuming
mod Tests
use hop_desk.Bytes.{Bytes, take, drop, of_be}
use hop_desk.Rfb.Canvas.{Pixels, Colour}
use hop_desk.Common.{
  Bool, List, Option, String, ltb, length, if◌then◌else◌, none, some, get_elem?, [], ◌∷◌, ◌++◌, ℕ,
  false, ◌%◌, ◌/◌, ◌==◌, ◌^◌,
}

-- What the runtime gives: the encodings of texts and the compression of streams.
pub record Runtime : Type 0 where
  pub utf8 : String → Bytes
  pub text_of : Bytes → String
  pub latin1 : String → Bytes
  pub latin1_text : Bytes → String
  pub inflate : Bytes → (max_bytes : ℕ) → Option Bytes
  pub deflate : Bytes → Bytes

pub data RfbState : Type 0 where
  version security security33 auth result init ready : RfbState

pub record ServerInfo : Type 0 where
  pub width : ℕ
  pub height : ℕ
  pub name : String
  pub bits_per_pixel : ℕ
  pub depth : ℕ
  pub true_colour : Bool

-- The encoding is a signed word in the source, and here the unsigned one of the same bits.
pub record RectHead : Type 0 where
  pub x : ℕ
  pub y : ℕ
  pub width : ℕ
  pub height : ℕ
  pub encoding : ℕ

pub record Area : Type 0 where
  pub x : ℕ
  pub y : ℕ
  pub width : ℕ
  pub height : ℕ

pub record UpdateRequest : Type 0 where
  pub incremental : Bool
  pub area : Area

pub record RemoteScreen : Type 0 where
  pub id : ℕ
  pub x : ℕ
  pub y : ℕ
  pub width : ℕ
  pub height : ℕ
  pub flags : ℕ

pub record HextileState : Type 0 where
  pub out : Pixels
  pub tile : ℕ
  pub bg : Colour
  pub fg : Colour

pub data RfbEvent : Type 0 where
  sends : Bytes → RfbEvent
  connects : ServerInfo → RfbEvent
  paints : RectHead → Pixels → RfbEvent
  copies : RectHead → (x y : ℕ) → RfbEvent
  update_ends : RfbEvent
  resizes : (width height : ℕ) → RfbEvent
  shows_clipboard : String → RfbEvent
  shows_screens : List RemoteScreen → RfbEvent
  resize_rejected : (status : ℕ) → RfbEvent
  fails : RfbEvent
  closes : (reason : String) → RfbEvent

pub record RfbClient : Type 0 where
  pub shared : Bool
  pub password : Option String
  pub buffer : Bytes
  pub state : RfbState
  pub info : Option ServerInfo
  pub closed : Bool
  pub minor : ℕ
  pub clip_actions : Option ℕ
  pub clip_pending : Option String
  pub screens : Option (List RemoteScreen)
  pub pending_rect : Option RectHead
  pub rects_left : ℕ
  pub last_request : Option UpdateRequest
  pub had_content : Bool
  pub announced_layout : Bool
  pub hextile : Option HextileState
  pub log : List RfbEvent

unfoldable pub new_client : (shared : Bool) → (password : Option String) → RfbClient
new_client shared password = record {
  shared = shared;
  password = password;
  buffer = [];
  state = version;
  info = none;
  closed = false;
  minor = 8;
  clip_actions = none;
  clip_pending = none;
  screens = none;
  pending_rect = none;
  rects_left = 0;
  last_request = none;
  had_content = false;
  announced_layout = false;
  hextile = none;
  log = [];
}

-- How a round ends: it returns, or it throws.
pub data Turn : Type 0 where
  goes throws : RfbClient → Turn

abbrev pub note : RfbEvent → RfbClient → RfbClient
note e c = record c { log = c.log ++ e ∷ [] }

abbrev pub send : Bytes → RfbClient → RfbClient
send b c = note (sends b) c

abbrev pub dropped : ℕ → RfbClient → RfbClient
dropped n c = record c { buffer = drop n c.buffer }

-- `take(n)`, and what is done with it; with fewer bytes the round returns.
unfoldable pub with_block : ℕ → RfbClient → (Bytes → RfbClient → Turn) → Turn
with_block n c f = if ltb (length c.buffer) n then goes c else f (take n c.buffer) (dropped n c)

-- What is done when there are `n` bytes.
unfoldable pub when_there : ℕ → RfbClient → Turn → Turn
when_there n c r = if ltb (length c.buffer) n then goes c else r

abbrev pub or_zero : Option ℕ → ℕ
or_zero none = 0
or_zero (some n) = n

-- `readUInt8`, `readUInt16BE` and `readUInt32BE`.
abbrev pub u8 : Bytes → ℕ → ℕ
u8 b at = or_zero (get_elem? b at)

unfoldable pub u16 : Bytes → ℕ → ℕ
u16 b at = of_be (take 2 (drop at b))

unfoldable pub u32 : Bytes → ℕ → ℕ
u32 b at = of_be (take 4 (drop at b))

-- Bit `k` of a number.
abbrev pub bit : ℕ → ℕ → Bool
bit k n = n / 2 ^ k % 2 == 1
