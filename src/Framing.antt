-- ===== src/Framing.antt =====
-- packages/transport/src/framing.ts: `FramedLink`, messages over a stream of bytes that arrives in
-- chunks. The chunks that wait are kept as their bytes. Text and JSON are a `Codec`; a handler of
-- messages is whether it closes the link on a message, and the log of what it was given.
pub mod Rounds
pub mod Outcomes
pub mod Chunks
pub mod Frames
mod Tests
use hop_desk.Bytes.{Bytes, take, drop, to_be, of_be}
use hop_desk.Common.{
  Bool, List, Option, String, [], false, if◌then◌else◌, length, ltb, map, none, not, some, suc,
  true, zero, ℕ, ◌++◌, ◌∷◌,
}

-- `decode` is `JSON.parse` of the text in UTF-8, `none` where either throws; `encode` is the text of
-- `JSON.stringify` in UTF-8.
pub record Codec (M : Type 0) : Type 0 where
  pub encode : M → Bytes
  pub decode : Bytes → Option M

abbrev pub max_frame_bytes : ℕ
max_frame_bytes = 6_291_456

-- Why a link was closed by its own rules.
pub data LinkError : Type 0 where
  too_large : (expected : ℕ) → LinkError
  not_json : LinkError
  other_error : (message : String) → LinkError

-- `expected` is `none` where the source has -1. Handlers of the closing have numbers; `notified` are
-- the calls of them, `written` what went to the stream, `delivered` what the handler was given.
pub record FramedLink (M : Type 0) : Type 0 where
  pub max_frame : ℕ
  pub buffered : Bytes
  pub expected : Option ℕ
  pub backlog : List M
  pub handler : Option (M → Bool)
  pub closed : Bool
  pub close_handlers : List ℕ
  pub delivered : List M
  pub notified : List (ℕ × Option LinkError)
  pub written : Bytes

module _ {M : Type 0} where
  unfoldable pub new_link : ℕ → FramedLink M
  new_link max_frame = record {
    max_frame = max_frame;
    buffered = [];
    expected = none;
    backlog = [];
    handler = none;
    closed = false;
    close_handlers = [];
    delivered = [];
    notified = [];
    written = [];
  }

  unfoldable pub close : FramedLink M → Option LinkError → FramedLink M
  close l error = if l.closed then l else record l {
    closed = true;
    buffered = [];
    close_handlers = [];
    notified = l.notified ++ map (λ h. (h, error)) l.close_handlers;
  }

  -- The header of the next frame, if none was read and four bytes are there. The length is checked
  -- before the body is waited for.
  unfoldable pub read_length : FramedLink M → FramedLink M
  read_length l =
      let n = of_be (take 4 l.buffered) in
      let read = record l { buffered = drop 4 l.buffered; expected = some n } in
      if ltb l.max_frame n then close read (some (too_large n)) else read

  abbrev pub read_header : FramedLink M → Option ℕ → FramedLink M
  read_header l (some n) = l
  read_header l none = if ltb (length l.buffered) 4 then l else read_length l

  abbrev pub hand_over : FramedLink M → M → Option (M → Bool) → FramedLink M
  hand_over l m none = record l { backlog = l.backlog ++ m ∷ [] }
  hand_over l m (some f) =
      let given = record l { delivered = l.delivered ++ m ∷ [] } in
      if f m then close given none else given

  unfoldable pub deliver : FramedLink M → Option M → FramedLink M
  deliver l none = close l (some not_json)
  deliver l (some m) = hand_over l m l.handler

module _ {M : Type 0} (codec : Codec M) where
  -- The body of a frame of `n` bytes, and whether the loop goes on.
  unfoldable pub read_body : FramedLink M → ℕ → FramedLink M × Bool
  read_body l n =
      let done =
        deliver (record l { buffered = drop n l.buffered; expected = none })
          (codec.decode (take n l.buffered)) in
      if ltb (length l.buffered) n then (l, false) else (done, not done.closed)

  abbrev pub read_expected : FramedLink M → Option ℕ → FramedLink M × Bool
  read_expected l none = (l, false)
  read_expected l (some n) = read_body l n

  -- One round of the loop of `receive`.
  unfoldable pub round : FramedLink M → FramedLink M × Bool
  round l =
      let headed = read_header l l.expected in
      if headed.closed then (headed, false) else read_expected headed headed.expected

  unfoldable pub rounds : ℕ → FramedLink M → FramedLink M
  rounds zero l = l
  rounds (suc fuel) l = let r = round l in let rest = rounds fuel r.0 in if r.1 then rest else r.0

  -- Rounds enough: each takes bytes, but for one that may find an empty body due.
  abbrev pub enough : FramedLink M → ℕ
  enough l = suc (suc (length l.buffered))

  unfoldable pub receive : FramedLink M → Bytes → FramedLink M
  receive l chunk =
      let more = record l { buffered = l.buffered ++ chunk } in
      if l.closed then l else rounds (enough more) more

  unfoldable pub receive_all : FramedLink M → List Bytes → FramedLink M
  receive_all l [] = l
  receive_all l (chunk ∷ chunks) = receive_all (receive l chunk) chunks

  unfoldable pub frame : M → Bytes
  frame m = let body = codec.encode m in to_be 4 (length body) ++ body

  -- `none` where the source throws that the message is too large.
  unfoldable pub send : FramedLink M → M → Option (FramedLink M)
  send l m =
      if l.closed
      then some l
      else if ltb l.max_frame (length (codec.encode m))
      then none
      else some (record l { written = l.written ++ frame m })

  abbrev pub send_rest :
      Option (FramedLink M) → (FramedLink M → Option (FramedLink M)) → Option (FramedLink M)
  send_rest none rest = none
  send_rest (some l) rest = rest l

  unfoldable pub send_all : FramedLink M → List M → Option (FramedLink M)
  send_all l [] = some l
  send_all l (m ∷ ms) = send_rest (send l m) (λ s. send_all s ms)

module _ {M : Type 0} where
  -- The handler is given every message that waited, also once it closed the link.
  unfoldable pub hand_backlog : FramedLink M → (M → Bool) → List M → FramedLink M
  hand_backlog l f [] = l
  hand_backlog l f (m ∷ ms) = hand_backlog (hand_over l m (some f)) f ms

  unfoldable pub on_message : FramedLink M → (M → Bool) → FramedLink M
  on_message l f = hand_backlog (record l { handler = some f; backlog = [] }) f l.backlog

  unfoldable pub on_close : FramedLink M → ℕ → FramedLink M
  on_close l h =
      if l.closed
      then record l { notified = l.notified ++ (h, none) ∷ [] }
      else record l { close_handlers = l.close_handlers ++ h ∷ [] }
