-- ===== src/Channel.antt =====
-- packages/crypto/src/channel.ts: `deriveSessionRoot` and `SealedChannel`. The ciphers of
-- node:crypto, the key derivation of @noble/hashes and the encoding of texts are a `Crypto`.
pub mod Sealing
pub mod Replays
mod Tests
use Prim.Native.String.{◌++◌ as append}
use hop_desk.Bytes.{Bytes, take, drop, to_be, of_be}
use hop_desk.Common.{
  List, Option, String, [], if◌then◌else◌, leb, length, ltb, none, not, some, str_eq, suc, ℕ, ◌++◌,
  ◌+◌, ◌-◌, ◌==◌, ◌||◌, ◌∷◌,
}

-- `hkdf` is `hkdf(sha256, secret, salt, info, 32)`, where an empty salt is none, `units` a text's length, `encrypt` and
-- `decrypt` are AES-256-GCM with a tag of 16 bytes: key, nonce, associated data and text.
pub record Crypto : Type 0 where
  pub hkdf : (secret salt info : Bytes) → Bytes
  pub utf8 : String → Bytes
  pub units : String → ℕ
  pub encrypt : (key nonce aad plain : Bytes) → Bytes × Bytes
  pub decrypt : (key nonce aad body tag : Bytes) → Option Bytes

pub data PeerRole : Type 0 where
  host viewer : PeerRole

abbrev pub other : PeerRole → PeerRole
other host = viewer
other viewer = host

abbrev pub role_name : PeerRole → String
role_name host = "host"
role_name viewer = "viewer"

-- What a method that throws gives: an error's message, or a result.
pub data Result (A : Type 0) : Type 0 where
  throws : (message : String) → Result A
  returns : (result : A) → Result A

abbrev pub max_counter : ℕ
max_counter = 281_474_976_710_656

pub record SealedChannel : Type 0 where
  pub label : String
  pub local_role : PeerRole
  pub send_key : Bytes
  pub recv_key : Bytes
  pub label_bytes : Bytes
  pub sent : ℕ
  pub highest_received : ℕ

abbrev pub nonce_for : ℕ → Bytes
nonce_for counter = 0 ∷ 0 ∷ 0 ∷ 0 ∷ to_be 8 counter

module _ (crypto : Crypto) where
  unfoldable pub derive_session_root : (secret handshake_hash : Bytes) → Result Bytes
  derive_session_root secret handshake_hash =
      if ltb (length secret) 16
      then throws "Session secret too short"
      else if length handshake_hash == 32
      then returns (crypto.hkdf secret handshake_hash (crypto.utf8 "hopdesk/session-root/v1"))
      else throws "Handshake hash must be 32 bytes"

  unfoldable pub channel_key : Bytes → String → PeerRole → Bytes
  channel_key root label from = crypto.hkdf root [] (
      crypto.utf8 (
        append "hopdesk/channel/v1\0" (
          append label
            (append "\0" (append (role_name from) (append "->" (role_name (other from))))))))

  unfoldable pub new_channel : (root : Bytes) (label : String) → PeerRole → Result SealedChannel
  new_channel root label local_role =
      if not (length root == 32)
      then throws "Session root must be 32 bytes"
      else if str_eq label "" || ltb 64 (crypto.units label)
      then throws "Channel label must be 1-64 characters"
      else returns (record {
        label = label;
        local_role = local_role;
        send_key = channel_key root label local_role;
        recv_key = channel_key root label (other local_role);
        label_bytes = crypto.utf8 label;
        sent = 0;
        highest_received = 0;
      })

  -- The frame of a counter.
  unfoldable pub frame_of : (key label_bytes : Bytes) (counter : ℕ) (plaintext : Bytes) → Bytes
  frame_of key label_bytes counter plaintext =
      let header = to_be 8 counter in
      let sealed = crypto.encrypt key (nonce_for counter) (label_bytes ++ header) plaintext in
      header ++ (sealed.0 ++ sealed.1)

  unfoldable pub seal : SealedChannel → Bytes → SealedChannel × Result Bytes
  seal c plaintext =
      if leb max_counter (c.sent + 1)
      then (c, throws "Channel exhausted; reconnect to rekey")
      else (
        record c { sent = suc c.sent },
        returns (frame_of c.send_key c.label_bytes (suc c.sent) plaintext),
      )

  -- Only a frame whose tag is right moves the counter.
  abbrev pub received : SealedChannel → ℕ → Option Bytes → SealedChannel × Result Bytes
  received c counter none = (c, throws "Sealed frame failed authentication")
  received c counter (some plain) = (record c { highest_received = counter }, returns plain)

  unfoldable pub deciphered : SealedChannel → Bytes → Option Bytes
  deciphered c frame =
      let header = take 8 frame in
      let counter = of_be header in
      let tail = length frame - 16 in
      crypto.decrypt c.recv_key (nonce_for counter) (c.label_bytes ++ header)
        (take (tail - 8) (drop 8 frame)) (drop tail frame)

  unfoldable pub open_frame : SealedChannel → Bytes → SealedChannel × Result Bytes
  open_frame c frame =
      let counter = of_be (take 8 frame) in
      if ltb (length frame) 24
      then (c, throws "Sealed frame too short")
      else if counter == 0 || leb max_counter counter
      then (c, throws "Sealed frame counter out of range")
      else if leb counter c.highest_received
      then (c, throws "Replayed or reordered frame rejected")
      else received c counter (deciphered c frame)

  unfoldable pub open_all : SealedChannel → List Bytes → SealedChannel
  open_all c [] = c
  open_all c (f ∷ fs) = open_all (open_frame c f).0 fs
