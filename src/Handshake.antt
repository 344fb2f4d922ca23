-- ===== src/Handshake.antt =====
-- packages/protocol/src/handshake.ts: the messages of the handshake, what both sides bind their
-- proofs to, and the errors. The texts of errors are left out. Signatures and keys stand in
-- messages in base64, as the source has them.
pub mod Host
pub mod Hello
pub mod Confirm
pub mod Viewer
pub mod Answer
pub mod Routes
mod Shares
mod Offers
pub mod Guards
pub mod Admission
pub mod Attempts
pub mod Laws
pub mod Completeness
pub mod Codes
pub mod Exchanges
pub mod Devices
pub mod Evidence
pub mod Hosts
pub mod Scene
mod Tests
use hop_desk.Bytes.{Bytes}
use hop_desk.Text.{decimal}
use hop_desk.Channel.{derive_session_root, Result, host, returns, throws}
use hop_desk.Encoding.{Field, from_base64, encode_fields, truthy}
use hop_desk.Encoding.Field.{text_field, bytes_field}
use hop_desk.Keys.{Primitives}
use hop_desk.Keys.Identity.{utf8}
use hop_desk.Keys.Spake.{SpakeResult}
use hop_desk.Common.{List, Option, String, [], map, none, some, ℕ, ◌++◌, ◌>>=◌, ◌∷◌}

pub data AuthKind : Type 0 where
  code_auth grant_auth paired_auth account_auth : AuthKind

abbrev pub auth_name : AuthKind → String
auth_name code_auth = "code"
auth_name grant_auth = "grant"
auth_name paired_auth = "paired"
auth_name account_auth = "account"

abbrev pub protocol_version : ℕ
protocol_version = 1

pub record HelloMessage : Type 0 where
  pub v : ℕ
  pub host_id : String
  pub viewer_id : String
  pub viewer_key : String
  pub viewer_name : String
  pub nonce : String
  pub time : ℕ
  pub auth : AuthKind
  pub grant_id : Option String
  pub share : Option String
  pub dh : Option String

pub record ChallengeMessage : Type 0 where
  pub host_key : String
  pub host_name : String
  pub nonce : String
  pub share : Option String
  pub dh : Option String
  pub confirm : String
  pub signature : String

pub record ConfirmMessage : Type 0 where
  pub confirm : String
  pub signature : String

-- The codes of `HandshakeErrorCode` that the handshake gives, and of `LocalErrorCode`.
pub data ErrorCode : Type 0 where
  unsupported_version unknown_device rate_limited bad_auth grant_invalid not_paired : ErrorCode
  code_disabled not_authorised replay_code clock_skew_code busy_code protocol : ErrorCode
  identity_mismatch timed_out closed_code rejected_code : ErrorCode

pub record HandshakeError : Type 0 where
  pub code : ErrorCode
  pub retry_after_ms : Option ℕ
  pub presented_key : Option String

abbrev pub error_of : ErrorCode → HandshakeError
error_of code = record { code = code; retry_after_ms = none; presented_key = none }

-- What a step that may throw gives: a `HandshakeError`, a result, or another exception.
pub data Outcome (A : Type 0) : Type 0 where
  rejects : HandshakeError → Outcome A
  accepts : A → Outcome A
  raises : Outcome A

abbrev pub host_label : String
host_label = "hopdesk/handshake/host/v1"

abbrev pub viewer_label : String
viewer_label = "hopdesk/handshake/viewer/v1"

abbrev pub or_no_text : Option String → String
or_no_text none = ""
or_no_text (some s) = s

abbrev pub root_of : Result Bytes → Option Bytes
root_of (Result.throws message) = none
root_of (Result.returns root) = some root

module _ (p : Primitives) where
  abbrev pub b64 : String → Option Bytes
  b64 = from_base64 p.unbase64

  abbrev pub b64_or_empty : Option String → Option Bytes
  b64_or_empty none = some []
  b64_or_empty (some s) = b64 s

  -- The fields that both sides bind, in order.
  abbrev pub bound_fields :
      HelloMessage
      → (host_name : String) → (viewer_key host_key nonce host_nonce dh host_dh : Bytes)
      → List Field
  bound_fields hello host_name viewer_key host_key nonce host_nonce dh host_dh =
      text_field "hopdesk/handshake/binding/v1"
      ∷ text_field (decimal hello.v)
      ∷ text_field hello.host_id
      ∷ text_field hello.viewer_id
      ∷ bytes_field viewer_key
      ∷ bytes_field host_key
      ∷ text_field hello.viewer_name
      ∷ text_field host_name
      ∷ bytes_field nonce
      ∷ bytes_field host_nonce
      ∷ text_field (decimal hello.time)
      ∷ text_field (auth_name hello.auth)
      ∷ text_field (or_no_text hello.grant_id)
      ∷ bytes_field dh
      ∷ bytes_field host_dh
      ∷ []

  -- `none` where a field is no base64 and the source throws.
  unfoldable pub binding :
      HelloMessage
      → (host_key host_name host_nonce : String) → (host_dh : Option String) → Option Bytes
  binding hello host_key host_name host_nonce host_dh = do
    viewer_key ← b64 hello.viewer_key
    owner ← b64 host_key
    nonce ← b64 hello.nonce
    fresh ← b64 host_nonce
    dh ← b64_or_empty (truthy hello.dh)
    theirs ← b64_or_empty (truthy host_dh)
    some (
        p.sha256 (
          encode_fields (utf8 p)
            (bound_fields hello host_name viewer_key owner nonce fresh dh theirs)))

  -- `deriveSessionRoot` of a secret and the fields of a whole handshake.
  unfoldable pub root_for : (ke : Bytes) → List Bytes → Option Bytes
  root_for ke parts =
      root_of (
        derive_session_root p.crypto ke (p.sha256 (encode_fields (utf8 p) (map bytes_field parts))))

  abbrev pub signed_body : (bind a b mac : Bytes) → Bytes
  signed_body bind a b mac = bind ++ (a ++ (b ++ mac))
