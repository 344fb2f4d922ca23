-- ===== src/Handshake/Host.antt =====
-- packages/protocol/src/handshake.ts: `HostAuthenticator`. What a call gets from outside is a
-- `HelloCall`: the caller's name, the present access code, the decisions on devices, the readings
-- of the clock in order, and what is drawn at random.
use Prim.Native.String.{◌++◌ as append}
use hop_desk.Bytes.{Bytes}
use hop_desk.Grants.{GrantStore}
use hop_desk.Limiter.{AttemptLimiter, AttemptDecision, Reason, begin, settle}
use hop_desk.Limiter
use hop_desk.Limiter.AttemptDecision.{granted, refused}
use hop_desk.Limiter.Reason.{locked, busy}
use hop_desk.Replay.{NonceCache}
use hop_desk.Throttle.{PeerThrottle}
use hop_desk.Keys.{Primitives}
use hop_desk.Keys.Identity.{DeviceIdentity, sign, password_scalar, secret_scalar, utf8}
use hop_desk.Keys.Spake.{Spake, SpakeResult, new_spake, finish}
use hop_desk.Keys.Spake.SpakeRole.{role_b}
use hop_desk.Keys.Exchange.{Exchanged}
use hop_desk.Handshake.{
  AuthKind, HelloMessage, ChallengeMessage, ErrorCode, host_label, b64, binding, signed_body,
}
use hop_desk.Handshake.AuthKind.{code_auth, grant_auth, paired_auth, account_auth}
use hop_desk.Handshake.ErrorCode.{rate_limited, grant_invalid, code_disabled, busy_code, protocol}
use hop_desk.Common.{Bool, Option, String, false, none, not, some, true, ℕ}

pub record HostAuthenticator : Type 0 where
  pub identity : DeviceIdentity
  pub host_name : String
  pub device_id : String
  pub limiter : AttemptLimiter
  pub throttle : PeerThrottle
  pub nonces : NonceCache
  pub grants : GrantStore

pub record HelloCall : Type 0 where
  pub peer : Option String
  pub access_code : Option String
  pub trusts : (viewer_id : String) (viewer_key : Bytes) → Bool
  pub account_authorised : (viewer_id : String) (viewer_key : Bytes) → Bool
  pub clock : (reading : ℕ) → ℕ
  pub nonce : Bytes
  pub scalar : ℕ
  pub ephemeral : Bytes

pub record AuthenticatedViewer : Type 0 where
  pub viewer_id : String
  pub viewer_key : Bytes
  pub viewer_name : String
  pub auth : AuthKind
  pub grant_id : Option String
  pub root : Bytes

-- What the closures of a pending handshake hold beside the hello: of a SPAKE2 one the result and
-- both shares, of an exchange what was derived and both public keys.
pub data Proof : Type 0 where
  spake_proof : (result : SpakeResult) (bind p_a p_b : Bytes) → Proof
  exchange_proof : (derived : Exchanged) (bind viewer_dh host_dh : Bytes) → Proof

pub record Pending : Type 0 where
  pub done : Bool
  pub attempt : Option ℕ
  pub hello : HelloMessage
  pub viewer_key : Bytes
  pub proof : Proof

pub data HelloOutcome : Type 0 where
  challenges : ChallengeMessage → Pending → HelloOutcome
  errors : ErrorCode → (retry_after_ms : Option ℕ) → HelloOutcome
  breaks : HelloOutcome

abbrev pub who : HelloMessage → Option String → String
who hello none = append "unknown" (append "|" hello.viewer_id)
who hello (some peer) = append peer (append "|" hello.viewer_id)

abbrev pub is_code : AuthKind → Bool
is_code code_auth = true
is_code grant_auth = false
is_code paired_auth = false
is_code account_auth = false

abbrev pub is_grant : AuthKind → Bool
is_grant code_auth = false
is_grant grant_auth = true
is_grant paired_auth = false
is_grant account_auth = false

abbrev pub same_bool : Bool → Bool → Bool
same_bool true b = b
same_bool false b = not b

-- `attempt?.fail()` and `attempt?.succeed()`.
abbrev pub settle_attempt : HostAuthenticator → Option ℕ → Bool → (t t' : ℕ) → HostAuthenticator
settle_attempt h none success t t' = h
settle_attempt h (some i) success t t' = record h {
  limiter = Limiter.settle h.limiter i success t t';
}

module _ (p : Primitives) where
  abbrev pub challenge_of :
      HostAuthenticator
      → (nonce : Bytes) → (share dh : Option String) → (mac signature : Bytes) → ChallengeMessage
  challenge_of h nonce share dh mac signature = record {
    host_key = p.base64 h.identity.public_key;
    host_name = h.host_name;
    nonce = p.base64 nonce;
    share = share;
    dh = dh;
    confirm = p.base64 mac;
    signature = p.base64 signature;
  }

  abbrev pub challenge_spake :
      HostAuthenticator
      → HelloMessage
      → HelloCall
      → (viewer_key : Bytes) → Option ℕ
      → (bind p_a p_b : Bytes) → Option SpakeResult
      → HostAuthenticator × HelloOutcome
  challenge_spake h hello call viewer_key attempt bind p_a p_b none =
      (settle_attempt h attempt false (call.clock 3) (call.clock 4), errors protocol none)
  challenge_spake h hello call viewer_key attempt bind p_a p_b (some result) = (
    h,
    challenges
        (challenge_of h call.nonce (some (p.base64 p_b)) none result.confirmation
          (sign p h.identity host_label (signed_body p bind p_a p_b result.confirmation)))
        (record {
          done = false;
          attempt = attempt;
          hello = hello;
          viewer_key = viewer_key;
          proof = spake_proof result bind p_a p_b;
        }),
  )

  abbrev pub with_spake :
      HostAuthenticator
      → HelloMessage
      → HelloCall
      → (viewer_key : Bytes) → Option ℕ
      → (bind p_a : Bytes) → Option Spake
      → HostAuthenticator × HelloOutcome
  with_spake h hello call viewer_key attempt bind p_a none = (h, breaks)
  with_spake h hello call viewer_key attempt bind p_a (some spake) =
      challenge_spake h hello call viewer_key attempt bind p_a spake.share
        (finish p spake p_a bind).1

  abbrev pub with_binding :
      HostAuthenticator
      → HelloMessage
      → HelloCall
      → (viewer_key : Bytes) → Option ℕ
      → (w : ℕ) → Option Bytes
      → Option Bytes
      → HostAuthenticator × HelloOutcome
  with_binding h hello call viewer_key attempt w (some bind) (some p_a) =
      with_spake h hello call viewer_key attempt bind p_a (
        new_spake p
          (record {
            role = role_b;
            id_a = utf8 p hello.viewer_id;
            id_b = utf8 p h.device_id;
            w = w;
          })
          call.scalar)
  with_binding h hello call viewer_key attempt w bind share = (h, breaks)

  unfoldable pub spake_challenge :
      HostAuthenticator
      → HelloMessage
      → HelloCall
      → (viewer_key : Bytes) → (share : String) → Option ℕ
      → (w : ℕ) → HostAuthenticator × HelloOutcome
  spake_challenge h hello call viewer_key share attempt w =
      with_binding h hello call viewer_key attempt w
        (binding p hello (p.base64 h.identity.public_key) h.host_name (p.base64 call.nonce) none)
        (b64 p share)

  abbrev pub with_password :
      HostAuthenticator
      → HelloMessage
      → HelloCall
      → (viewer_key : Bytes) → (share : String) → (attempt : ℕ) → Option ℕ
      → HostAuthenticator × HelloOutcome
  with_password h hello call viewer_key share attempt none =
      (settle_attempt h (some attempt) false (call.clock 3) (call.clock 4), errors protocol none)
  with_password h hello call viewer_key share attempt (some w) =
      spake_challenge h hello call viewer_key share (some attempt) w

  abbrev pub with_decision :
      HostAuthenticator
      → HelloMessage
      → HelloCall
      → (viewer_key : Bytes) → (share secret : String) → AttemptDecision
      → HostAuthenticator × HelloOutcome
  with_decision h hello call viewer_key share secret (granted i) =
      with_password h hello call viewer_key share i (password_scalar p secret h.device_id)
  with_decision h hello call viewer_key share secret (refused retry busy) =
      (h, errors busy_code (some retry))
  with_decision h hello call viewer_key share secret (refused retry locked) =
      (h, errors rate_limited (some retry))

  abbrev pub with_code :
      HostAuthenticator
      → HelloMessage
      → HelloCall
      → (viewer_key : Bytes) → (share : String) → Option String
      → HostAuthenticator × HelloOutcome
  with_code h hello call viewer_key share none = (h, errors code_disabled none)
  with_code h hello call viewer_key share (some secret) =
      let begun = Limiter.begin h.limiter (who hello call.peer) (call.clock 2) in
      with_decision (record h { limiter = begun.0 }) hello call viewer_key share secret begun.1

  abbrev pub with_secret :
      HostAuthenticator
      → HelloMessage
      → HelloCall
      → (viewer_key : Bytes) → (share : String) → Option ℕ
      → HostAuthenticator × HelloOutcome
  with_secret h hello call viewer_key share none = (h, breaks)
  with_secret h hello call viewer_key share (some w) =
      spake_challenge h hello call viewer_key share none w

  abbrev pub with_grant :
      HostAuthenticator
      → HelloMessage
      → HelloCall
      → (viewer_key : Bytes) → (share : String) → Option ℕ
      → HostAuthenticator × HelloOutcome
  with_grant h hello call viewer_key share none = (h, errors grant_invalid none)
  with_grant h hello call viewer_key share (some r) =
      let grant = h.grants.heap r in
      with_secret h hello call viewer_key share
        (secret_scalar p grant.secret (append h.device_id (append "\0" grant.id)))
