-- ===== src/Handshake/Hello.antt =====
-- packages/protocol/src/handshake.ts: `onHello` and `exchangeChallenge` of `HostAuthenticator`.
use hop_desk.Bytes.{Bytes}
use hop_desk.Encoding.{equal_bytes, truthy}
use hop_desk.Grants
use hop_desk.Grants.{GrantStore, find}
use hop_desk.Replay
use hop_desk.Replay.{NonceCache, Verdict, check}
use hop_desk.Replay.Verdict.{fresh, replay, clock_skew}
use hop_desk.Throttle
use hop_desk.Throttle.{PeerThrottle, Allowed, allow}
use hop_desk.Throttle.Allowed.{allowed, wait}
use hop_desk.Keys.{Primitives}
use hop_desk.Keys.Identity.{sign, device_id_from_public_key}
use hop_desk.Keys.Exchange.{EphemeralKeyPair, Exchanged, ephemeral_of, derive_exchange}
use hop_desk.Handshake.{
  AuthKind, HelloMessage, ErrorCode, host_label, b64, binding, signed_body, or_no_text,
  protocol_version,
}
use hop_desk.Handshake.AuthKind.{code_auth, grant_auth, paired_auth, account_auth}
use hop_desk.Handshake.ErrorCode.{
  unsupported_version, unknown_device, not_paired, not_authorised, replay_code, clock_skew_code,
  busy_code, protocol,
}
use hop_desk.Handshake.Host.{
  HostAuthenticator, HelloCall, HelloOutcome, who, challenge_of, is_code, is_grant, same_bool,
  with_code, with_grant,
}
use hop_desk.Handshake.Host.HelloOutcome.{challenges, errors, breaks}
use hop_desk.Handshake.Host.Proof.{exchange_proof}
use hop_desk.Common.{
  Bool, Option, String, false, if◌then◌else◌, is_some, none, not, some, str_eq, ◌==◌,
}

module _ (p : Primitives) where
  abbrev pub challenge_exchange :
      HostAuthenticator
      → HelloMessage
      → HelloCall
      → (viewer_key bind viewer_dh host_dh : Bytes) → Option Exchanged
      → HelloOutcome
  challenge_exchange h hello call viewer_key bind viewer_dh host_dh none = errors protocol none
  challenge_exchange h hello call viewer_key bind viewer_dh host_dh (some derived) =
      challenges
        (challenge_of p h call.nonce none (some (p.base64 host_dh)) derived.host_confirm (
          sign p h.identity host_label (signed_body p bind viewer_dh host_dh derived.host_confirm)))
        (record {
          done = false;
          attempt = none;
          hello = hello;
          viewer_key = viewer_key;
          proof = exchange_proof derived bind viewer_dh host_dh;
        })

  abbrev pub with_dh :
      HostAuthenticator
      → HelloMessage
      → HelloCall
      → (viewer_key : Bytes) → EphemeralKeyPair
      → Option Bytes
      → Option Bytes
      → HelloOutcome
  with_dh h hello call viewer_key ours (some bind) (some viewer_dh) =
      challenge_exchange h hello call viewer_key bind viewer_dh ours.public_key
        (derive_exchange p ours viewer_dh bind)
  with_dh h hello call viewer_key ours bind viewer_dh = breaks

  unfoldable pub exchange_challenge :
      HostAuthenticator
      → HelloMessage
      → HelloCall
      → (viewer_key : Bytes) → (dh : String) → HelloOutcome
  exchange_challenge h hello call viewer_key dh =
      let ours = ephemeral_of p call.ephemeral in
      with_dh h hello call viewer_key ours
        (binding p hello (p.base64 h.identity.public_key) h.host_name (p.base64 call.nonce)
          (some (p.base64 ours.public_key)))
        (b64 p dh)

  -- A kind without a secret, once the host has said whether it lets this device in.
  abbrev pub with_device :
      HostAuthenticator
      → HelloMessage
      → HelloCall
      → (viewer_key : Bytes) → Bool
      → ErrorCode
      → Option String
      → HelloOutcome
  with_device h hello call viewer_key lets_in refusal none = errors protocol none
  with_device h hello call viewer_key lets_in refusal (some dh) =
      if lets_in then exchange_challenge h hello call viewer_key dh else errors refusal none

  abbrev pub with_share :
      HostAuthenticator
      → HelloMessage
      → HelloCall
      → (viewer_key : Bytes) → Option String
      → HostAuthenticator × HelloOutcome
  with_share h hello call viewer_key none = (h, errors protocol none)
  with_share h hello call viewer_key (some share) =
      let found =
        Grants.find equal_bytes h.grants (or_no_text hello.grant_id) viewer_key (call.clock 2) in
      if is_grant hello.auth
      then with_grant p (record h { grants = found.0 }) hello call viewer_key share found.1
      else with_code p h hello call viewer_key share call.access_code

  abbrev pub by_kind :
      HostAuthenticator
      → HelloMessage
      → HelloCall
      → (viewer_key : Bytes) → AuthKind
      → HostAuthenticator × HelloOutcome
  by_kind h hello call viewer_key account_auth = (
    h,
    with_device h hello call viewer_key (call.account_authorised hello.viewer_id viewer_key)
        not_authorised (truthy hello.dh),
  )
  by_kind h hello call viewer_key paired_auth = (
    h,
    with_device h hello call viewer_key (call.trusts hello.viewer_id viewer_key) not_paired
        (truthy hello.dh),
  )
  by_kind h hello call viewer_key grant_auth =
      with_share h hello call viewer_key (truthy hello.share)
  by_kind h hello call viewer_key code_auth =
      with_share h hello call viewer_key (truthy hello.share)

  abbrev pub with_allowed :
      HostAuthenticator
      → HelloMessage
      → HelloCall
      → (viewer_key : Bytes) → Allowed
      → HostAuthenticator × HelloOutcome
  with_allowed h hello call viewer_key allowed = by_kind h hello call viewer_key hello.auth
  with_allowed h hello call viewer_key (wait retry) = (h, errors busy_code (some retry))

  -- The brake on the kinds that need no code.
  unfoldable pub throttled :
      HostAuthenticator
      → HelloMessage
      → HelloCall
      → (viewer_key : Bytes) → HostAuthenticator × HelloOutcome
  throttled h hello call viewer_key =
      let r = Throttle.allow h.throttle (who hello call.peer) (call.clock 1) in
      if is_code hello.auth
      then by_kind h hello call viewer_key hello.auth
      else with_allowed (record h { throttle = r.0 }) hello call viewer_key r.1

  abbrev pub with_verdict :
      HostAuthenticator
      → HelloMessage
      → HelloCall
      → (viewer_key : Bytes) → Verdict
      → HostAuthenticator × HelloOutcome
  with_verdict h hello call viewer_key fresh = throttled h hello call viewer_key
  with_verdict h hello call viewer_key replay = (h, errors replay_code none)
  with_verdict h hello call viewer_key clock_skew = (h, errors clock_skew_code none)

  unfoldable pub check_nonce :
      HostAuthenticator
      → HelloMessage
      → HelloCall
      → (viewer_key : Bytes) → HostAuthenticator × HelloOutcome
  check_nonce h hello call viewer_key =
      let r = Replay.check h.nonces hello.nonce hello.time (call.clock 0) in
      with_verdict (record h { nonces = r.0 }) hello call viewer_key r.1

  abbrev pub with_id :
      HostAuthenticator
      → HelloMessage
      → HelloCall
      → (viewer_key : Bytes) → Option String
      → HostAuthenticator × HelloOutcome
  with_id h hello call viewer_key none = (h, breaks)
  with_id h hello call viewer_key (some id) =
      if not (str_eq id hello.viewer_id)
      then (h, errors protocol none)
      else if not (same_bool (is_grant hello.auth) (is_some hello.grant_id))
      then (h, errors protocol none)
      else check_nonce h hello call viewer_key

  abbrev pub with_key :
      HostAuthenticator → HelloMessage → HelloCall → Option Bytes → HostAuthenticator × HelloOutcome
  with_key h hello call none = (h, breaks)
  with_key h hello call (some viewer_key) =
      with_id h hello call viewer_key (device_id_from_public_key p viewer_key)

  unfoldable pub on_hello :
      HostAuthenticator → HelloMessage → HelloCall → HostAuthenticator × HelloOutcome
  on_hello h hello call =
      if not (hello.v == protocol_version)
      then (h, errors unsupported_version none)
      else if not (str_eq hello.host_id h.device_id)
      then (h, errors unknown_device none)
      else with_key h hello call (b64 p hello.viewer_key)
