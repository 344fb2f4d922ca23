-- ===== src/Acceptance.antt =====
-- packages/protocol/src/session.ts: `acceptViewer`, from the first message to the answer. What comes
-- from outside is an `AcceptCall`: what each wait on the inbox gives, the person's answer, and what
-- is drawn and read on the way. The store of grants is the authenticator's.
pub mod Outcomes
pub mod Endings
mod Tests
use hop_desk.Bytes.{Bytes}
use hop_desk.Grants.{GrantStore, issue, extend}
use hop_desk.Keys.{Primitives}
use hop_desk.Encoding.{truthy}
use hop_desk.Handshake.{
  AuthKind, HelloMessage, ChallengeMessage, ConfirmMessage, ErrorCode, HandshakeError, Outcome,
  error_of,
}
use hop_desk.Handshake.AuthKind.{code_auth, grant_auth, paired_auth, account_auth}
use hop_desk.Handshake.ErrorCode.{bad_auth, protocol, closed_code, rejected_code}
use hop_desk.Handshake.Outcome.{rejects, accepts, raises}
use hop_desk.Handshake.Host.{
  HostAuthenticator, HelloCall, HelloOutcome, AuthenticatedViewer, Pending, is_grant,
}
use hop_desk.Handshake.Host.HelloOutcome.{challenges, errors, breaks}
use hop_desk.Handshake.Hello.{on_hello}
use hop_desk.Handshake.Confirm.{confirm, abandon}
use hop_desk.Common.{
  Bool, List, Option, String, [], false, if◌then◌else◌, none, some, true, ℕ, ◌++◌, ◌∷◌,
}

pub data SignalingMessage : Type 0 where
  of_hello : HelloMessage → SignalingMessage
  of_challenge : ChallengeMessage → SignalingMessage
  of_confirm : ConfirmMessage → SignalingMessage
  of_error : ErrorCode → (retry_after_ms : Option ℕ) → SignalingMessage
  of_sealed : (sealed : String) → SignalingMessage

-- How `inbox.next` ends.
pub data Next : Type 0 where
  arrives : SignalingMessage → Next
  fails : HandshakeError → Next

-- `ConsentDecision`, and that none came in time.
pub data Decision : Type 0 where
  allow allow_and_trust reject no_decision : Decision

-- `user-rejected` and `timeout`, the reasons that are given here.
pub data RejectReason : Type 0 where
  user_rejected no_answer : RejectReason

pub record GrantMessage : Type 0 where
  pub id : String
  pub secret : String
  pub expires_at : ℕ

-- The control message `auth-result`.
pub data AuthResult : Type 0 where
  allows : (session_id : String) → Option GrantMessage → (trusted : Bool) → AuthResult
  refuses : RejectReason → AuthResult

pub data Sent : Type 0 where
  plain : SignalingMessage → Sent
  control : AuthResult → Sent

pub record AcceptCall : Type 0 where
  pub call : HelloCall
  pub first : Next
  pub second : Next
  pub settled_at : ℕ
  pub settled_again : ℕ
  pub needs_consent : AuthKind → Bool
  pub decision : Decision
  pub closed : Bool
  pub keeps_trust : Bool
  pub grant_ttl : ℕ
  pub grant_id : String
  pub grant_secret : Bytes
  pub grant_at : ℕ
  pub grant_again : ℕ
  pub session_id : Bytes

-- The default of `needsConsent`.
abbrev pub asks_default : AuthKind → Bool
asks_default code_auth = true
asks_default grant_auth = false
asks_default paired_auth = false
asks_default account_auth = true

pub record HostSession : Type 0 where
  pub viewer : AuthenticatedViewer
  pub session_id : String
  pub grant_id : String

-- Where a call ends: the host, the handshake if one was begun, what was sent, the viewer handed to
-- `onTrust`, whether the link was closed, and the result.
pub record Accepting : Type 0 where
  pub host : HostAuthenticator
  pub pending : Option Pending
  pub sent : List Sent
  pub trusts : Option AuthenticatedViewer
  pub closes : Bool
  pub result : Outcome HostSession

abbrev pub ended : HostAuthenticator → Option Pending → List Sent → Outcome HostSession → Accepting
ended h pending sent result = record {
  host = h;
  pending = pending;
  sent = sent;
  trusts = none;
  closes = true;
  result = result;
}

abbrev pub is_bad_auth : ErrorCode → Bool
is_bad_auth bad_auth = true
is_bad_auth code = false

abbrev pub is_paired : AuthKind → Bool
is_paired paired_auth = true
is_paired code_auth = false
is_paired grant_auth = false
is_paired account_auth = false

module _ (p : Primitives) (a : AcceptCall) where
  -- `control.send`, which does nothing on a closed link.
  abbrev pub send_control : AuthResult → List Sent → List Sent
  send_control m sent = if a.closed then sent else sent ++ control m ∷ []

  -- The grant of a session: a viewer that came by one keeps it.
  abbrev pub grant_for :
      GrantStore → AuthenticatedViewer → Option String → GrantStore × String × Option GrantMessage
  grant_for s viewer (some id) = (extend s id a.grant_ttl a.grant_at, id, none)
  grant_for s viewer none =
      let r =
        issue s a.grant_id a.grant_secret viewer.viewer_key a.grant_ttl a.grant_at a.grant_again in
      let grant = r.0.heap r.1 in
      (
        r.0,
        grant.id,
        some (record {
          id = grant.id;
          secret = p.base64 grant.secret;
          expires_at = grant.expires_at;
        }),
      )

  abbrev pub resumed : AuthenticatedViewer → Option String
  resumed viewer = if is_grant viewer.auth then truthy viewer.grant_id else none

  -- The session is allowed.
  unfoldable pub allowed_session :
      HostAuthenticator
      → Pending
      → List Sent
      → AuthenticatedViewer
      → (trusts : Option AuthenticatedViewer) → (trusted : Bool) → Accepting
  allowed_session h pending sent viewer trusts trusted =
      let g = grant_for h.grants viewer (resumed viewer) in
      let session_id = p.base64 a.session_id in
      record {
        host = record h { grants = g.0 };
        pending = some pending;
        sent = send_control (allows session_id g.2 trusted) sent;
        trusts = trusts;
        closes = false;
        result = accepts (record { viewer = viewer; session_id = session_id; grant_id = g.1 });
      }

  abbrev pub refused_session : HostAuthenticator → Pending → List Sent → RejectReason → Accepting
  refused_session h pending sent reason =
      ended h (some pending) (send_control (refuses reason) sent) (rejects (error_of rejected_code))

  abbrev pub decided :
      HostAuthenticator → Pending → List Sent → AuthenticatedViewer → Decision → Accepting
  decided h pending sent viewer allow =
      allowed_session h pending sent viewer none (is_paired viewer.auth)
  decided h pending sent viewer allow_and_trust =
      allowed_session h pending sent viewer (some viewer)
        (if a.keeps_trust then true else is_paired viewer.auth)
  decided h pending sent viewer reject = refused_session h pending sent user_rejected
  decided h pending sent viewer no_decision = refused_session h pending sent no_answer

  -- The person is asked; a viewer that has left gets nothing.
  unfoldable pub consented :
      HostAuthenticator → Pending → List Sent → AuthenticatedViewer → Accepting
  consented h pending sent viewer =
      if a.needs_consent viewer.auth
      then (if a.closed
          then ended h (some pending) sent (rejects (error_of closed_code))
          else decided h pending sent viewer a.decision)
      else allowed_session h pending sent viewer none (is_paired viewer.auth)

  abbrev pub with_confirmed :
      HostAuthenticator → Pending → List Sent → Outcome AuthenticatedViewer → Accepting
  with_confirmed h pending sent (accepts viewer) = consented h pending sent viewer
  with_confirmed h pending sent (rejects e) =
      ended h (some pending)
        (if is_bad_auth e.code then sent ++ plain (of_error bad_auth none) ∷ [] else sent)
        (rejects e)
  with_confirmed h pending sent raises = ended h (some pending) sent raises

  abbrev pub abandoned : HostAuthenticator → Pending → List Sent → HandshakeError → Accepting
  abandoned h pending sent e =
      let r = abandon h pending a.settled_at a.settled_again in
      ended r.0 (some r.1) sent (rejects e)

  abbrev pub with_second : HostAuthenticator → Pending → List Sent → Next → Accepting
  with_second h pending sent (arrives (of_confirm m)) =
      let r = confirm p h pending m a.settled_at a.settled_again in with_confirmed r.0 r.1 sent r.2
  with_second h pending sent (arrives m) = abandoned h pending sent (error_of protocol)
  with_second h pending sent (fails e) = abandoned h pending sent e

  abbrev pub with_outcome : HostAuthenticator → HelloOutcome → Accepting
  with_outcome h (challenges c pending) =
      with_second h pending (plain (of_challenge c) ∷ []) a.second
  with_outcome h (errors code retry) =
      ended h none (plain (of_error code retry) ∷ [])
        (rejects (record { code = code; retry_after_ms = retry; presented_key = none }))
  with_outcome h breaks = ended h none [] raises

  abbrev pub with_first : HostAuthenticator → Next → Accepting
  with_first h (arrives (of_hello hello)) =
      let r = on_hello p h hello a.call in with_outcome r.0 r.1
  with_first h (arrives m) = ended h none [] (rejects (error_of protocol))
  with_first h (fails e) = ended h none [] (rejects e)

  unfoldable pub accept_viewer : HostAuthenticator → Accepting
  accept_viewer h = with_first h a.first
