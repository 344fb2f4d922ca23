-- ===== src/Acceptance/Outcomes.antt =====
-- What a call of `acceptViewer` may promise, with a session and without one.
use hop_desk.Keys.{Primitives}
use hop_desk.Handshake.{HelloMessage, ChallengeMessage, ConfirmMessage, Outcome}
use hop_desk.Handshake.Outcome.{rejects, accepts, raises}
use hop_desk.Handshake.Host.{HostAuthenticator, Pending}
use hop_desk.Handshake.Host.HelloOutcome.{challenges}
use hop_desk.Handshake.Hello.{on_hello}
use hop_desk.Handshake.Confirm.{confirm}
use hop_desk.Handshake.Attempts.{IsProven}
use hop_desk.Acceptance.{
  Decision, Sent, AcceptCall, HostSession, Accepting, of_hello, of_confirm, arrives, allow,
  allow_and_trust, reject, no_decision, plain, control, allows, refuses,
}
use hop_desk.Common.{Bool, List, Option, [], false, none, some, true, ◌∷◌, ◌≡◌, ◌⊎◌}

-- Whether the viewer was told that it is allowed.
unfoldable pub tells_allowed : List Sent → Bool
tells_allowed [] = false
tells_allowed (plain m ∷ sent) = tells_allowed sent
tells_allowed (control (allows id grant trusted) ∷ sent) = true
tells_allowed (control (refuses reason) ∷ sent) = tells_allowed sent

abbrev pub IsSettled : Option Pending → Type 0
IsSettled none = Unit
IsSettled (some s) = s.done ≡ true

abbrev pub IsConsent : Decision → Type 0
IsConsent allow = Unit
IsConsent allow_and_trust = Unit
IsConsent reject = ⊥
IsConsent no_decision = ⊥

-- What stands of a call without a session: the link is closed, no permission was sent, nobody was
-- trusted, and the handshake, if one was begun, is over.
pub record IsRefused (x : Accepting) : Type 0 where
  pub is_closed : x.closes ≡ true
  pub tells_none : tells_allowed x.sent ≡ false
  pub trusts_none : x.trusts ≡ none
  pub is_settled : IsSettled x.pending

module _ (p : Primitives) (a : AcceptCall) (h : HostAuthenticator) where
  -- What stands of a call with a session.
  pub record IsEarned (x : Accepting) (session : HostSession) : Type 0 where
    pub hello : HelloMessage
    pub challenge : ChallengeMessage
    pub pending : Pending
    pub message : ConfirmMessage
    pub greets : a.first ≡ arrives (of_hello hello)
    pub challenged : (on_hello p h hello a.call).1 ≡ challenges challenge pending
    pub answers : a.second ≡ arrives (of_confirm message)
    pub proven :
        IsProven p
          (on_hello p h hello a.call).0
          pending
          message
          a.settled_at
          a.settled_again
          (confirm p (on_hello p h hello a.call).0 pending message a.settled_at a.settled_again).0
          session.viewer
    pub consent :
        (a.needs_consent session.viewer.auth ≡ false) ⊎ ((a.closed ≡ false) × IsConsent a.decision)
    pub trust : (x.trusts ≡ none) ⊎ (a.decision ≡ allow_and_trust)
    pub is_settled : IsSettled x.pending

  abbrev pub EndsBy : Accepting → Outcome HostSession → Type 0
  EndsBy x (accepts session) = IsEarned x session
  EndsBy x (rejects e) = IsRefused x
  EndsBy x raises = IsRefused x
