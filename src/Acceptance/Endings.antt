-- ===== src/Acceptance/Endings.antt =====
-- How a call of `acceptViewer` ends: with a session that was earned, or with a closed link.
use hop_desk.Acceptance.Outcomes.{tells_allowed, IsConsent, IsRefused, IsEarned, EndsBy}
use hop_desk.Keys.{Primitives}
use hop_desk.Handshake.{
  HelloMessage, ChallengeMessage, ConfirmMessage, HandshakeError, Outcome, error_of,
}
use hop_desk.Handshake.ErrorCode.{protocol}
use hop_desk.Handshake.Outcome.{rejects, accepts, raises}
use hop_desk.Handshake.Host.{HostAuthenticator, HelloOutcome, AuthenticatedViewer, Pending}
use hop_desk.Handshake.Host.HelloOutcome.{challenges, errors, breaks}
use hop_desk.Handshake.Hello.{on_hello}
use hop_desk.Handshake.Confirm.{confirm}
use hop_desk.Handshake.Attempts.{
  IsProven, confirm-IsProven, use_once-done_after, confirms_with, abandons,
}
use hop_desk.Acceptance.{
  Next, Decision, Sent, AcceptCall, HostSession, Accepting, RejectReason, of_hello, of_challenge,
  of_confirm, of_error, of_sealed, arrives, fails, allow, allow_and_trust, reject, no_decision,
  user_rejected, no_answer, plain, refuses, abandoned, accept_viewer, allowed_session, consented,
  decided, ended, is_bad_auth, send_control, with_confirmed, with_first, with_outcome, with_second,
}
use hop_desk.Common.{
  Bool, List, Option, [], false, if_both, if_cases, inl, inr, none, refl, some, subst⁻¹, true, ◌∷◌,
  ◌≡◌, ◌⊎◌, false≢true, subst, sym,
}

module _ (p : Primitives) (a : AcceptCall) (h : HostAuthenticator) where
  abbrev Ends : Accepting → Type 0
  Ends x = EndsBy p a h x x.result

  module _ (hello : HelloMessage) (greets : a.first ≡ arrives (of_hello hello))
      (c : ChallengeMessage) (pending : Pending)
      (challenged : (on_hello p h hello a.call).1 ≡ challenges c pending) where
    abbrev then : HostAuthenticator
    then = (on_hello p h hello a.call).0

    abbrev first_sent : List Sent
    first_sent = plain (of_challenge c) ∷ []

    module _ (message : ConfirmMessage) (answers : a.second ≡ arrives (of_confirm message)) where
      abbrev done_now : HostAuthenticator × Pending × Outcome AuthenticatedViewer
      done_now = confirm p then pending message a.settled_at a.settled_again

      is_done : done_now.1.done ≡ true
      is_done =
          use_once-done_after p (then, pending) (confirms_with message a.settled_at a.settled_again)

      module _ (viewer : AuthenticatedViewer) (taken : done_now.2 ≡ accepts viewer) where
        is_proven : IsProven p then pending message a.settled_at a.settled_again done_now.0 viewer
        is_proven =
            (confirm-IsProven p then pending message a.settled_at a.settled_again viewer taken).1

        session-Ends :
            (trusts : Option AuthenticatedViewer) (trusted : Bool)
            → (a.needs_consent viewer.auth ≡ false) ⊎ ((a.closed ≡ false) × IsConsent a.decision)
            → (trusts ≡ none) ⊎ (a.decision ≡ allow_and_trust)
            → Ends (allowed_session p a done_now.0 done_now.1 first_sent viewer trusts trusted)
        unfolding allowed_session
        session-Ends trusts trusted consent trust = record {
          hello = hello;
          challenge = c;
          pending = pending;
          message = message;
          greets = greets;
          challenged = challenged;
          answers = answers;
          proven = is_proven;
          consent = consent;
          trust = trust;
          is_settled = is_done;
        }

        tells_refusal :
            (reason : RejectReason)
            → tells_allowed (send_control p a (refuses reason) first_sent) ≡ false
        unfolding tells_allowed
        tells_refusal reason =
            if_both (λ (s : List Sent). tells_allowed s ≡ false) a.closed refl refl

        decided-Ends :
            (d : Decision)
            → a.decision ≡ d
            → a.closed ≡ false
            → Ends (decided p a done_now.0 done_now.1 first_sent viewer d)
        decided-Ends allow e f = session-Ends none _ (inr (f, subst⁻¹ IsConsent e tt)) (inl refl)
        decided-Ends allow_and_trust e f =
            session-Ends (some viewer) _ (inr (f, subst⁻¹ IsConsent e tt)) (inr e)
        decided-Ends reject e f = record {
          is_closed = refl;
          tells_none = tells_refusal user_rejected;
          trusts_none = refl;
          is_settled = is_done;
        }
        decided-Ends no_decision e f = record {
          is_closed = refl;
          tells_none = tells_refusal no_answer;
          trusts_none = refl;
          is_settled = is_done;
        }

        consented-Ends : Ends (consented p a done_now.0 done_now.1 first_sent viewer)
        unfolding consented tells_allowed
        consented-Ends =
            if_cases Ends (a.needs_consent viewer.auth)
              (λ y.
                if_cases Ends a.closed
                  (λ f. record {
                    is_closed = refl;
                    tells_none = refl;
                    trusts_none = refl;
                    is_settled = is_done;
                  })
                  (λ f. decided-Ends a.decision refl f))
              (λ n. session-Ends none _ (inl n) (inl refl))

      confirmed-Ends :
          (o : Outcome AuthenticatedViewer)
          → done_now.2 ≡ o
          → Ends (with_confirmed p a done_now.0 done_now.1 first_sent o)
      unfolding tells_allowed
      confirmed-Ends (accepts viewer) e = consented-Ends viewer e
      confirmed-Ends (rejects r) e = record {
        is_closed = refl;
        tells_none =
            if_both (λ (s : List Sent). tells_allowed s ≡ false) (is_bad_auth r.code) refl refl;
        trusts_none = refl;
        is_settled = is_done;
      }
      confirmed-Ends raises e = record {
        is_closed = refl;
        tells_none = refl;
        trusts_none = refl;
        is_settled = is_done;
      }

    abandoned-Ends : (e : HandshakeError) → Ends (abandoned p a then pending first_sent e)
    unfolding tells_allowed
    abandoned-Ends e = record {
      is_closed = refl;
      tells_none = refl;
      trusts_none = refl;
      is_settled = use_once-done_after p (then, pending) (abandons a.settled_at a.settled_again);
    }

    second-Ends : (n : Next) → a.second ≡ n → Ends (with_second p a then pending first_sent n)
    second-Ends (arrives (of_confirm m)) e = confirmed-Ends m e _ refl
    second-Ends (arrives (of_hello m)) e = abandoned-Ends (error_of protocol)
    second-Ends (arrives (of_challenge m)) e = abandoned-Ends (error_of protocol)
    second-Ends (arrives (of_error code retry)) e = abandoned-Ends (error_of protocol)
    second-Ends (arrives (of_sealed s)) e = abandoned-Ends (error_of protocol)
    second-Ends (fails err) e = abandoned-Ends err

  outcome-Ends :
      (hello : HelloMessage)
      → a.first ≡ arrives (of_hello hello)
      → (o : HelloOutcome) → (on_hello p h hello a.call).1 ≡ o
      → Ends (with_outcome p a (on_hello p h hello a.call).0 o)
  unfolding tells_allowed
  outcome-Ends hello g (challenges c pending) e = second-Ends hello g c pending e a.second refl
  outcome-Ends hello g (errors code retry) e = record {
    is_closed = refl;
    tells_none = refl;
    trusts_none = refl;
    is_settled = tt;
  }
  outcome-Ends hello g breaks e = record {
    is_closed = refl;
    tells_none = refl;
    trusts_none = refl;
    is_settled = tt;
  }

  early-IsRefused : (o : HandshakeError) → IsRefused (ended h none [] (rejects o))
  unfolding tells_allowed
  early-IsRefused o = record {
    is_closed = refl;
    tells_none = refl;
    trusts_none = refl;
    is_settled = tt;
  }

  first-Ends : (n : Next) → a.first ≡ n → Ends (with_first p a h n)
  first-Ends (arrives (of_hello hello)) e = outcome-Ends hello e _ refl
  first-Ends (arrives (of_confirm m)) e = early-IsRefused (error_of protocol)
  first-Ends (arrives (of_challenge m)) e = early-IsRefused (error_of protocol)
  first-Ends (arrives (of_error code retry)) e = early-IsRefused (error_of protocol)
  first-Ends (arrives (of_sealed s)) e = early-IsRefused (error_of protocol)
  first-Ends (fails err) e = early-IsRefused err

  ends : Ends (accept_viewer p a h)
  unfolding accept_viewer
  ends = first-Ends a.first refl

  -- A session is given only when the first message was a hello that the authenticator challenged,
  -- the second a confirmation that proves the viewer, the person has allowed it in time, where the
  -- kind needs consent, and the viewer had not left by then; only a viewer that the person also
  -- trusts is handed on to be remembered, and the handshake is over.
  pub accept_viewer-IsEarned :
      (session : HostSession)
      → (accept_viewer p a h).result ≡ accepts session
      → IsEarned p a h (accept_viewer p a h) session
  accept_viewer-IsEarned session e = subst (EndsBy p a h (accept_viewer p a h)) e ends

  abbrev pub is_accepted : Outcome HostSession → Bool
  is_accepted (accepts session) = true
  is_accepted (rejects e) = false
  is_accepted raises = false

  outcome-IsRefused :
      (x : Accepting) (o : Outcome HostSession)
      → EndsBy p a h x o
      → is_accepted o ≡ false
      → IsRefused x
  outcome-IsRefused x (accepts session) e f = absurd (false≢true (sym f))
  outcome-IsRefused x (rejects r) e f = e
  outcome-IsRefused x raises e f = e

  -- Whatever arrives, and whenever: a call that gives no session closes the link, has told the
  -- viewer no permission, has handed nobody on to be trusted, and leaves no handshake open.
  pub accept_viewer-IsRefused :
      is_accepted (accept_viewer p a h).result ≡ false → IsRefused (accept_viewer p a h)
  accept_viewer-IsRefused f = outcome-IsRefused (accept_viewer p a h) _ ends f
