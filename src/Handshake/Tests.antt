-- ===== src/Handshake/Tests.antt =====
-- One session by an access code over the toy primitives, and the theorems at it.
use hop_desk.Handshake.Devices.{device-Agree}
use hop_desk.Handshake.Attempts.Use.{confirms_with, abandons}
use hop_desk.Bytes.{Bytes}
use hop_desk.Encoding.{codes}
use hop_desk.Throttle.{new_throttle, admit, allow, count_in, drop_over, restart, window_or_new}
use hop_desk.Keys.Toy.{toy, repeated, toy-IsCurve, toy-round, show_bytes}
use hop_desk.Handshake.{ConfirmMessage, Outcome}
use hop_desk.Handshake.Host.{
  HostAuthenticator, HelloCall, HelloOutcome, Pending, AuthenticatedViewer,
}
use hop_desk.Handshake.Hello.{on_hello}
use hop_desk.Handshake.Confirm.{confirm}
use hop_desk.Handshake.Viewer.{ViewerHandshake, ViewerHandshakeOptions, create}
use hop_desk.Handshake.Viewer.ViewerCredential.{paired_credential}
use hop_desk.Handshake.Laws.{IsFaithful}
use hop_desk.Handshake.Completeness.{Agree}
use hop_desk.Handshake.Codes.{AreHonest, code-Agree}
use hop_desk.Common.{
  String, [], false, refl, ℕ, ◌+◌, ◌∷◌, ◌≡◌, ap, false≢true, length, ltb, str_eq, suc, true, zero,
  Bool-cases, arith, eq_iff, inl, inr, sym, ◌*◌, ◌==◌, ◌∙◌,
}
use hop_desk.Handshake.Admission.{Admits, on_hello-Admits}
use hop_desk.Handshake.Attempts.{IsProven, confirm-IsProven, use_all, use_all-first, use_once}
use hop_desk.Handshake.Hosts.{IsTrusted, on_challenge-IsTrusted}
use hop_desk.Handshake.Scene.{
  answered, answered_with, call, challenge_in, created, desk, draw, lap, made, opts, pending_in,
  reply, session, viewer_in,
}

toy_expands : (n : ℕ) → length (repeated n 3) ≡ n
toy_expands zero = refl
toy_expands (suc n) = ap suc (toy_expands n)

cons_empty : (b : ℕ) (bs : Bytes) → b ∷ bs ≡ [] → ⊥
cons_empty b bs e = cc

not_empty : (s : String) (b : ℕ) (bs : Bytes) → codes s ≡ b ∷ bs → str_eq s "" ≡ false
not_empty s b bs e = elim (Bool-cases (str_eq s "")) [
  | inl h ↦ absurd (cons_empty b bs (sym e ∙ ap codes ((eq_iff s "").0 h)))
  | inr h ↦ h
]

toy_shows : (b : Bytes) → ltb 0 (length b) ≡ true → str_eq (show_bytes b) "" ≡ false
toy_shows [] e = absurd (false≢true e)
toy_shows (zero ∷ bs) e = not_empty _ 66 _ refl
toy_shows (suc n ∷ bs) e = not_empty _ 65 _ refl

toy-IsFaithful : IsFaithful toy
toy-IsFaithful = record {
  round = toy-round;
  shows = toy_shows;
  digest = λ b. refl;
  expands = λ k s i n. toy_expands n;
}

nonzero_a : (w : ℕ) → 2 * w + 5 == 0 ≡ false
nonzero_a w = ground arith

nonzero_b : (w : ℕ) → 3 * w + 7 == 0 ≡ false
nonzero_b w = ground arith

honest : AreHonest toy toy-IsFaithful toy-IsCurve opts draw desk call "K7M2"
unfolding session
honest = record {
  has_code = refl;
  same_code = refl;
  viewer_signs = λ l m. refl;
  host_signs = λ l m. refl;
  own_id = refl;
  pins = refl;
  some_a = λ w e. nonzero_a w;
  some_b = λ w e. nonzero_b w;
  some_k = refl;
}

code-Agree_example : Agree toy lap (challenge_in answered.1) desk (pending_in answered.1) 1010 1011
unfolding session
code-Agree_example =
    code-Agree toy toy-IsFaithful toy-IsCurve opts draw desk call "K7M2" honest lap
      (challenge_in answered.1) (pending_in answered.1) desk 1010 1011 created answered_with

on_hello-Admits_example :
    Admits toy desk lap.hello call (challenge_in answered.1) (pending_in answered.1)
on_hello-Admits_example =
    on_hello-Admits toy desk lap.hello call (challenge_in answered.1) (pending_in answered.1)
      answered_with

on_challenge-IsTrusted_example :
    (lap.finished ≡ false) × IsTrusted toy lap (challenge_in answered.1) reply.1
unfolding session
on_challenge-IsTrusted_example =
    on_challenge-IsTrusted toy lap (challenge_in answered.1) reply.0 reply.1 refl

abbrev confirmed : HostAuthenticator × Pending × Outcome AuthenticatedViewer
confirmed = confirm toy answered.0 (pending_in answered.1) reply.0 1010 1011

confirm-IsProven_example :
    ((pending_in answered.1).done ≡ false)
    × IsProven toy answered.0
        (pending_in answered.1)
        reply.0
        1010
        1011
        confirmed.0
        (viewer_in confirmed.2)
unfolding session
confirm-IsProven_example =
    confirm-IsProven toy answered.0 (pending_in answered.1) reply.0 1010 1011
      (viewer_in confirmed.2) refl

-- A confirmation that fails, and then the right one: only the failure counts.
abbrev wrong : ConfirmMessage
wrong = record { confirm = ""; signature = "" }

use_all-first_example :
    use_all toy
      (answered.0, pending_in answered.1)
      (confirms_with wrong 1010 1011 ∷ confirms_with reply.0 1012 1013 ∷ abandons 1014 1015 ∷ [])
    ≡ use_once toy (answered.0, pending_in answered.1) (confirms_with wrong 1010 1011)
use_all-first_example =
    use_all-first toy (answered.0, pending_in answered.1) (confirms_with wrong 1010 1011)
      (confirms_with reply.0 1012 1013 ∷ abandons 1014 1015 ∷ [])

-- The same two devices, by trust.
abbrev trusting : HelloCall
trusting = record call { trusts = λ id key. true }

abbrev paired : ViewerHandshakeOptions
paired = record opts { credential = paired_credential }

abbrev pad : ViewerHandshake
pad = made (create toy paired draw)

abbrev trusted : HostAuthenticator × HelloOutcome
trusted = on_hello toy desk pad.hello trusting

device-Agree_example : Agree toy pad (challenge_in trusted.1) desk (pending_in trusted.1) 1010 1011
unfolding session hop_desk.Throttle.allow hop_desk.Throttle.admit hop_desk.Throttle.drop_over
    hop_desk.Throttle.count_in hop_desk.Throttle.restart hop_desk.Throttle.window_or_new
device-Agree_example =
    device-Agree toy paired draw toy-IsFaithful
      (record { size = λ s. refl; commutes = λ a b. refl }) desk trusting
      (record {
        knows = refl;
        viewer_signs = λ l m. refl;
        host_signs = λ l m. refl;
        own_id = refl;
        pins = refl;
      })
      pad (challenge_in trusted.1) (pending_in trusted.1) desk 1010 1011 refl refl
