-- ===== src/Acceptance/Tests.antt =====
-- Two calls over the toy primitives: a viewer that was let in, and one whose confirmation is wrong.
use hop_desk.Handshake.Scene.{session, desk, call, lap, reply, viewer_in}
use hop_desk.Keys.Toy.{toy, repeated}
use hop_desk.Handshake.{Outcome}
use hop_desk.Handshake.Outcome.{accepts, rejects, raises}
use hop_desk.Acceptance.{
  AcceptCall, HostSession, accept_viewer, asks_default, allow_and_trust, arrives, of_hello,
  of_confirm, allowed_session, consented,
}
use hop_desk.Acceptance.Outcomes.{IsEarned, IsRefused, tells_allowed}
use hop_desk.Acceptance.Endings.{accept_viewer-IsEarned, accept_viewer-IsRefused}
use hop_desk.Common.{[], false, refl, true, ◌∷◌}

acceptance : Unit {0}
unfolding accept_viewer consented allowed_session session hop_desk.Grants.issue
    hop_desk.Grants.prune hop_desk.Grants.revoke_each hop_desk.Grants.add_grant tells_allowed
acceptance = tt

abbrev letting : AcceptCall
letting = record {
  call = call;
  first = arrives (of_hello lap.hello);
  second = arrives (of_confirm reply.0);
  settled_at = 1010;
  settled_again = 1011;
  needs_consent = asks_default;
  decision = allow_and_trust;
  closed = false;
  keeps_trust = true;
  grant_ttl = 600_000;
  grant_id = "g";
  grant_secret = repeated 32 1;
  grant_at = 1012;
  grant_again = 1013;
  session_id = 1 ∷ [];
}

abbrev blank_session : HostSession
blank_session = record { viewer = viewer_in raises; session_id = ""; grant_id = "" }

abbrev session_in : Outcome HostSession → HostSession
session_in (accepts s) = s
session_in (rejects e) = blank_session
session_in raises = blank_session

abbrev let_in : HostSession
let_in = session_in (accept_viewer toy letting desk).result

accept_viewer-IsEarned_example : IsEarned toy letting desk (accept_viewer toy letting desk) let_in
unfolding acceptance
accept_viewer-IsEarned_example = accept_viewer-IsEarned toy letting desk let_in refl

abbrev failing : AcceptCall
failing = record letting { second = arrives (of_confirm (record { confirm = ""; signature = "" })) }

accept_viewer-IsRefused_example : IsRefused (accept_viewer toy failing desk)
unfolding acceptance
accept_viewer-IsRefused_example = accept_viewer-IsRefused toy failing desk refl
