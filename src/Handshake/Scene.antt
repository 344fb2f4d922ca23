-- ===== src/Handshake/Scene.antt =====
-- A desk and a viewer with its access code over the toy primitives, for the witnesses.
use hop_desk.Handshake.Outcome.{rejects, raises}
use hop_desk.Handshake.Host.Proof.{exchange_proof}
use hop_desk.Handshake.Viewer.ViewerSecret.{by_ephemeral}
use hop_desk.Handshake.AuthKind.{code_auth}
use hop_desk.JsMap
use hop_desk.Bytes.{of_be_from, to_be}
use hop_desk.Encoding.{
  equal_bytes, from_base64, is_base64, is_base64_char, encode_fields, encode_bytes, u64le, to_le,
}
use hop_desk.Channel.{derive_session_root}
use hop_desk.Grants.{new_store}
use hop_desk.Limiter
use hop_desk.Limiter.{
  new_limiter, default_limiter_policy, find_record, touch, allocate, evict, decide, older,
  oldest_from, forgettable, begin,
}
use hop_desk.Replay
use hop_desk.Replay.{
  default_cache, new_cache, check, look_up, remember, make_room, drop_old, distance,
}
use hop_desk.Throttle.{new_throttle}
use hop_desk.Text.{decimal}
use hop_desk.Keys.Toy.{toy, repeated}
use hop_desk.Keys.Identity.{
  DeviceIdentity, sign, verify, device_id_from_public_key, password_scalar, secret_scalar,
  bytes_to_scalar, id_chars,
}
use hop_desk.Keys.Spake.{
  new_spake, finish, finish_with, decode_peer_share, derive, spake_key_schedule, transcript_of,
  verify_peer, secret_point,
}
use hop_desk.Keys.Exchange.{ephemeral_of, derive_exchange, exchanged, all_zero}
use hop_desk.Handshake.{
  HelloMessage, ChallengeMessage, binding, root_for, ConfirmMessage, Outcome, accepts,
}
use hop_desk.Handshake.Host.{
  HostAuthenticator, HelloCall, HelloOutcome, Pending, spake_challenge, AuthenticatedViewer,
}
use hop_desk.Handshake.Host.HelloOutcome.{challenges, errors, breaks}
use hop_desk.Handshake.Hello.{on_hello, check_nonce, throttled, exchange_challenge}
use hop_desk.Handshake.Confirm.{confirm, abandon}
use hop_desk.Handshake.Viewer.{
  ViewerHandshake, ViewerHandshakeOptions, ViewerDraw, create, AuthenticatedHost,
}
use hop_desk.Handshake.Viewer.ViewerCredential.{code_credential}
use hop_desk.Common.{String, [], false, none, refl, some, ℕ, ◌+◌, ◌∷◌, ◌≡◌, Option, true}
use hop_desk.Handshake.Answer.{on_challenge}
use hop_desk.JsMap.{JsMap}

unfoldable pub session : Unit {0}
unfolding create on_hello check_nonce throttled spake_challenge exchange_challenge confirm abandon
    on_challenge binding root_for sign verify device_id_from_public_key password_scalar
    secret_scalar bytes_to_scalar id_chars new_spake finish finish_with decode_peer_share derive
    spake_key_schedule transcript_of verify_peer secret_point ephemeral_of derive_exchange exchanged
    all_zero equal_bytes from_base64 is_base64 is_base64_char encode_fields encode_bytes u64le to_le
    of_be_from to_be new_limiter Limiter.begin find_record touch allocate evict Limiter.prune decide
    older oldest_from forgettable JsMap.get JsMap.set JsMap.keep JsMap.delete check Replay.prune
    look_up remember make_room drop_old distance derive_session_root new_store new_throttle decimal
session = tt

abbrev pub identity : ℕ → DeviceIdentity
identity n = record { public_key = repeated 32 n; secret_key = repeated 32 n }

abbrev pub device : String
device = "HD-0000-0000"

abbrev pub desk : HostAuthenticator
desk = record {
  identity = identity 1;
  host_name = "desk";
  device_id = device;
  limiter = new_limiter default_limiter_policy;
  throttle = new_throttle (record { per_window = 30; window_ms = 60_000; max_peers = 512 });
  nonces = default_cache;
  grants = new_store;
}

abbrev pub opts : ViewerHandshakeOptions
opts = record {
  identity = identity 2;
  viewer_name = "lap";
  host_id = device;
  credential = code_credential "K7M2";
  expected_host_key = none;
}

abbrev pub draw : ViewerDraw
draw = record { nonce = 6 ∷ []; time = 1000; scalar = 5; ephemeral = [] }

abbrev pub call : HelloCall
call = record {
  peer = none;
  access_code = some "K7M2";
  trusts = λ id key. false;
  account_authorised = λ id key. false;
  clock = λ k. 1000 + k;
  nonce = 8 ∷ [];
  scalar = 7;
  ephemeral = [];
}

abbrev pub blank_hello : HelloMessage
blank_hello = record {
  v = 0;
  host_id = "";
  viewer_id = "";
  viewer_key = "";
  viewer_name = "";
  nonce = "";
  time = 0;
  auth = code_auth;
  grant_id = none;
  share = none;
  dh = none;
}

abbrev pub made : Option ViewerHandshake → ViewerHandshake
made none = record {
  finished = true;
  opts = opts;
  secret = by_ephemeral (record { secret_key = []; public_key = [] });
  hello = blank_hello;
}
made (some v) = v

abbrev pub lap : ViewerHandshake
lap = made (create toy opts draw)

pub created : create toy opts draw ≡ some lap
unfolding session
created = refl

abbrev pub challenge_in : HelloOutcome → ChallengeMessage
challenge_in (challenges c s) = c
challenge_in (errors code retry) = record {
  host_key = "";
  host_name = "";
  nonce = "";
  share = none;
  dh = none;
  confirm = "";
  signature = "";
}
challenge_in breaks = record {
  host_key = "";
  host_name = "";
  nonce = "";
  share = none;
  dh = none;
  confirm = "";
  signature = "";
}

abbrev pub pending_in : HelloOutcome → Pending
pending_in (challenges c s) = s
pending_in (errors code retry) = record {
  done = true;
  attempt = none;
  hello = blank_hello;
  viewer_key = [];
  proof = exchange_proof (record { ke = []; viewer_confirm = []; host_confirm = [] }) [] [] [];
}
pending_in breaks = record {
  done = true;
  attempt = none;
  hello = blank_hello;
  viewer_key = [];
  proof = exchange_proof (record { ke = []; viewer_confirm = []; host_confirm = [] }) [] [] [];
}

abbrev pub answered : HostAuthenticator × HelloOutcome
answered = on_hello toy desk lap.hello call

pub answered_with : answered.1 ≡ challenges (challenge_in answered.1) (pending_in answered.1)
unfolding session
answered_with = refl

abbrev pub blank_answer : ConfirmMessage × AuthenticatedHost
blank_answer = (
  record { confirm = ""; signature = "" },
  record { host_id = ""; host_key = []; host_name = ""; root = [] },
)

abbrev pub answer_in :
    Outcome (ConfirmMessage × AuthenticatedHost) → ConfirmMessage × AuthenticatedHost
answer_in (accepts a) = a
answer_in (rejects e) = blank_answer
answer_in raises = blank_answer

abbrev pub reply : ConfirmMessage × AuthenticatedHost
reply = answer_in (on_challenge toy lap (challenge_in answered.1)).1

abbrev pub viewer_in : Outcome AuthenticatedViewer → AuthenticatedViewer
viewer_in (accepts a) = a
viewer_in (rejects e) = record {
  viewer_id = "";
  viewer_key = [];
  viewer_name = "";
  auth = code_auth;
  grant_id = none;
  root = [];
}
viewer_in raises = record {
  viewer_id = "";
  viewer_key = [];
  viewer_name = "";
  auth = code_auth;
  grant_id = none;
  root = [];
}
