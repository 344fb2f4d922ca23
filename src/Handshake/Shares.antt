-- ===== src/Handshake/Shares.antt =====
-- The guards of `onHello`: what a challenge over a secret answers.
use hop_desk.Bytes.{Bytes}
use hop_desk.Encoding.{truthy}
use hop_desk.Grants.{GrantStore}
use hop_desk.Limiter.{AttemptLimiter}
use hop_desk.Replay.{NonceCache}
use hop_desk.Throttle.{PeerThrottle}
use hop_desk.Keys.{Primitives}
use hop_desk.Keys.Identity.{utf8}
use hop_desk.Keys.Spake.{Spake, SpakeResult, new_spake, finish}
use hop_desk.Keys.Spake.SpakeRole.{role_b}
use hop_desk.Handshake.{HelloMessage, b64, binding}
use hop_desk.Handshake.Host.{
  HostAuthenticator, HelloCall, HelloOutcome, challenge_spake, spake_challenge, with_binding,
  with_spake,
}
use hop_desk.Handshake.Routes.{Whenever, SpakeReply}
use hop_desk.Common.{Option, String, none, refl, some, ℕ, ◌≡◌}

module _ (p : Primitives) (h : HostAuthenticator) (hello : HelloMessage) (call : HelloCall)
    (viewer_key : Bytes) where
  -- The host with other components than `h` has.
  module _ (l : AttemptLimiter) (th : PeerThrottle) (n : NonceCache) (g : GrantStore) where
    abbrev now : HostAuthenticator
    now = record h { limiter = l; throttle = th; nonces = n; grants = g }

    module _ (share : String) (has_share : truthy hello.share ≡ some share) (attempt : Option ℕ)
        (w : ℕ) where
      abbrev pub Replies : HelloOutcome → Type 0
      Replies = Whenever (SpakeReply p h hello call viewer_key attempt w)

      module _ (bound : Bytes)
          (e : binding p hello
              (p.base64 h.identity.public_key)
              h.host_name
              (p.base64 call.nonce)
              none
            ≡ some bound)
          (p_a : Bytes) (r : b64 p share ≡ some p_a) where
        finished-Replies :
            (spake : Spake)
            → new_spake p
                (record {
                  role = role_b;
                  id_a = utf8 p hello.viewer_id;
                  id_b = utf8 p h.device_id;
                  w = w;
                })
                call.scalar
              ≡ some spake
            → (o : Option SpakeResult) → (finish p spake p_a bound).1 ≡ o
            → Replies
                (challenge_spake p now hello call viewer_key attempt bound p_a spake.share o).1
        finished-Replies spake k none f = tt
        finished-Replies spake k (some result) f = record {
          share = share;
          bind = bound;
          p_a = p_a;
          spake = spake;
          result = result;
          has_share = has_share;
          binds = e;
          reads = r;
          starts = k;
          finishes = f;
          challenge = refl;
          pending = refl;
        }

        started-Replies :
            (o : Option Spake)
            → new_spake p
                (record {
                  role = role_b;
                  id_a = utf8 p hello.viewer_id;
                  id_b = utf8 p h.device_id;
                  w = w;
                })
                call.scalar
              ≡ o
            → Replies (with_spake p now hello call viewer_key attempt bound p_a o).1
        started-Replies none k = tt
        started-Replies (some spake) k = finished-Replies spake k _ refl

      bound-Replies :
          (b : Option Bytes)
          → binding p hello (p.base64 h.identity.public_key) h.host_name (p.base64 call.nonce) none
            ≡ b
          → (a : Option Bytes) → b64 p share ≡ a
          → Replies (with_binding p now hello call viewer_key attempt w b a).1
      bound-Replies (some b) e (some a) r = started-Replies b e a r _ refl
      bound-Replies none e a r = tt
      bound-Replies (some b) e none r = tt

      pub spake-Replies : Replies (spake_challenge p now hello call viewer_key share attempt w).1
      unfolding spake_challenge
      spake-Replies = bound-Replies _ refl _ refl
