-- ===== src/Handshake/Offers.antt =====
-- The guards of `onHello`: what a challenge with an exchange answers.
use hop_desk.Bytes.{Bytes}
use hop_desk.Encoding.{truthy}
use hop_desk.Replay.{NonceCache}
use hop_desk.Throttle.{PeerThrottle}
use hop_desk.Keys.Exchange.{Exchanged, ephemeral_of, derive_exchange}
use hop_desk.Keys.{Primitives}
use hop_desk.Handshake.{HelloMessage, b64, binding}
use hop_desk.Handshake.Host.{HostAuthenticator, HelloCall}
use hop_desk.Handshake.Routes.{Whenever, ExchangeReply}
use hop_desk.Common.{Option, String, none, refl, some, ◌≡◌}
use hop_desk.Handshake.Hello.{challenge_exchange, exchange_challenge, with_dh}

module _ (p : Primitives) (h : HostAuthenticator) (hello : HelloMessage) (call : HelloCall)
    (viewer_key : Bytes) where
  module _ (n : NonceCache) where
    exchange_derived :
        (dh : String)
        → truthy hello.dh ≡ some dh
        → (th : PeerThrottle) (bound viewer_dh : Bytes)
        → binding p hello
            (p.base64 h.identity.public_key)
            h.host_name
            (p.base64 call.nonce)
            (some (p.base64 (ephemeral_of p call.ephemeral).public_key))
          ≡ some bound
        → b64 p dh ≡ some viewer_dh
        → (o : Option Exchanged)
        → derive_exchange p (ephemeral_of p call.ephemeral) viewer_dh bound ≡ o
        → Whenever (ExchangeReply p h hello call viewer_key) (
            challenge_exchange p
              (record h { throttle = th; nonces = n })
              hello
              call
              viewer_key
              bound
              viewer_dh
              (ephemeral_of p call.ephemeral).public_key
              o)
    exchange_derived dh has th bound viewer_dh e r none d = tt
    exchange_derived dh has th bound viewer_dh e r (some derived) d = record {
      dh = dh;
      bind = bound;
      viewer_dh = viewer_dh;
      derived = derived;
      has_dh = has;
      binds = e;
      reads = r;
      derives = d;
      challenge = refl;
      pending = refl;
    }

    exchange_bound :
        (dh : String)
        → truthy hello.dh ≡ some dh
        → (th : PeerThrottle) (b : Option Bytes)
        → binding p hello
            (p.base64 h.identity.public_key)
            h.host_name
            (p.base64 call.nonce)
            (some (p.base64 (ephemeral_of p call.ephemeral).public_key))
          ≡ b
        → (a : Option Bytes) → b64 p dh ≡ a
        → Whenever (ExchangeReply p h hello call viewer_key) (
            with_dh p
              (record h { throttle = th; nonces = n })
              hello
              call
              viewer_key
              (ephemeral_of p call.ephemeral)
              b
              a)
    exchange_bound dh has th (some b) e (some a) r = exchange_derived dh has th b a e r _ refl
    exchange_bound dh has th none e a r = tt
    exchange_bound dh has th (some b) e none r = tt

    pub exchange_reply :
        (dh : String)
        → truthy hello.dh ≡ some dh
        → (th : PeerThrottle)
        → Whenever
            (ExchangeReply p h hello call viewer_key)
            (exchange_challenge p (record h { throttle = th; nonces = n }) hello call viewer_key dh)
    unfolding exchange_challenge
    exchange_reply dh has th = exchange_bound dh has th _ refl _ refl
