-- ===== src/Handshake/Routes.antt =====
-- What `onHello` has checked, and where its answer comes from, when it answers with a challenge.
use Prim.Native.String.{◌++◌ as append}
use hop_desk.Bytes.{Bytes}
use hop_desk.Encoding.{equal_bytes, truthy}
use hop_desk.Grants
use hop_desk.Grants.{find, GrantStore}
use hop_desk.Limiter
use hop_desk.Limiter.{AttemptDecision, Reason, begin}
use hop_desk.Limiter.AttemptDecision.{granted, refused}
use hop_desk.Limiter.Reason.{locked, busy}
use hop_desk.Throttle
use hop_desk.Throttle.{Allowed, allow}
use hop_desk.Throttle.Allowed.{allowed, wait}
use hop_desk.Keys.{Primitives}
use hop_desk.Keys.Identity.{sign, utf8, password_scalar, secret_scalar}
use hop_desk.Keys.Spake.{Spake, SpakeResult, new_spake, finish}
use hop_desk.Keys.Spake.SpakeRole.{role_b}
use hop_desk.Keys.Exchange.{Exchanged, ephemeral_of, derive_exchange}
use hop_desk.Handshake.{
  HelloMessage, ChallengeMessage, host_label, b64, binding, signed_body, or_no_text,
}
use hop_desk.Handshake.AuthKind.{code_auth, grant_auth, paired_auth, account_auth}
use hop_desk.Handshake.Host.{HostAuthenticator, HelloCall, HelloOutcome, Pending, challenge_of, who}
use hop_desk.Handshake.Host.HelloOutcome.{challenges, errors, breaks}
use hop_desk.Handshake.Host.Proof.{spake_proof, exchange_proof}
use hop_desk.Common.{Option, String, false, none, some, true, ℕ, ◌≡◌}

-- A property of the challenge and the pending handshake, where an outcome has them.
abbrev pub Whenever : (ChallengeMessage → Pending → Type 0) → HelloOutcome → Type 0
Whenever P (challenges c s) = P c s
Whenever P (errors code retry) = Unit
Whenever P breaks = Unit

pub whenever :
    (P Q : ChallengeMessage → Pending → Type 0)
    → ((c : ChallengeMessage) (s : Pending) → P c s → Q c s)
    → (o : HelloOutcome) → Whenever P o
    → Whenever Q o
whenever P Q f (challenges c s) w = f c s w
whenever P Q f (errors code retry) w = tt
whenever P Q f breaks w = tt

module _ (p : Primitives) (h : HostAuthenticator) (hello : HelloMessage) (call : HelloCall)
    (viewer_key : Bytes) where
  -- The challenge and the pending handshake come of a SPAKE2 with the secret `w`.
  pub record SpakeReply (attempt : Option ℕ) (w : ℕ) (c : ChallengeMessage) (s : Pending)
      : Type 0 where
    pub share : String
    pub bind : Bytes
    pub p_a : Bytes
    pub spake : Spake
    pub result : SpakeResult
    pub has_share : truthy hello.share ≡ some share
    pub binds :
        binding p hello (p.base64 h.identity.public_key) h.host_name (p.base64 call.nonce) none
        ≡ some bind
    pub reads : b64 p share ≡ some p_a
    pub starts :
        new_spake p
          (record {
            role = role_b;
            id_a = utf8 p hello.viewer_id;
            id_b = utf8 p h.device_id;
            w = w;
          })
          call.scalar
        ≡ some spake
    pub finishes : (finish p spake p_a bind).1 ≡ some result
    pub challenge :
        c
        ≡ challenge_of p h call.nonce
            (some (p.base64 spake.share))
            none
            result.confirmation
            (sign p h.identity host_label (signed_body p bind p_a spake.share result.confirmation))
    pub pending : s ≡ record {
      done = false;
      attempt = attempt;
      hello = hello;
      viewer_key = viewer_key;
      proof = spake_proof result bind p_a spake.share;
    }

  -- They come of an exchange of ephemeral keys.
  pub record ExchangeReply (c : ChallengeMessage) (s : Pending) : Type 0 where
    pub dh : String
    pub bind : Bytes
    pub viewer_dh : Bytes
    pub derived : Exchanged
    pub has_dh : truthy hello.dh ≡ some dh
    pub binds :
        binding p hello
          (p.base64 h.identity.public_key)
          h.host_name
          (p.base64 call.nonce)
          (some (p.base64 (ephemeral_of p call.ephemeral).public_key))
        ≡ some bind
    pub reads : b64 p dh ≡ some viewer_dh
    pub derives : derive_exchange p (ephemeral_of p call.ephemeral) viewer_dh bind ≡ some derived
    pub challenge :
        c
        ≡ challenge_of p h call.nonce none
            (some (p.base64 (ephemeral_of p call.ephemeral).public_key))
            derived.host_confirm
            (sign p h.identity host_label (
              signed_body p bind viewer_dh
                (ephemeral_of p call.ephemeral).public_key
                derived.host_confirm))
    pub pending : s ≡ record {
      done = false;
      attempt = none;
      hello = hello;
      viewer_key = viewer_key;
      proof = exchange_proof derived bind viewer_dh (ephemeral_of p call.ephemeral).public_key;
    }

  abbrev pub IsAllowed : Type 0
  IsAllowed = (Throttle.allow h.throttle (who hello call.peer) (call.clock 1)).1 ≡ allowed

  abbrev found_grant : GrantStore × Option ℕ
  found_grant =
      Grants.find equal_bytes h.grants (or_no_text hello.grant_id) viewer_key (call.clock 2)

  abbrev pub grant_scalar : ℕ → Option ℕ
  grant_scalar r =
      let grant = found_grant.0.heap r in
      secret_scalar p grant.secret (append h.device_id (append "\0" grant.id))

  -- What lets a viewer of each kind in.
  pub data Route (c : ChallengeMessage) (s : Pending) : Type 0 where
    by_code :
        (secret : String) (i w : ℕ)
        → hello.auth ≡ code_auth
        → call.access_code ≡ some secret
        → (Limiter.begin h.limiter (who hello call.peer) (call.clock 2)).1 ≡ granted i
        → password_scalar p secret h.device_id ≡ some w
        → SpakeReply (some i) w c s
        → Route c s
    by_grant :
        (r w : ℕ)
        → hello.auth ≡ grant_auth
        → IsAllowed
        → found_grant.1 ≡ some r
        → grant_scalar r ≡ some w
        → SpakeReply none w c s
        → Route c s
    by_trust :
        hello.auth ≡ paired_auth
        → IsAllowed
        → call.trusts hello.viewer_id viewer_key ≡ true
        → ExchangeReply c s
        → Route c s
    by_account :
        hello.auth ≡ account_auth
        → IsAllowed
        → call.account_authorised hello.viewer_id viewer_key ≡ true
        → ExchangeReply c s
        → Route c s
