-- ===== src/Handshake/Admission.antt =====
-- What `onHello` has checked when it answers with a challenge.
use hop_desk.Bytes.{Bytes}
use hop_desk.Replay.{check}
use hop_desk.Replay.Verdict.{fresh}
use hop_desk.Keys.{Primitives}
use hop_desk.Keys.Identity.{device_id_from_public_key}
use hop_desk.Handshake.{HelloMessage, ChallengeMessage, b64, protocol_version}
use hop_desk.Handshake.Host.{
  HostAuthenticator, HelloCall, HelloOutcome, Pending, is_grant, same_bool,
}
use hop_desk.Handshake.Host.HelloOutcome.{challenges}
use hop_desk.Handshake.Routes.{Whenever, Route, whenever}
use hop_desk.Common.{
  ==_iff, Bool, Option, String, ap, eq_iff, false, if_cases, is_some, none, not, not-false, refl,
  some, str_eq, subst, sym, true, ◌==◌, ◌∙◌, ◌≡◌,
}
use hop_desk.Handshake.Hello.{check_nonce, on_hello, with_id, with_key}
use hop_desk.Handshake.Guards.{nonce-Routed, FreshlyRouted}

-- What stands of a hello that is answered with a challenge.
pub record Admits (p : Primitives) (h : HostAuthenticator) (hello : HelloMessage) (call : HelloCall)
    (c : ChallengeMessage) (s : Pending) : Type 0 where
  pub viewer_key : Bytes
  pub version : hello.v ≡ protocol_version
  pub addressed : hello.host_id ≡ h.device_id
  pub reads_key : b64 p hello.viewer_key ≡ some viewer_key
  pub owns_id : device_id_from_public_key p viewer_key ≡ some hello.viewer_id
  pub names_grant : is_grant hello.auth ≡ is_some hello.grant_id
  pub is_fresh : (check h.nonces hello.nonce hello.time (call.clock 0)).1 ≡ fresh
  pub route : Route p h hello call viewer_key c s

pub same_bool-eq : (a b : Bool) → same_bool a b ≡ true → a ≡ b
same_bool-eq true true e = refl
same_bool-eq true false e = sym e
same_bool-eq false true e = e
same_bool-eq false false e = refl

module _ (p : Primitives) (h : HostAuthenticator) (hello : HelloMessage) (call : HelloCall) where
  abbrev Admitted : HostAuthenticator × HelloOutcome → Type 0
  Admitted r = Whenever (Admits p h hello call) r.1

  id-Admitted :
      (viewer_key : Bytes)
      → hello.v ≡ protocol_version
      → hello.host_id ≡ h.device_id
      → b64 p hello.viewer_key ≡ some viewer_key
      → (o : Option String) → device_id_from_public_key p viewer_key ≡ o
      → Admitted (with_id p h hello call viewer_key o)
  unfolding check_nonce
  id-Admitted viewer_key v a k none e = tt
  id-Admitted viewer_key v a k (some id) e =
      if_cases Admitted (not (str_eq id hello.viewer_id)) (λ x. tt)
        (λ own.
          if_cases Admitted (not (same_bool (is_grant hello.auth) (is_some hello.grant_id)))
            (λ x. tt)
            (λ grant.
              whenever (FreshlyRouted p h hello call viewer_key) (Admits p h hello call)
                (λ c s r. record {
                  viewer_key = viewer_key;
                  version = v;
                  addressed = a;
                  reads_key = k;
                  owns_id = e ∙ ap some ((eq_iff id hello.viewer_id).0 (not-false _ own));
                  names_grant = same_bool-eq _ _ (not-false _ grant);
                  is_fresh = r.0;
                  route = r.1;
                })
                _ (nonce-Routed p h hello call viewer_key _ _ refl)))

  key-Admitted :
      hello.v ≡ protocol_version
      → hello.host_id ≡ h.device_id
      → (o : Option Bytes) → b64 p hello.viewer_key ≡ o
      → Admitted (with_key p h hello call o)
  key-Admitted v a none e = tt
  key-Admitted v a (some viewer_key) e = id-Admitted viewer_key v a e _ refl

  on_hello-Admitted : Admitted (on_hello p h hello call)
  unfolding on_hello
  on_hello-Admitted =
      if_cases Admitted (not (hello.v == protocol_version)) (λ x. tt)
        (λ v.
          if_cases Admitted (not (str_eq hello.host_id h.device_id)) (λ x. tt)
            (λ a.
              key-Admitted ((==_iff hello.v protocol_version).0 (not-false _ v))
                ((eq_iff hello.host_id h.device_id).0 (not-false _ a)) _ refl))

  -- A hello is answered with a challenge only when its version is the protocol's, it is addressed
  -- to this host, the viewer's key reads as bytes of which the viewer's name is the device ID, it
  -- names a grant just when it is by grant, its nonce is fresh, and one of the routes lets it in:
  -- a granted attempt at the present access code, a stored grant, a trusted device or one of the
  -- account, the last three not throttled; and the challenge and the pending handshake are those
  -- of the route.
  pub on_hello-Admits :
      (c : ChallengeMessage) (s : Pending)
      → (on_hello p h hello call).1 ≡ challenges c s
      → Admits p h hello call c s
  on_hello-Admits c s e = subst (Whenever (Admits p h hello call)) e on_hello-Admitted
