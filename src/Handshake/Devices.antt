-- ===== src/Handshake/Devices.antt =====
-- A session of two devices that know each other, by trust or by the account: both sides agree.
use hop_desk.Common.{
  ◌>>=◌, Bool, Option, String, ap, false, false≢true, none, none≢some, refl, some, some_injective,
  subst, sym, true, ℕ, ◌∙◌, ◌≡◌,
}
use hop_desk.Bytes.{Bytes}
use hop_desk.Keys.{Primitives}
use hop_desk.Keys.Identity.{device_id_from_public_key}
use hop_desk.Keys.Exchange.{ephemeral_of}
use hop_desk.Handshake.{AuthKind, ChallengeMessage, b64}
use hop_desk.Handshake.AuthKind.{code_auth, grant_auth, paired_auth, account_auth}
use hop_desk.Handshake.Host.{HostAuthenticator, HelloCall, Pending}
use hop_desk.Handshake.Host.HelloOutcome.{challenges}
use hop_desk.Handshake.Viewer.{
  ViewerHandshake, ViewerHandshakeOptions, ViewerDraw, ViewerCredential, create, code_credential,
  create_by, credential_kind, grant_credential, hello_with,
}
use hop_desk.Handshake.Viewer.ViewerSecret.{by_ephemeral}
use hop_desk.Handshake.Viewer.ViewerCredential.{paired_credential, account_credential}
use hop_desk.Handshake.Routes.{Route}
use hop_desk.Handshake.Routes.Route.{by_code, by_grant, by_trust, by_account}
use hop_desk.Handshake.Admission.{on_hello-Admits}
use hop_desk.Handshake.Laws.{IsFaithful, IsIdentity}
use hop_desk.Handshake.Completeness.{Agree}
use hop_desk.Handshake.Exchanges.{IsExchange, IsKnown, known-Agree}
use hop_desk.Handshake.Answer.{mismatches}
use hop_desk.Handshake.Hello.{on_hello}

abbrev needs_secret : AuthKind → Bool
needs_secret code_auth = true
needs_secret grant_auth = true
needs_secret paired_auth = false
needs_secret account_auth = false

abbrev pub IsDeviceCredential : ViewerCredential → Type 0
IsDeviceCredential c = needs_secret (credential_kind c) ≡ false

module _ (p : Primitives) (opts : ViewerHandshakeOptions) (draw : ViewerDraw) where
  abbrev viewer_of : String → ViewerHandshake
  viewer_of id = record {
    finished = false;
    opts = opts;
    secret = by_ephemeral (ephemeral_of p draw.ephemeral);
    hello =
        hello_with p opts draw id none (some (p.base64 (ephemeral_of p draw.ephemeral).public_key));
  }

  created_by :
      (id : String) (c : ViewerCredential) (v : ViewerHandshake)
      → IsDeviceCredential c
      → create_by p opts draw id c ≡ some v
      → viewer_of id ≡ v
  created_by id (code_credential secret_code) v d e = absurd (false≢true (sym d))
  created_by id (grant_credential grant secret) v d e = absurd (false≢true (sym d))
  created_by id paired_credential v d e = some_injective (viewer_of id) v e
  created_by id account_credential v d e = some_injective (viewer_of id) v e

  created_id :
      (o : Option String) (v : ViewerHandshake)
      → IsDeviceCredential opts.credential
      → (o >>= λ id. create_by p opts draw id opts.credential) ≡ some v
      → (id : String) × (viewer_of id ≡ v)
  created_id none v d e = absurd (none≢some e)
  created_id (some id) v d e = (id, created_by id opts.credential v d e)

  create_device :
      (v : ViewerHandshake)
      → IsDeviceCredential opts.credential
      → create p opts draw ≡ some v
      → (id : String) × (viewer_of id ≡ v)
  unfolding create
  create_device v d e = created_id _ v d e

  -- The identities of two devices that know each other.
  pub record AreKnown (h : HostAuthenticator) : Type 0 where
    pub knows : IsDeviceCredential opts.credential
    pub viewer_signs : IsIdentity p opts.identity
    pub host_signs : IsIdentity p h.identity
    pub own_id : device_id_from_public_key p h.identity.public_key ≡ some h.device_id
    pub pins : mismatches p opts.expected_host_key (p.base64 h.identity.public_key) ≡ false

  module _ (faithful : IsFaithful p) (laws : IsExchange p) (h : HostAuthenticator)
      (call : HelloCall) where
    module _ (known : AreKnown h) (id : String) (same_host : opts.host_id ≡ h.device_id)
        (viewer_key : Bytes)
        (reads_key : b64 p (p.base64 opts.identity.public_key) ≡ some viewer_key)
        (c : ChallengeMessage) (s : Pending) (h' : HostAuthenticator) (t t' : ℕ) where
      viewer_of-IsKnown : IsKnown p faithful laws (viewer_of id) draw.ephemeral h call viewer_key
      viewer_of-IsKnown = record {
        unfinished = refl;
        holds = refl;
        shows = refl;
        same_key =
            some_injective viewer_key opts.identity.public_key (sym reads_key ∙ faithful.round _);
        viewer_signs = known.viewer_signs;
        host_signs = known.host_signs;
        looks_for = known.own_id ∙ ap some (sym same_host);
        pins = known.pins;
      }

      other_kind :
          (k : AuthKind)
          → credential_kind opts.credential ≡ k
          → needs_secret k ≡ true
          → Agree p (viewer_of id) c h' s t t'
      other_kind k e d = absurd (false≢true (sym known.knows ∙ ap needs_secret e ∙ d))

      Route-Agree :
          Route p h (viewer_of id).hello call viewer_key c s → Agree p (viewer_of id) c h' s t t'
      Route-Agree (by_code sec i w e k b pw reply) = other_kind _ e refl
      Route-Agree (by_grant r w e k b pw reply) = other_kind _ e refl
      Route-Agree (by_trust e k b reply) =
          known-Agree p faithful laws (viewer_of id) draw.ephemeral h call viewer_key c s h' t t'
            viewer_of-IsKnown reply
      Route-Agree (by_account e k b reply) =
          known-Agree p faithful laws (viewer_of id) draw.ephemeral h call viewer_key c s h' t t'
            viewer_of-IsKnown reply

    -- With primitives that keep their laws, of a viewer without a secret, for a trusted device or
    -- one of the account, and a host that each own their identity: when the host answers the
    -- viewer's hello with a challenge, the viewer takes the challenge, the host, whatever its state
    -- is by then, takes the viewer's confirmation, and both have one session root.
    pub device-Agree :
        AreKnown h
        → (v : ViewerHandshake) (c : ChallengeMessage) (s : Pending) (h' : HostAuthenticator)
          (t t' : ℕ)
        → create p opts draw ≡ some v
        → (on_hello p h v.hello call).1 ≡ challenges c s
        → Agree p v c h' s t t'
    device-Agree known v c s h' t t' e o =
        let m = create_device v known.knows e in
        let admits =
          on_hello-Admits p h (viewer_of m.0).hello call c s
            (ap (λ (x : ViewerHandshake). (on_hello p h x.hello call).1) m.1 ∙ o) in
        subst (λ x. Agree p x c h' s t t') m.1
          (Route-Agree known m.0 admits.addressed admits.viewer_key admits.reads_key c s h' t t'
            admits.route)
