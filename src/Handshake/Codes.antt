-- ===== src/Handshake/Codes.antt =====
-- A session by the access code: what the viewer's object starts as, and that both sides agree.
use hop_desk.Bytes.{Bytes}
use hop_desk.Keys.{Primitives}
use hop_desk.Keys.Identity.{utf8, device_id_from_public_key, password_scalar}
use hop_desk.Keys.Spake.{Spake, new_spake}
use hop_desk.Keys.Spake.SpakeRole.{role_a}
use hop_desk.Keys.Agreement.{IsCurve}
use hop_desk.Handshake.{AuthKind, ChallengeMessage, b64}
use hop_desk.Handshake.AuthKind.{code_auth}
use hop_desk.Handshake.Host.{HostAuthenticator, HelloCall, Pending, is_code}
use hop_desk.Handshake.Host.HelloOutcome.{challenges}
use hop_desk.Handshake.Viewer.{
  ViewerHandshake, ViewerHandshakeOptions, ViewerDraw, create, create_by, create_spake,
  created_spake, hello_with, credential_kind,
}
use hop_desk.Handshake.Viewer.ViewerSecret.{by_spake}
use hop_desk.Handshake.Viewer.ViewerCredential.{code_credential}
use hop_desk.Handshake.Routes.{Route}
use hop_desk.Handshake.Routes.Route.{by_code, by_grant, by_trust, by_account}
use hop_desk.Handshake.Admission.{on_hello-Admits}
use hop_desk.Handshake.Laws.{IsFaithful, IsIdentity}
use hop_desk.Handshake.Completeness.{Agree, IsHonest, reply-Agree}
use hop_desk.Common.{
  Option, String, false, none, refl, some, subst, subst⁻¹, ℕ, ◌≡◌, ap, false≢true, some_injective,
  sym, ◌∙◌, ◌>>=◌, true,
}
use hop_desk.Handshake.Answer.{mismatches}
use hop_desk.Handshake.Hello.{on_hello}

abbrev Made : (ViewerHandshake → Type 0) → Option ViewerHandshake → Type 0
Made P none = Unit
Made P (some v) = P v

module _ (p : Primitives) (opts : ViewerHandshakeOptions) (draw : ViewerDraw) where
  -- The object of a viewer with a secret whose scalar is `scalar`.
  pub record IsMade (scalar : Option ℕ) (v : ViewerHandshake) : Type 0 where
    pub id : String
    pub w : ℕ
    pub spake : Spake
    pub has_id : device_id_from_public_key p opts.identity.public_key ≡ some id
    pub has_w : scalar ≡ some w
    pub starts :
        new_spake p
          (record { role = role_a; id_a = utf8 p id; id_b = utf8 p opts.host_id; w = w })
          draw.scalar
        ≡ some spake
    pub made : v ≡ record {
      finished = false;
      opts = opts;
      secret = by_spake spake;
      hello = hello_with p opts draw id (some (p.base64 spake.share)) none;
    }

  module _ (id : String) (has_id : device_id_from_public_key p opts.identity.public_key ≡ some id)
      (scalar : Option ℕ) where
    started-Made :
        (w : ℕ)
        → scalar ≡ some w
        → (o : Option Spake)
        → new_spake p
            (record { role = role_a; id_a = utf8 p id; id_b = utf8 p opts.host_id; w = w })
            draw.scalar
          ≡ o
        → Made (IsMade scalar) (created_spake p opts draw id o)
    started-Made w e none k = tt
    started-Made w e (some spake) k = record {
      id = id;
      w = w;
      spake = spake;
      has_id = has_id;
      has_w = e;
      starts = k;
      made = refl;
    }

    scalar-Made : (o : Option ℕ) → scalar ≡ o → Made (IsMade scalar) (create_spake p opts draw id o)
    scalar-Made none e = tt
    scalar-Made (some w) e = started-Made w e _ refl

  module _ (secret : String) (is_code_credential : opts.credential ≡ code_credential secret) where
    abbrev scalar : Option ℕ
    scalar = password_scalar p secret opts.host_id

    id-Made :
        (o : Option String)
        → device_id_from_public_key p opts.identity.public_key ≡ o
        → Made (IsMade scalar) (o >>= λ id. create_by p opts draw id opts.credential)
    id-Made none e = tt
    id-Made (some id) e =
        subst⁻¹ (λ o. Made (IsMade scalar) (create_by p opts draw id o)) is_code_credential
          (scalar-Made id e scalar scalar refl)

    pub create-IsMade : (v : ViewerHandshake) → create p opts draw ≡ some v → IsMade scalar v
    unfolding create
    create-IsMade v e = subst (Made (IsMade scalar)) e (id-Made _ refl)

auths_differ : {A : Type 0} (k : AuthKind) → k ≡ code_auth → is_code k ≡ false → A
auths_differ k e d = absurd (false≢true (sym d ∙ ap is_code e))

module _ (p : Primitives) (faithful : IsFaithful p) (curve : IsCurve p)
    (opts : ViewerHandshakeOptions) (draw : ViewerDraw) (h : HostAuthenticator) (call : HelloCall)
    (secret : String) where
  -- The identities and the code of the two sides, and points that are not zero.
  pub record AreHonest : Type 0 where
    pub has_code : opts.credential ≡ code_credential secret
    pub same_code : call.access_code ≡ some secret
    pub viewer_signs : IsIdentity p opts.identity
    pub host_signs : IsIdentity p h.identity
    pub own_id : device_id_from_public_key p h.identity.public_key ≡ some h.device_id
    pub pins : mismatches p opts.expected_host_key (p.base64 h.identity.public_key) ≡ false
    pub some_a :
        (w : ℕ)
        → password_scalar p secret h.device_id ≡ some w
        → p.is_zero (p.plus (p.multiply p.point_m w) (p.multiply p.base_point draw.scalar)) ≡ false
    pub some_b :
        (w : ℕ)
        → password_scalar p secret h.device_id ≡ some w
        → p.is_zero (p.plus (p.multiply p.point_n w) (p.multiply p.base_point call.scalar)) ≡ false
    pub some_k : p.is_zero (p.multiply (p.multiply p.base_point draw.scalar) call.scalar) ≡ false

  module _ (honest : AreHonest) (id : String) (w' : ℕ) (a : Spake) where
    abbrev viewer : ViewerHandshake
    viewer = record {
      finished = false;
      opts = opts;
      secret = by_spake a;
      hello = hello_with p opts draw id (some (p.base64 a.share)) none;
    }

    module _ (same_host : opts.host_id ≡ h.device_id)
        (has_w : password_scalar p secret opts.host_id ≡ some w')
        (start : new_spake p
            (record { role = role_a; id_a = utf8 p id; id_b = utf8 p opts.host_id; w = w' })
            draw.scalar
          ≡ some a)
        (viewer_key : Bytes)
        (reads_key : b64 p (p.base64 opts.identity.public_key) ≡ some viewer_key) (i w : ℕ)
        (has_scalar : password_scalar p secret h.device_id ≡ some w) where
      same_w : w' ≡ w
      same_w =
          some_injective w' w (sym has_w ∙ ap (password_scalar p secret) same_host ∙ has_scalar)

      viewer-IsHonest : IsHonest p faithful curve viewer a h call viewer_key (some i) w draw.scalar
      viewer-IsHonest = record {
        unfinished = refl;
        holds = refl;
        shares = refl;
        starts =
            ap
              (λ u.
                new_spake p (record { role = role_a; id_a = utf8 p id; id_b = utf8 p u; w = w })
                  draw.scalar)
              (sym same_host)
            ∙ ap
                (λ u.
                  new_spake p
                    (record { role = role_a; id_a = utf8 p id; id_b = utf8 p opts.host_id; w = u })
                    draw.scalar)
                (sym same_w)
            ∙ start;
        same_key =
            some_injective viewer_key opts.identity.public_key (sym reads_key ∙ faithful.round _);
        viewer_signs = honest.viewer_signs;
        host_signs = honest.host_signs;
        looks_for = honest.own_id ∙ ap some (sym same_host);
        pins = honest.pins;
        some_a = honest.some_a w has_scalar;
        some_b = honest.some_b w has_scalar;
        some_k = honest.some_k;
      }

    module _ (same_host : opts.host_id ≡ h.device_id)
        (has_w : password_scalar p secret opts.host_id ≡ some w')
        (start : new_spake p
            (record { role = role_a; id_a = utf8 p id; id_b = utf8 p opts.host_id; w = w' })
            draw.scalar
          ≡ some a)
        (viewer_key : Bytes)
        (reads_key : b64 p (p.base64 opts.identity.public_key) ≡ some viewer_key)
        (c : ChallengeMessage) (s : Pending) (h' : HostAuthenticator) (t t' : ℕ) where
      by_code_kind : is_code viewer.hello.auth ≡ true
      by_code_kind = ap (λ k. is_code (credential_kind k)) honest.has_code

      other_kind :
          (k : AuthKind) → viewer.hello.auth ≡ k → is_code k ≡ false → Agree p viewer c h' s t t'
      other_kind k e d = absurd (false≢true (sym d ∙ ap is_code (sym e) ∙ by_code_kind))

      Route-Agree : Route p h viewer.hello call viewer_key c s → Agree p viewer c h' s t t'
      Route-Agree (by_code sec i w e k b pw reply) =
          let same : sec ≡ secret = some_injective sec secret (sym k ∙ honest.same_code) in
          reply-Agree p faithful curve viewer a h call viewer_key (some i) w draw.scalar c s h' t t'
            (viewer-IsHonest same_host has_w start viewer_key reads_key i w
              (ap (λ u. password_scalar p u h.device_id) (sym same) ∙ pw))
            reply
      Route-Agree (by_grant r w e k b pw reply) = other_kind _ e refl
      Route-Agree (by_trust e k b reply) = other_kind _ e refl
      Route-Agree (by_account e k b reply) = other_kind _ e refl

  -- With primitives that keep their laws, a viewer and a host that hold one access code and each
  -- own their identity, and whose shares and common point are not zero: when the host answers the
  -- viewer's hello with a challenge, the viewer takes the challenge, the host, whatever its state
  -- is by then, takes the viewer's confirmation, and both have one session root.
  pub code-Agree :
      AreHonest
      → (v : ViewerHandshake) (c : ChallengeMessage) (s : Pending) (h' : HostAuthenticator)
        (t t' : ℕ)
      → create p opts draw ≡ some v
      → (on_hello p h v.hello call).1 ≡ challenges c s
      → Agree p v c h' s t t'
  code-Agree honest v c s h' t t' e o =
      let m = create-IsMade p opts draw secret honest.has_code v e in
      let u : ViewerHandshake = viewer honest m.id m.w m.spake in
      let admits =
        on_hello-Admits p h u.hello call c s
          (ap (λ (x : ViewerHandshake). (on_hello p h x.hello call).1) (sym m.made) ∙ o) in
      subst⁻¹ (λ x. Agree p x c h' s t t') m.made
        (Route-Agree honest m.id m.w m.spake admits.addressed m.has_w m.starts admits.viewer_key
          admits.reads_key c s h' t t' admits.route)
