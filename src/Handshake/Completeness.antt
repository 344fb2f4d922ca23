-- ===== src/Handshake/Completeness.antt =====
-- An honest viewer and an honest host with one secret: SPAKE2.
use hop_desk.Keys.Identity.{utf8, sign, device_id_from_public_key}
use hop_desk.Keys.Agreement.{IsCurve, finish_agrees, new_spake-length}
use hop_desk.Bytes.{Bytes, length-take}
use hop_desk.Keys.{Primitives}
use hop_desk.Keys.Spake.{
  Spake, SpakeResult, SpakeRole, finish, derive, finish_with, finish_decoded, secret_point,
  spake_key_schedule, SpakeOptions, new_spake, verify_peer,
}
use hop_desk.Keys.Spake.SpakeRole.{role_a, role_b}
use hop_desk.Handshake.{
  ChallengeMessage, ConfirmMessage, b64, binding, host_label, root_for, signed_body,
}
use hop_desk.Handshake.Outcome.{accepts}
use hop_desk.Handshake.Host.{
  HostAuthenticator, AuthenticatedViewer, Pending, HelloCall, challenge_of, spake_proof,
}
use hop_desk.Handshake.Confirm.{confirm}
use hop_desk.Handshake.Viewer.{ViewerHandshake, AuthenticatedHost, by_spake}
use hop_desk.Handshake.Laws.{
  IsFaithful, IsIdentity, answer, check_signature-honest, confirm-honest, host_of,
  on_challenge-checked, truthy-shown, reads_shown, root_for-root,
}
use hop_desk.Common.{
  Option, ap, arith, false, if_both, length, ltb, none, some, subst, subst⁻¹, ℕ, ◌≡◌, ◌≤◌, [],
  if_true, refl, some_injective, sym, true, ◌∙◌, ◌∷◌,
}
use hop_desk.Handshake.Answer.{
  on_challenge, bound_spake, by_secret, check_spake, finish_code, finish_spake, mismatches,
}
use hop_desk.Handshake.Routes.{SpakeReply}

-- Both sides take each other and have one root.
abbrev pub Agree :
    (p : Primitives)
    → ViewerHandshake
    → ChallengeMessage
    → HostAuthenticator
    → Pending
    → (t t' : ℕ) → Type 0
Agree p v c h s t t' =
    (m : ConfirmMessage) × (host : AuthenticatedHost) × (viewer : AuthenticatedViewer)
    × ((on_challenge p v c).1 ≡ accepts (m, host))
    × ((confirm p h s m t t').2 ≡ accepts viewer)
    × (viewer.root ≡ host.root)

module _ (p : Primitives) (faithful : IsFaithful p) where
  abbrev KeyIsLong : Option SpakeResult → Type 0
  KeyIsLong none = Unit
  KeyIsLong (some r) = length r.ke ≡ 16

  derive-KeyIsLong : (role : SpakeRole) (t aad : Bytes) → length (derive p role t aad).ke ≡ 16
  unfolding derive spake_key_schedule
  derive-KeyIsLong role_a t aad =
      length-take 16 (p.sha256 t) (subst⁻¹ (λ n. 16 ≤ n) (faithful.digest t) (omega arith))
  derive-KeyIsLong role_b t aad =
      length-take 16 (p.sha256 t) (subst⁻¹ (λ n. 16 ≤ n) (faithful.digest t) (omega arith))

  finish_decoded-KeyIsLong :
      (s : Spake) (share aad : Bytes) (o : Option p.Point)
      → KeyIsLong (finish_decoded p s share aad o)
  unfolding finish_with
  finish_decoded-KeyIsLong s share aad none = tt
  finish_decoded-KeyIsLong s share aad (some q) =
      if_both KeyIsLong (p.is_zero (secret_point p s q)) tt (derive-KeyIsLong s.opts.role _ aad)

  finish-KeyIsLong :
      (s : Spake) (share aad : Bytes) (r : SpakeResult)
      → (finish p s share aad).1 ≡ some r
      → ltb (length r.ke) 16 ≡ false
  unfolding finish
  finish-KeyIsLong s share aad r e =
      let long : length r.ke ≡ 16 = subst KeyIsLong e (
        if_both (λ (x : Spake × Option SpakeResult). KeyIsLong x.1) s.finished tt
          (finish_decoded-KeyIsLong s share aad _)) in
      ap (λ n. ltb n 16) long

  module _ (curve : IsCurve p) (v : ViewerHandshake) (a : Spake) (h : HostAuthenticator)
      (call : HelloCall) (viewer_key : Bytes) (attempt : Option ℕ) (w : ℕ) where
    abbrev options : SpakeRole → SpakeOptions
    options role = record {
      role = role;
      id_a = utf8 p v.hello.viewer_id;
      id_b = utf8 p h.device_id;
      w = w;
    }

    -- What holds of an honest viewer and host of one secret `w`, `x` the viewer's scalar.
    pub record IsHonest (x : ℕ) : Type 0 where
      pub unfinished : v.finished ≡ false
      pub holds : v.secret ≡ by_spake a
      pub shares : v.hello.share ≡ some (p.base64 a.share)
      pub starts : new_spake p (options role_a) x ≡ some a
      pub same_key : viewer_key ≡ v.opts.identity.public_key
      pub viewer_signs : IsIdentity p v.opts.identity
      pub host_signs : IsIdentity p h.identity
      pub looks_for : device_id_from_public_key p h.identity.public_key ≡ some v.opts.host_id
      pub pins : mismatches p v.opts.expected_host_key (p.base64 h.identity.public_key) ≡ false
      pub some_a : p.is_zero (p.plus (p.multiply p.point_m w) (p.multiply p.base_point x)) ≡ false
      pub some_b :
          p.is_zero (p.plus (p.multiply p.point_n w) (p.multiply p.base_point call.scalar)) ≡ false
      pub some_k : p.is_zero (p.multiply (p.multiply p.base_point x) call.scalar) ≡ false

    module _ (x : ℕ) (honest : IsHonest x) (b : Spake) (result : SpakeResult) (bound : Bytes)
        (start : new_spake p (options role_b) call.scalar ≡ some b)
        (bind_eq : binding p v.hello
            (p.base64 h.identity.public_key)
            h.host_name
            (p.base64 call.nonce)
            none
          ≡ some bound) where
      abbrev challenge : (p_a : Bytes) → ChallengeMessage
      challenge p_a =
          challenge_of p h call.nonce (some (p.base64 b.share)) none result.confirmation
            (sign p h.identity host_label (signed_body p bound p_a b.share result.confirmation))

      abbrev pended : (p_a : Bytes) → Pending
      pended p_a = record {
        done = false;
        attempt = attempt;
        hello = v.hello;
        viewer_key = viewer_key;
        proof = spake_proof result bound p_a b.share;
      }

      -- The viewer's result fits the host's.
      abbrev Fits : SpakeResult → SpakeResult → Type 0
      Fits ra rb =
          (ra.ke ≡ rb.ke)
          × (verify_peer ra rb.confirmation ≡ true)
          × (verify_peer rb ra.confirmation ≡ true)

      fitting :
          (finish p b a.share bound).1 ≡ some result
          → (ra : SpakeResult) × ((finish p a b.share bound).1 ≡ some ra) × Fits ra result
      fitting f =
          let g =
            finish_agrees p curve (utf8 p v.hello.viewer_id) (utf8 p h.device_id) bound w x
              call.scalar a b honest.starts start honest.some_a honest.some_b honest.some_k in
          (g.0, g.2, subst (Fits g.0) (some_injective g.1 result (sym g.3 ∙ f)) (g.4, g.5, g.6))

      module _ (ra : SpakeResult) (fa : (finish p a b.share bound).1 ≡ some ra)
          (fits : Fits ra result) (root : Bytes)
          (root_eq : root_for p ra.ke
              (bound ∷ a.share ∷ b.share ∷ ra.confirmation ∷ result.confirmation ∷ [])
            ≡ some root) where
        abbrev key : Bytes
        key = h.identity.public_key

        viewer_accepts :
            (on_challenge p v (challenge a.share)).1
            ≡ accepts (
              answer p faithful v bound a.share b.share ra.confirmation,
              host_of p faithful v (challenge a.share) key root,
            )
        viewer_accepts =
            let c = challenge a.share in
            on_challenge-checked p faithful v c key honest.unfinished refl honest.looks_for
              honest.pins
            ∙ ap (by_secret p v c key) honest.holds
            ∙ ap (finish_code p v c key a) (
                truthy-shown p faithful b.share
                  (new_spake-length p curve (options role_b) call.scalar b start honest.some_b))
            ∙ ap (λ o. bound_spake p v c key a o (b64 p (p.base64 b.share))) bind_eq
            ∙ ap (bound_spake p v c key a (some bound)) (faithful.round b.share)
            ∙ ap (finish_spake p v c key bound a.share b.share) fa
            ∙ ap (check_spake p v c key bound a.share b.share ra)
                (faithful.round result.confirmation)
            ∙ if_true (verify_peer ra result.confirmation) _ _ fits.1
            ∙ check_signature-honest p faithful v c h.identity bound a.share b.share ra.confirmation
                result.confirmation ra.ke root honest.host_signs refl root_eq

        sides-Agree :
            (h' : HostAuthenticator) (t t' : ℕ)
            → Agree p v (challenge a.share) h' (pended a.share) t t'
        sides-Agree h' t t' =
            let taken =
              confirm-honest p faithful h' (pended a.share) v.opts.identity ra.confirmation root t
                t' honest.viewer_signs refl honest.same_key fits.2
                (ap
                    (λ ke.
                      root_for p ke
                        (bound ∷ a.share ∷ b.share ∷ ra.confirmation ∷ result.confirmation ∷ []))
                    (sym fits.0)
                  ∙ root_eq) in
            (_, _, taken.0, viewer_accepts, taken.1, taken.2)

    pub reply-Agree :
        (x : ℕ) (c : ChallengeMessage) (s : Pending) (h' : HostAuthenticator) (t t' : ℕ)
        → IsHonest x
        → SpakeReply p h v.hello call viewer_key attempt w c s
        → Agree p v c h' s t t'
    reply-Agree x c s h' t t' honest reply =
        let b = reply.spake in
        let read : reply.p_a ≡ a.share =
          reads_shown p faithful a.share reply.p_a v.hello.share reply.share
            (new_spake-length p curve (options role_a) x a honest.starts honest.some_a)
            honest.shares reply.has_share reply.reads in
        let f : (finish p b a.share reply.bind).1 ≡ some reply.result =
          subst (λ q. (finish p b q reply.bind).1 ≡ some reply.result) read reply.finishes in
        let g = fitting x honest b reply.result reply.bind reply.starts reply.binds f in
        let r =
          root_for-root p faithful g.0.ke
            (reply.bind ∷ a.share ∷ b.share ∷ g.0.confirmation ∷ reply.result.confirmation ∷ [])
            (finish-KeyIsLong a b.share reply.bind g.0 g.1) in
        let agreed =
          sides-Agree x honest b reply.result reply.bind reply.starts reply.binds g.0 g.1 g.2 r.0
            r.1 h' t t' in
        subst⁻¹ (λ c'. Agree p v c' h' s t t')
          (reply.challenge
            ∙ ap (challenge x honest b reply.result reply.bind reply.starts reply.binds) read)
          (subst⁻¹
            (λ s'.
              Agree p v
                (challenge x honest b reply.result reply.bind reply.starts reply.binds a.share) h'
                s' t t')
            (reply.pending
              ∙ ap (pended x honest b reply.result reply.bind reply.starts reply.binds) read)
            agreed)
