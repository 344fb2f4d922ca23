-- ===== src/Handshake/Exchanges.antt =====
-- An honest viewer and an honest host that know each other's device: the exchange of ephemeral keys.
use hop_desk.Bytes.{Bytes, length-take}
use hop_desk.Encoding.{equal_bytes}
use hop_desk.Keys.{Primitives}
use hop_desk.Keys.Identity.{sign, device_id_from_public_key}
use hop_desk.Keys.Exchange.{
  EphemeralKeyPair, Exchanged, ephemeral_of, derive_exchange, exchange_shared, exchanged, all_zero,
}
use hop_desk.Keys.Agreement.{equal_bytes_self}
use hop_desk.Handshake.{ChallengeMessage, b64, binding, host_label, signed_body, root_for}
use hop_desk.Handshake.Outcome.{accepts}
use hop_desk.Handshake.Host.{HostAuthenticator, HelloCall, Pending, challenge_of}
use hop_desk.Handshake.Host.Proof.{exchange_proof}
use hop_desk.Handshake.Viewer.{ViewerHandshake}
use hop_desk.Handshake.Viewer.ViewerSecret.{by_ephemeral}
use hop_desk.Handshake.Routes.{ExchangeReply}
use hop_desk.Handshake.Laws.{
  IsFaithful, IsIdentity, answer, check_signature-honest, confirm-honest, host_of,
  on_challenge-checked, reads_shown, root_for-root, truthy-shown,
}
use hop_desk.Handshake.Completeness.{Agree}
use hop_desk.Common.{
  ==_iff, Option, [], ap, arith, false, if_both, if_true, length, ltb, none, refl, some, subst,
  subst⁻¹, sym, true, ℕ, ◌==◌, ◌∙◌, ◌∷◌, ◌≡◌, ◌≤◌,
}
use hop_desk.Handshake.Answer.{
  bound_exchange, by_secret, check_exchange, finish_account, finish_exchange, mismatches,
  on_challenge,
}

-- Public keys have 32 bytes, and two sides share one secret.
pub record IsExchange (p : Primitives) : Type 0 where
  pub size : (secret : Bytes) → length (p.x_public secret) ≡ 32
  pub commutes : (a b : Bytes) → p.x_shared a (p.x_public b) ≡ p.x_shared b (p.x_public a)

module _ (p : Primitives) (faithful : IsFaithful p) (laws : IsExchange p) where
  derive_exchange-same :
      (a b bound : Bytes)
      → derive_exchange p (ephemeral_of p a) (ephemeral_of p b).public_key bound
        ≡ derive_exchange p (ephemeral_of p b) (ephemeral_of p a).public_key bound
  unfolding derive_exchange ephemeral_of
  derive_exchange-same a b bound =
      if_true (length (p.x_public b) == 32) _ none
        ((==_iff (length (p.x_public b)) 32).1 (laws.size b))
      ∙ ap (exchange_shared p bound) (laws.commutes a b)
      ∙ sym (
          if_true (length (p.x_public a) == 32) _ none
            ((==_iff (length (p.x_public a)) 32).1 (laws.size a)))

  abbrev KeyIsLong : Option Exchanged → Type 0
  KeyIsLong none = Unit
  KeyIsLong (some r) = length r.ke ≡ 16

  shared-KeyIsLong : (bound : Bytes) (o : Option Bytes) → KeyIsLong (exchange_shared p bound o)
  unfolding exchanged
  shared-KeyIsLong bound none = tt
  shared-KeyIsLong bound (some shared) =
      if_both KeyIsLong (all_zero shared) tt
        (length-take 16 _ (subst⁻¹ (λ n. 16 ≤ n) (faithful.expands _ _ _ 64) (omega arith)))

  derive_exchange-KeyIsLong :
      (ours : EphemeralKeyPair) (theirs bound : Bytes) (r : Exchanged)
      → derive_exchange p ours theirs bound ≡ some r
      → ltb (length r.ke) 16 ≡ false
  unfolding derive_exchange
  derive_exchange-KeyIsLong ours theirs bound r e =
      let long : length r.ke ≡ 16 =
        subst KeyIsLong e (if_both KeyIsLong (length theirs == 32) (shared-KeyIsLong bound _) tt) in
      ap (λ n. ltb n 16) long

  shown_key : (secret : Bytes) → ltb 0 (length (ephemeral_of p secret).public_key) ≡ true
  unfolding ephemeral_of
  shown_key secret = ap (λ n. ltb 0 n) (laws.size secret)

  module _ (v : ViewerHandshake) (secret : Bytes) (h : HostAuthenticator) (call : HelloCall)
      (viewer_key : Bytes) where
    abbrev ours : EphemeralKeyPair
    ours = ephemeral_of p secret

    abbrev theirs : EphemeralKeyPair
    theirs = ephemeral_of p call.ephemeral

    -- What holds of an honest viewer and host, `secret` the viewer's ephemeral one.
    pub record IsKnown : Type 0 where
      pub unfinished : v.finished ≡ false
      pub holds : v.secret ≡ by_ephemeral ours
      pub shows : v.hello.dh ≡ some (p.base64 ours.public_key)
      pub same_key : viewer_key ≡ v.opts.identity.public_key
      pub viewer_signs : IsIdentity p v.opts.identity
      pub host_signs : IsIdentity p h.identity
      pub looks_for : device_id_from_public_key p h.identity.public_key ≡ some v.opts.host_id
      pub pins : mismatches p v.opts.expected_host_key (p.base64 h.identity.public_key) ≡ false

    module _ (known : IsKnown) (bound : Bytes) (derived : Exchanged)
        (bind_eq : binding p v.hello
            (p.base64 h.identity.public_key)
            h.host_name
            (p.base64 call.nonce)
            (some (p.base64 theirs.public_key))
          ≡ some bound) where
      abbrev challenge : (dh : Bytes) → ChallengeMessage
      challenge dh =
          challenge_of p h call.nonce none (some (p.base64 theirs.public_key)) derived.host_confirm
            (sign p h.identity host_label
              (signed_body p bound dh theirs.public_key derived.host_confirm))

      abbrev pended : (dh : Bytes) → Pending
      pended dh = record {
        done = false;
        attempt = none;
        hello = v.hello;
        viewer_key = viewer_key;
        proof = exchange_proof derived bound dh theirs.public_key;
      }

      module _ (derives : derive_exchange p ours theirs.public_key bound ≡ some derived)
          (root : Bytes)
          (root_eq : root_for p derived.ke (
              bound ∷ ours.public_key ∷ theirs.public_key ∷ derived.viewer_confirm
              ∷ derived.host_confirm ∷ [])
            ≡ some root) where
        abbrev key : Bytes
        key = h.identity.public_key

        viewer_accepts :
            (on_challenge p v (challenge ours.public_key)).1
            ≡ accepts (
              answer p faithful v bound ours.public_key theirs.public_key derived.viewer_confirm,
              host_of p faithful v (challenge ours.public_key) key root,
            )
        viewer_accepts =
            let c = challenge ours.public_key in
            on_challenge-checked p faithful v c key known.unfinished refl known.looks_for known.pins
            ∙ ap (by_secret p v c key) known.holds
            ∙ ap (finish_account p v c key ours)
                (truthy-shown p faithful theirs.public_key (shown_key call.ephemeral))
            ∙ ap (λ o. bound_exchange p v c key ours o (b64 p (p.base64 theirs.public_key))) bind_eq
            ∙ ap (bound_exchange p v c key ours (some bound)) (faithful.round theirs.public_key)
            ∙ ap (finish_exchange p v c key bound ours.public_key theirs.public_key) derives
            ∙ ap (check_exchange p v c key bound ours.public_key theirs.public_key derived)
                (faithful.round derived.host_confirm)
            ∙ if_true (equal_bytes derived.host_confirm derived.host_confirm) _ _
                (equal_bytes_self derived.host_confirm)
            ∙ check_signature-honest p faithful v c h.identity bound ours.public_key
                theirs.public_key derived.viewer_confirm derived.host_confirm derived.ke root
                known.host_signs refl root_eq

        sides-Agree :
            (h' : HostAuthenticator) (t t' : ℕ)
            → Agree p v (challenge ours.public_key) h' (pended ours.public_key) t t'
        sides-Agree h' t t' =
            let taken =
              confirm-honest p faithful h' (pended ours.public_key) v.opts.identity
                derived.viewer_confirm root t t' known.viewer_signs refl known.same_key
                (equal_bytes_self derived.viewer_confirm) root_eq in
            (_, _, taken.0, viewer_accepts, taken.1, taken.2)

    pub known-Agree :
        (c : ChallengeMessage) (s : Pending) (h' : HostAuthenticator) (t t' : ℕ)
        → IsKnown
        → ExchangeReply p h v.hello call viewer_key c s
        → Agree p v c h' s t t'
    known-Agree c s h' t t' known reply =
        let read : reply.viewer_dh ≡ ours.public_key =
          reads_shown p faithful ours.public_key reply.viewer_dh v.hello.dh reply.dh
            (shown_key secret) known.shows reply.has_dh reply.reads in
        let d : derive_exchange p ours theirs.public_key reply.bind ≡ some reply.derived =
          derive_exchange-same secret call.ephemeral reply.bind
          ∙ ap (λ q. derive_exchange p theirs q reply.bind) (sym read)
          ∙ reply.derives in
        let r =
          root_for-root p faithful reply.derived.ke
            (reply.bind ∷ ours.public_key ∷ theirs.public_key ∷ reply.derived.viewer_confirm
              ∷ reply.derived.host_confirm ∷ [])
            (derive_exchange-KeyIsLong ours theirs.public_key reply.bind reply.derived d) in
        subst⁻¹ (λ c'. Agree p v c' h' s t t')
          (reply.challenge ∙ ap (challenge known reply.bind reply.derived reply.binds) read)
          (subst⁻¹
            (λ s'.
              Agree p v (challenge known reply.bind reply.derived reply.binds ours.public_key) h' s'
                t t')
            (reply.pending ∙ ap (pended known reply.bind reply.derived reply.binds) read)
            (sides-Agree known reply.bind reply.derived reply.binds d r.0 r.1 h' t t'))
