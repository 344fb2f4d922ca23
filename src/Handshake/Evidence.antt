-- ===== src/Handshake/Evidence.antt =====
-- What shows a viewer that a host has the secret and its key.
use hop_desk.Bytes.{Bytes}
use hop_desk.Encoding.{truthy, equal_bytes}
use hop_desk.Keys.{Primitives}
use hop_desk.Keys.Identity.{verify}
use hop_desk.Keys.Spake.{Spake, SpakeResult, finish, verify_peer}
use hop_desk.Keys.Exchange.{EphemeralKeyPair, Exchanged, derive_exchange}
use hop_desk.Handshake.{
  ChallengeMessage, ConfirmMessage, Outcome, b64, binding, host_label, signed_body, root_for,
}
use hop_desk.Handshake.Outcome.{accepts, rejects, raises}
use hop_desk.Handshake.Viewer.{ViewerHandshake, AuthenticatedHost, ViewerSecret}
use hop_desk.Handshake.Viewer.ViewerSecret.{by_spake, by_ephemeral}
use hop_desk.Common.{Option, String, [], if_cases, none, refl, some, true, ◌∷◌, ◌≡◌}
use hop_desk.Handshake.Answer.{
  check_signature, check_spake, finish_spake, reply_with, bound_exchange, bound_spake, by_secret,
  check_exchange, finish_account, finish_code, finish_exchange,
}

abbrev pub Takes :
    (AuthenticatedHost → Type 0) → Outcome (ConfirmMessage × AuthenticatedHost) → Type 0
Takes P (accepts (m, host)) = P host
Takes P (rejects e) = Unit
Takes P raises = Unit

module _ (p : Primitives) (v : ViewerHandshake) (c : ChallengeMessage) where
  -- The host's key signs the viewer's share `a`, its own `b` and its confirmation `theirs`, bound to
  -- the hello and the challenge, and the root is of all these and the viewer's confirmation.
  pub record IsSigned (dh : Option String) (a b mac theirs ke : Bytes) (host : AuthenticatedHost)
      : Type 0 where
    pub bound : Bytes
    pub signature : Bytes
    pub binds : binding p v.hello c.host_key c.host_name c.nonce dh ≡ some bound
    pub reads_signature : b64 p c.signature ≡ some signature
    pub owns_key :
        verify p host.host_key host_label (signed_body p bound a b theirs) signature ≡ true
    pub has_root : root_for p ke (bound ∷ a ∷ b ∷ mac ∷ theirs ∷ []) ≡ some host.root

  -- What shows that the host has the secret, or derived the same of the ephemeral keys.
  pub data Evidence (host : AuthenticatedHost) : Type 0 where
    of_spake :
        (spake : Spake) (share : String) (b bound theirs : Bytes) (result : SpakeResult)
        → v.secret ≡ by_spake spake
        → truthy c.share ≡ some share
        → b64 p share ≡ some b
        → binding p v.hello c.host_key c.host_name c.nonce none ≡ some bound
        → (finish p spake b bound).1 ≡ some result
        → b64 p c.confirm ≡ some theirs
        → verify_peer result theirs ≡ true
        → IsSigned none spake.share b result.confirmation theirs result.ke host
        → Evidence host
    of_exchange :
        (ours : EphemeralKeyPair) (dh : String) (b bound theirs : Bytes) (derived : Exchanged)
        → v.secret ≡ by_ephemeral ours
        → truthy c.dh ≡ some dh
        → b64 p dh ≡ some b
        → binding p v.hello c.host_key c.host_name c.nonce (some dh) ≡ some bound
        → derive_exchange p ours b bound ≡ some derived
        → b64 p c.confirm ≡ some theirs
        → equal_bytes theirs derived.host_confirm ≡ true
        → IsSigned
            (some dh)
            ours.public_key
            b
            derived.viewer_confirm
            derived.host_confirm
            derived.ke
            host
        → Evidence host

  module _ (key : Bytes) where
    abbrev Key : AuthenticatedHost → Type 0
    Key host = (host.host_key ≡ key) × (host.host_id ≡ v.opts.host_id)

    module _ (dh : Option String) (bound a b mac theirs ke : Bytes)
        (e : binding p v.hello c.host_key c.host_name c.nonce dh ≡ some bound) where
      abbrev Signed : AuthenticatedHost → Type 0
      Signed host = Key host × IsSigned dh a b mac theirs ke host

      root-Signed :
          (signature : Bytes)
          → b64 p c.signature ≡ some signature
          → verify p key host_label (signed_body p bound a b theirs) signature ≡ true
          → (o : Option Bytes) → root_for p ke (bound ∷ a ∷ b ∷ mac ∷ theirs ∷ []) ≡ o
          → Takes Signed (reply_with p v c key (signed_body p bound a b mac) mac o)
      root-Signed signature s k none r = tt
      root-Signed signature s k (some root) r = (
        (refl, refl),
        record {
          bound = bound;
          signature = signature;
          binds = e;
          reads_signature = s;
          owns_key = k;
          has_root = r;
        },
      )

      checked-Signed :
          (o : Option Bytes)
          → b64 p c.signature ≡ o
          → Takes Signed (check_signature p v c key bound a b mac theirs ke o)
      checked-Signed none s = tt
      checked-Signed (some signature) s =
          if_cases (Takes Signed)
            (verify p key host_label (signed_body p bound a b theirs) signature)
            (λ k. root-Signed signature s k _ refl) (λ k. tt)

    abbrev pub Evident : AuthenticatedHost → Type 0
    Evident host = Key host × Evidence host

    pub takes :
        (P Q : AuthenticatedHost → Type 0)
        → ((host : AuthenticatedHost) → P host → Q host)
        → (o : Outcome (ConfirmMessage × AuthenticatedHost)) → Takes P o
        → Takes Q o
    takes P Q f (accepts (m, host)) w = f host w
    takes P Q f (rejects e) w = tt
    takes P Q f raises w = tt

    module _ (spake : Spake) (s : v.secret ≡ by_spake spake) (share : String)
        (h : truthy c.share ≡ some share) (b bound : Bytes) (r : b64 p share ≡ some b)
        (e : binding p v.hello c.host_key c.host_name c.nonce none ≡ some bound) where
      spake_confirmed :
          (result : SpakeResult)
          → (finish p spake b bound).1 ≡ some result
          → (o : Option Bytes) → b64 p c.confirm ≡ o
          → Takes Evident (check_spake p v c key bound spake.share b result o)
      spake_confirmed result f none k = tt
      spake_confirmed result f (some theirs) k =
          if_cases (Takes Evident) (verify_peer result theirs)
            (λ y.
              takes (Signed none bound spake.share b result.confirmation theirs result.ke e) Evident
                (λ host z. (z.0, of_spake spake share b bound theirs result s h r e f k y z.1)) _
                (checked-Signed none bound spake.share b result.confirmation theirs result.ke e _
                  refl))
            (λ y. tt)

      spake_finished :
          (o : Option SpakeResult)
          → (finish p spake b bound).1 ≡ o
          → Takes Evident (finish_spake p v c key bound spake.share b o)
      spake_finished none f = tt
      spake_finished (some result) f = spake_confirmed result f _ refl

    spake_bound :
        (spake : Spake)
        → v.secret ≡ by_spake spake
        → (share : String) → truthy c.share ≡ some share
        → (o : Option Bytes) → binding p v.hello c.host_key c.host_name c.nonce none ≡ o
        → (q : Option Bytes) → b64 p share ≡ q
        → Takes Evident (bound_spake p v c key spake o q)
    spake_bound spake s share h (some bound) e (some b) r =
        spake_finished spake s share h b bound r e _ refl
    spake_bound spake s share h none e q r = tt
    spake_bound spake s share h (some bound) e none r = tt

    spake_shared :
        (spake : Spake)
        → v.secret ≡ by_spake spake
        → (o : Option String) → truthy c.share ≡ o
        → Takes Evident (finish_code p v c key spake o)
    spake_shared spake s none h = tt
    spake_shared spake s (some share) h = spake_bound spake s share h _ refl _ refl

    module _ (ours : EphemeralKeyPair) (s : v.secret ≡ by_ephemeral ours) (dh : String)
        (h : truthy c.dh ≡ some dh) (b bound : Bytes) (r : b64 p dh ≡ some b)
        (e : binding p v.hello c.host_key c.host_name c.nonce (some dh) ≡ some bound) where
      exchange_confirmed :
          (derived : Exchanged)
          → derive_exchange p ours b bound ≡ some derived
          → (o : Option Bytes) → b64 p c.confirm ≡ o
          → Takes Evident (check_exchange p v c key bound ours.public_key b derived o)
      exchange_confirmed derived f none k = tt
      exchange_confirmed derived f (some theirs) k =
          if_cases (Takes Evident) (equal_bytes theirs derived.host_confirm)
            (λ y.
              takes
                (Signed (some dh) bound ours.public_key b derived.viewer_confirm
                  derived.host_confirm derived.ke e)
                Evident
                (λ host z. (z.0, of_exchange ours dh b bound theirs derived s h r e f k y z.1)) _
                (checked-Signed (some dh) bound ours.public_key b derived.viewer_confirm
                  derived.host_confirm derived.ke e _ refl))
            (λ y. tt)

      exchange_finished :
          (o : Option Exchanged)
          → derive_exchange p ours b bound ≡ o
          → Takes Evident (finish_exchange p v c key bound ours.public_key b o)
      exchange_finished none f = tt
      exchange_finished (some derived) f = exchange_confirmed derived f _ refl

    exchange_bound :
        (ours : EphemeralKeyPair)
        → v.secret ≡ by_ephemeral ours
        → (dh : String) → truthy c.dh ≡ some dh
        → (o : Option Bytes) → binding p v.hello c.host_key c.host_name c.nonce (some dh) ≡ o
        → (q : Option Bytes) → b64 p dh ≡ q
        → Takes Evident (bound_exchange p v c key ours o q)
    exchange_bound ours s dh h (some bound) e (some b) r =
        exchange_finished ours s dh h b bound r e _ refl
    exchange_bound ours s dh h none e q r = tt
    exchange_bound ours s dh h (some bound) e none r = tt

    exchange_sent :
        (ours : EphemeralKeyPair)
        → v.secret ≡ by_ephemeral ours
        → (o : Option String) → truthy c.dh ≡ o
        → Takes Evident (finish_account p v c key ours o)
    exchange_sent ours s none h = tt
    exchange_sent ours s (some dh) h = exchange_bound ours s dh h _ refl _ refl

    pub evident : (s : ViewerSecret) → v.secret ≡ s → Takes Evident (by_secret p v c key s)
    evident (by_spake spake) e = spake_shared spake e _ refl
    evident (by_ephemeral ours) e = exchange_sent ours e _ refl
