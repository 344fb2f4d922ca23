-- ===== src/Handshake/Hosts.antt =====
-- What `onChallenge` has checked when it takes a host.
use hop_desk.Bytes.{Bytes}
use hop_desk.Keys.{Primitives}
use hop_desk.Keys.Identity.{device_id_from_public_key}
use hop_desk.Handshake.{ChallengeMessage, ConfirmMessage, Outcome, b64}
use hop_desk.Handshake.Outcome.{accepts}
use hop_desk.Handshake.Viewer.{ViewerHandshake, AuthenticatedHost}
use hop_desk.Common.{
  Option, String, if_cases, none, refl, some, ◌≡◌, ap, eq_iff, false, not, not-false, str_eq, subst,
  sym, ◌∙◌,
}
use hop_desk.Handshake.Answer.{mismatches, on_challenge, with_host_id, with_host_key}
use hop_desk.Handshake.Evidence.{Evidence, Takes, takes, evident, Evident}

module _ (p : Primitives) (v : ViewerHandshake) (c : ChallengeMessage) where
  -- What stands of a host that a viewer takes.
  pub record IsTrusted (host : AuthenticatedHost) : Type 0 where
    pub reads_key : b64 p c.host_key ≡ some host.host_key
    pub owns_id : device_id_from_public_key p host.host_key ≡ some v.opts.host_id
    pub pinned : mismatches p v.opts.expected_host_key c.host_key ≡ false
    pub same_id : host.host_id ≡ v.opts.host_id
    pub evidence : Evidence p v c host

  id-IsTrusted :
      (key : Bytes)
      → b64 p c.host_key ≡ some key
      → (o : Option String) → device_id_from_public_key p key ≡ o
      → Takes IsTrusted (with_host_id p v c key o)
  id-IsTrusted key k none e = tt
  id-IsTrusted key k (some id) e =
      if_cases (Takes IsTrusted) (not (str_eq id v.opts.host_id)) (λ x. tt)
        (λ own.
          if_cases (Takes IsTrusted) (mismatches p v.opts.expected_host_key c.host_key) (λ x. tt)
            (λ pin.
              takes p v c key (Evident p v c key) IsTrusted
                (λ host z. record {
                  reads_key = k ∙ ap some (sym z.0.0);
                  owns_id =
                      ap (device_id_from_public_key p) z.0.0
                      ∙ e
                      ∙ ap some ((eq_iff id v.opts.host_id).0 (not-false _ own));
                  pinned = pin;
                  same_id = z.0.1;
                  evidence = z.1;
                })
                _ (evident p v c key v.secret refl)))

  key-IsTrusted :
      (o : Option Bytes) → b64 p c.host_key ≡ o → Takes IsTrusted (with_host_key p v c o)
  key-IsTrusted none e = tt
  key-IsTrusted (some key) e = id-IsTrusted key e _ refl

  -- A viewer takes a host only in its first challenge, when the host's key reads as bytes of which
  -- the name sought is the device ID, is the pinned key if one is pinned, the host's confirmation
  -- is the one due for the secret, or for the exchange of ephemeral keys, and the host's key has
  -- signed the whole handshake as the viewer sees it; and the root is of all of it.
  pub on_challenge-IsTrusted :
      (m : ConfirmMessage) (host : AuthenticatedHost)
      → (on_challenge p v c).1 ≡ accepts (m, host)
      → (v.finished ≡ false) × IsTrusted host
  unfolding on_challenge
  on_challenge-IsTrusted m host =
      if_cases
        (λ (r : ViewerHandshake × Outcome (ConfirmMessage × AuthenticatedHost)).
          r.1 ≡ accepts (m, host) → (v.finished ≡ false) × IsTrusted host)
        v.finished (λ f e. cc) (λ f e. (f, subst (Takes IsTrusted) e (key-IsTrusted _ refl)))
