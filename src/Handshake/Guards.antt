-- ===== src/Handshake/Guards.antt =====
-- The guards of `onHello`: a challenge is given only past all of them, and by one of the routes.
use hop_desk.Handshake.Offers.{exchange_reply}
use hop_desk.Handshake.Shares.{spake-Replies}
use hop_desk.Bytes.{Bytes}
use hop_desk.Encoding.{truthy, equal_bytes}
use hop_desk.Grants.{GrantStore, find}
use hop_desk.Limiter.{AttemptLimiter, AttemptDecision, begin, busy, granted, locked, refused}
use hop_desk.Replay.{check, NonceCache, Verdict, clock_skew, fresh, replay}
use hop_desk.Throttle.{PeerThrottle, allow, allowed, Allowed, wait}
use hop_desk.Keys.{Primitives}
use hop_desk.Keys.Identity.{password_scalar}
use hop_desk.Handshake.{
  HelloMessage, ChallengeMessage, code_auth, grant_auth, or_no_text, AuthKind, ErrorCode,
  account_auth, not_authorised, not_paired, paired_auth,
}
use hop_desk.Handshake.Host.{
  HostAuthenticator, HelloCall, HelloOutcome, Pending, is_grant, who, with_code, with_decision,
  with_grant, with_password, with_secret, is_code,
}
use hop_desk.Handshake.Routes.{
  Whenever, Route, by_code, by_grant, IsAllowed, grant_scalar, ExchangeReply, by_account, by_trust,
  whenever,
}
use hop_desk.Common.{
  Option, String, none, refl, some, ℕ, ◌≡◌, ap, if_false, if_true, subst⁻¹, Bool, false, false≢true,
  if_cases, sym, true, ◌∙◌,
}
use hop_desk.Handshake.Hello.{
  with_share, by_kind, throttled, with_allowed, with_device, with_verdict,
}

module _ (p : Primitives) (h : HostAuthenticator) (hello : HelloMessage) (call : HelloCall)
    (viewer_key : Bytes) where
  -- The host with other components than `h` has.
  abbrev now : AttemptLimiter → PeerThrottle → NonceCache → GrantStore → HostAuthenticator
  now l th n g = record h { limiter = l; throttle = th; nonces = n; grants = g }

  abbrev Routed : HelloOutcome → Type 0
  Routed = Whenever (Route p h hello call viewer_key)

  module _ (th : PeerThrottle) (n : NonceCache) where
    module _ (share : String) (has_share : truthy hello.share ≡ some share) where
      module _ (is_code_auth : hello.auth ≡ code_auth) (secret : String)
          (has_code : call.access_code ≡ some secret) where
        code_password :
            (l : AttemptLimiter) (i : ℕ)
            → (begin h.limiter (who hello call.peer) (call.clock 2)).1 ≡ granted i
            → (w : Option ℕ) → password_scalar p secret h.device_id ≡ w
            → Routed (with_password p (now l th n h.grants) hello call viewer_key share i w).1
        code_password l i b none e = tt
        code_password l i b (some w) e =
            whenever _ _ (λ c s r. by_code secret i w is_code_auth has_code b e r) _
              (spake-Replies p h hello call viewer_key l th n h.grants share has_share (some i) w)

        code_decision :
            (l : AttemptLimiter) (d : AttemptDecision)
            → (begin h.limiter (who hello call.peer) (call.clock 2)).1 ≡ d
            → Routed (with_decision p (now l th n h.grants) hello call viewer_key share secret d).1
        code_decision l (granted i) b = code_password l i b _ refl
        code_decision l (refused retry busy) b = tt
        code_decision l (refused retry locked) b = tt

      code-Routed :
          hello.auth ≡ code_auth
          → (o : Option String) → call.access_code ≡ o
          → Routed (with_code p (now h.limiter th n h.grants) hello call viewer_key share o).1
      code-Routed a none e = tt
      code-Routed a (some secret) e = code_decision a secret e _ _ refl

      module _ (is_grant_auth : hello.auth ≡ grant_auth)
          (passes : IsAllowed p h hello call viewer_key) where
        abbrev found : GrantStore × Option ℕ
        found = find equal_bytes h.grants (or_no_text hello.grant_id) viewer_key (call.clock 2)

        grant_secret :
            (r : ℕ)
            → found.1 ≡ some r
            → (w : Option ℕ) → grant_scalar p h hello call viewer_key r ≡ w
            → Routed (with_secret p (now h.limiter th n found.0) hello call viewer_key share w).1
        grant_secret r f none e = tt
        grant_secret r f (some w) e =
            whenever _ _ (λ c s k. by_grant r w is_grant_auth passes f e k) _
              (spake-Replies p h hello call viewer_key h.limiter th n found.0 share has_share none
                w)

        grant-Routed :
            (o : Option ℕ)
            → found.1 ≡ o
            → Routed (with_grant p (now h.limiter th n found.0) hello call viewer_key share o).1
        grant-Routed none e = tt
        grant-Routed (some r) e = grant_secret r e _ refl

    share_code :
        (o : Option String)
        → truthy hello.share ≡ o
        → hello.auth ≡ code_auth
        → Routed (with_share p (now h.limiter th n h.grants) hello call viewer_key o).1
    share_code none e a = tt
    share_code (some share) e a =
        subst⁻¹ (λ (r : HostAuthenticator × HelloOutcome). Routed r.1)
          (if_false (is_grant hello.auth) _ _ (ap is_grant a)) (code-Routed share e a _ refl)

    share_grant :
        (o : Option String)
        → truthy hello.share ≡ o
        → hello.auth ≡ grant_auth
        → IsAllowed p h hello call viewer_key
        → Routed (with_share p (now h.limiter th n h.grants) hello call viewer_key o).1
    share_grant none e a passes = tt
    share_grant (some share) e a passes =
        subst⁻¹ (λ (r : HostAuthenticator × HelloOutcome). Routed r.1)
          (if_true (is_grant hello.auth) _ _ (ap is_grant a)) (grant-Routed share e a passes _ refl)

  module _ (n : NonceCache) where
    -- A device that is let in gets an exchange.
    device-Routed :
        (th : PeerThrottle) (lets_in : Bool) (refusal : ErrorCode)
        → (lets_in ≡ true
            → (c : ChallengeMessage) (s : Pending) → ExchangeReply p h hello call viewer_key c s
            → Route p h hello call viewer_key c s)
        → (o : Option String) → truthy hello.dh ≡ o
        → Routed
            (with_device p (now h.limiter th n h.grants) hello call viewer_key lets_in refusal o)
    device-Routed th lets_in refusal route none e = tt
    device-Routed th lets_in refusal route (some dh) e =
        if_cases Routed lets_in
          (λ y. whenever _ _ (route y) _ (exchange_reply p h hello call viewer_key n dh e th))
          (λ x. tt)

    kind-Routed :
        (th : PeerThrottle)
        → (k : AuthKind) → hello.auth ≡ k
        → (is_code k ≡ false → IsAllowed p h hello call viewer_key)
        → Routed (by_kind p (now h.limiter th n h.grants) hello call viewer_key k).1
    kind-Routed th code_auth a passes = share_code th n _ refl a
    kind-Routed th grant_auth a passes = share_grant th n _ refl a (passes refl)
    kind-Routed th paired_auth a passes =
        device-Routed th (call.trusts hello.viewer_id viewer_key) not_paired
          (λ y c s r. by_trust a (passes refl) y r) _ refl
    kind-Routed th account_auth a passes =
        device-Routed th (call.account_authorised hello.viewer_id viewer_key) not_authorised
          (λ y c s r. by_account a (passes refl) y r) _ refl

    allowed-Routed :
        (th : PeerThrottle) (w : Allowed)
        → (allow h.throttle (who hello call.peer) (call.clock 1)).1 ≡ w
        → Routed (with_allowed p (now h.limiter th n h.grants) hello call viewer_key w).1
    allowed-Routed th allowed e = kind-Routed th hello.auth refl (λ x. e)
    allowed-Routed th (wait retry) e = tt

    throttled-Routed : Routed (throttled p (record h { nonces = n }) hello call viewer_key).1
    unfolding throttled
    throttled-Routed =
        if_cases (λ (r : HostAuthenticator × HelloOutcome). Routed r.1) (is_code hello.auth)
          (λ y. kind-Routed h.throttle hello.auth refl (λ x. absurd (false≢true (sym x ∙ y))))
          (λ x. allowed-Routed _ _ refl)

  abbrev pub FreshlyRouted : ChallengeMessage → Pending → Type 0
  FreshlyRouted c s =
      ((check h.nonces hello.nonce hello.time (call.clock 0)).1 ≡ fresh)
      × Route p h hello call viewer_key c s

  pub nonce-Routed :
      (n : NonceCache) (v : Verdict)
      → (check h.nonces hello.nonce hello.time (call.clock 0)).1 ≡ v
      → Whenever FreshlyRouted (with_verdict p (record h { nonces = n }) hello call viewer_key v).1
  nonce-Routed n fresh e =
      whenever (Route p h hello call viewer_key) FreshlyRouted (λ c s r. (e, r)) _
        (throttled-Routed n)
  nonce-Routed n replay e = tt
  nonce-Routed n clock_skew e = tt
