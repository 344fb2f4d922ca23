-- ===== src/Session/Budget.antt =====
-- The budget of attempts: a session that never gets through connects no more often than it may.
use hop_desk.Session.{Session, SessionState, ReconnectPolicy}
use hop_desk.Session.SessionState.{connecting, reconnecting, disconnected}
use hop_desk.Failures.{explain_vnc_error, is_terminal}
use hop_desk.Session.Progress.{
  connections, progress, Progress, progress-drop_client, progress-set_state,
}
use hop_desk.Common.{
  String, [], ap, if_cases, inr, leb, max, none, not, suc, true, ℕ, ◌||◌, ◌∷◌, ◌≡◌, ◌≤◌, ◌⊎◌, arith,
  false, inl, leb→lt, or_false, subst⁻¹, ◌<◌, ◌∙◌, if_both, if◌then◌else◌, ◌==◌,
}
use hop_desk.Session.Steps.{
  attempt, limit, retry, drop_client, limit_for, on_dropped, or_default, attempt_now, own_engine,
}
use hop_desk.Session.Loop.{set_state}

-- The first attempt is made whatever the limit.
abbrev pub budget : ReconnectPolicy → ℕ
budget policy = max 1 (or_default policy.initial_attempts policy.max_attempts)

-- Something that may lead to another attempt: a client, or one timer with an attempt left.
abbrev pub IsWaiting : Progress → Type 0
IsWaiting p = (p.client ≡ none) × (i : ℕ) × (p.armed ≡ i ∷ []) × (suc p.attempt ≤ budget p.policy)

pub record IsTrying (policy : ReconnectPolicy) (p : Progress) : Type 0 where
  pub same_policy : p.policy ≡ policy
  pub unconnected : p.connected_at ≡ none
  pub counted : p.made ≤ p.attempt
  pub bounded : p.attempt ≤ budget p.policy
  pub live : (p.stopping ≡ true) ⊎ ((p.armed ≡ []) ⊎ IsWaiting p)

retries :
    (s : Session)
    → s.stats.connected_at ≡ none
    → leb (limit s) s.stats.attempt ≡ false
    → suc s.stats.attempt ≤ budget s.policy
unfolding limit
retries s u e =
    let few : s.stats.attempt < limit s = leb→lt (limit s) s.stats.attempt e in
    let same : limit s ≡ limit_for s.policy none = ap (limit_for s.policy) u in
    omega (arith, few, same)

module _ (policy : ReconnectPolicy) where
  retry-IsTrying :
      (s : Session) (reason : String) (n : ℕ)
      → s.client ≡ none
      → s.armed ≡ []
      → IsTrying policy (progress s)
      → IsTrying policy (progress (retry s reason n))
  unfolding retry set_state connections
  retry-IsTrying s reason n c a h =
      let terminal = is_terminal (explain_vnc_error reason s.connection.target) in
      if_cases (λ x. IsTrying policy (progress x))
        (not s.policy.enabled || terminal || leb (limit s) s.stats.attempt)
        (λ e. record {
          same_policy = h.same_policy;
          unconnected = h.unconnected;
          counted = h.counted;
          bounded = h.bounded;
          live = inr (inl a);
        })
        (λ e. record {
          same_policy = h.same_policy;
          unconnected = h.unconnected;
          counted = h.counted;
          bounded = h.bounded;
          live = inr (
              inr (
                c,
                s.next_timer,
                ap (λ ts. s.next_timer ∷ ts) a,
                retries s h.unconnected
                    (or_false (not s.policy.enabled || terminal) (leb (limit s) s.stats.attempt)
                      e).1,
              ));
        })

  pub on_dropped-IsTrying :
      (s : Session) (reason : String) (n : ℕ)
      → (s.stopping ≡ true) ⊎ (s.armed ≡ [])
      → IsTrying policy (progress s)
      → IsTrying policy (progress (on_dropped s reason n))
  unfolding on_dropped
  on_dropped-IsTrying s reason n a h =
      let closed = drop_client s in
      let same : progress closed ≡ record (progress s) { client = none } = progress-drop_client s in
      let own : IsTrying policy (progress closed) = subst⁻¹ (IsTrying policy) same (record {
        same_policy = h.same_policy;
        unconnected = h.unconnected;
        counted = h.counted;
        bounded = h.bounded;
        live = elim a [ inl x ↦ inl x | inr x ↦ inr (inl x) ];
      }) in
      if_cases (λ x. IsTrying policy (progress x)) s.stopping
        (λ e. subst⁻¹ (IsTrying policy) (progress-set_state closed disconnected none) own)
        (λ e.
          retry-IsTrying closed reason n (ap (λ p. p.client) same)
            (ap (λ p. p.armed) same ∙ (elim a [ inl x ↦ cc | inr x ↦ x ])) own)

  pub attempt_now-IsTrying :
      (s : Session) (n : ℕ)
      → (s.stopping ≡ true) ⊎ (s.armed ≡ [])
      → suc s.stats.attempt ≤ budget s.policy
      → IsTrying policy (progress s)
      → IsTrying policy (progress (attempt_now s n))
  unfolding attempt_now set_state connections
  attempt_now-IsTrying s n a few h =
      let stats = s.stats in
      let counted : Session = record s { stats = record stats { attempt = suc stats.attempt } } in
      let state : SessionState = if suc stats.attempt == 1 then connecting else reconnecting in
      let l : (s.stopping ≡ true) ⊎ ((s.armed ≡ []) ⊎ IsWaiting (progress counted)) = elim a [
        | inl x ↦ inl x
        | inr x ↦ inr (inl x)
      ] in
      if_both (λ x. IsTrying policy (progress x)) s.connection.is_vnc
        (record {
          same_policy = h.same_policy;
          unconnected = h.unconnected;
          counted = omega (arith, h.counted);
          bounded = few;
          live = elim a [ inl x ↦ inl x | inr x ↦ inr (inl x) ];
        })
        (on_dropped-IsTrying (set_state counted state none) (own_engine s.connection) n a (record {
          same_policy = h.same_policy;
          unconnected = h.unconnected;
          counted = omega (arith, h.counted);
          bounded = few;
          live = l;
        }))

  pub attempt-IsTrying :
      (s : Session) (n : ℕ)
      → (s.stopping ≡ true) ⊎ (s.armed ≡ [])
      → suc s.stats.attempt ≤ budget s.policy
      → IsTrying policy (progress s)
      → IsTrying policy (progress (attempt s n))
  unfolding attempt
  attempt-IsTrying s n a few h =
      if_both (λ x. IsTrying policy (progress x)) s.stopping h (attempt_now-IsTrying s n a few h)
