-- ===== src/Session/Retries.antt =====
-- The budget over all that can happen to a session that never gets through.
use hop_desk.Session.Budget.{IsTrying, attempt-IsTrying, budget, on_dropped-IsTrying}
use hop_desk.Session.{Session, ReconnectPolicy, Connection, new_session}
use hop_desk.Session.SessionState.{disconnected}
use hop_desk.Session.Steps.Event.{starts, stops, timer_fires, connects_ok, fails}
use hop_desk.Session.Progress.{
  connections, progress, progress-drop_client, progress-set_state, progress-step,
}
use hop_desk.Common.{
  Bool, List, String, [], false, if_both, if_cases, inl, inr, none, refl, some, subst⁻¹, true, ℕ,
  ◌∷◌, ◌≡◌, Option, ap, arith, false≢true, if◌then◌else◌, subst, ◌≤◌, ◌⊎◌,
}
use hop_desk.Session.Steps.{
  Event, drop_client, is_armed, is_over, on_failed, on_timer, stop, attempt, attempt_now, run,
  start, step,
}
use hop_desk.Session.Loop.{is_current, is_that, without}

-- A run in which no client gets through and nobody starts the session again.
abbrev never_through : Event → Bool
never_through (starts n) = false
never_through (connects_ok c t) = false
never_through e = true

abbrev NeverThrough : List Event → Type 0
NeverThrough [] = Unit
NeverThrough (e ∷ es) = (never_through e ≡ true) × NeverThrough es

fires : (i j : ℕ) → is_armed i (j ∷ []) ≡ true → without (some i) (j ∷ []) ≡ []
unfolding without is_armed
fires i j h = ground arith

fires_last : (i j : ℕ) (ts : List ℕ) → ts ≡ j ∷ [] → is_armed i ts ≡ true → without (some i) ts ≡ []
unfolding without is_armed
fires_last i j ts e h =
    subst⁻¹ (λ l. without (some i) l ≡ []) e (fires i j (subst (λ l. is_armed i l ≡ true) e h))

no_timer : (i : ℕ) (ts : List ℕ) → ts ≡ [] → is_armed i ts ≡ true → ⊥
unfolding is_armed
no_timer i ts e h = false≢true (subst (λ l. is_armed i l ≡ true) e h)

no_client : (c : ℕ) (o : Option ℕ) → o ≡ none → is_that o c ≡ true → ⊥
no_client c o e h = false≢true (subst (λ x. is_that x c ≡ true) e h)

module _ (policy : ReconnectPolicy) where
  on_failed-IsTrying :
      (s : Session) (c : ℕ) (reason : String) (n : ℕ)
      → IsTrying policy (progress s)
      → IsTrying policy (progress (on_failed s c reason n))
  unfolding on_failed is_current
  on_failed-IsTrying s c reason n h =
      if_cases (λ x. IsTrying policy (progress x)) (is_that s.client c)
        (λ e.
          on_dropped-IsTrying policy s reason n
            (elim h.live [
              | inl x ↦ inl x
              | inr (inl x) ↦ inr x
              | inr (inr x) ↦ absurd (no_client c s.client x.0 e)
            ])
            h)
        (λ e. h)

  on_timer_armed :
      (s : Session) (i n : ℕ)
      → is_armed i s.armed ≡ true
      → IsTrying policy (progress s)
      → IsTrying policy (progress (attempt (record s { armed = without (some i) s.armed }) n))
  unfolding attempt
  on_timer_armed s i n e h =
      let fired : Session = record s { armed = without (some i) s.armed } in
      let own : (s.stopping ≡ true) ⊎ (without (some i) s.armed ≡ [])
          → IsTrying policy (progress fired) =
        λ l. record {
          same_policy = h.same_policy;
          unconnected = h.unconnected;
          counted = h.counted;
          bounded = h.bounded;
          live = elim l [ inl x ↦ inl x | inr x ↦ inr (inl x) ];
        } in
      elim h.live [
        | inl x ↦
            subst⁻¹ (λ b. IsTrying policy (progress (if b then fired else attempt_now fired n))) x
              (own (inl x))
        | inr (inl x) ↦ absurd (no_timer i s.armed x e)
        | inr (inr (c, j, a, few)) ↦
            attempt-IsTrying policy fired n (inr (fires_last i j s.armed a e)) few
              (own (inr (fires_last i j s.armed a e)))
      ]

  on_timer-IsTrying :
      (s : Session) (i n : ℕ)
      → IsTrying policy (progress s)
      → IsTrying policy (progress (on_timer s i n))
  unfolding on_timer
  on_timer-IsTrying s i n h =
      let fired : Session = record s { armed = without (some i) s.armed } in
      if_cases (λ x. IsTrying policy (progress x)) (is_armed i s.armed)
        (λ e. on_timer_armed s i n e h) (λ e. h)

  stop-IsTrying : (s : Session) → IsTrying policy (progress s) → IsTrying policy (progress (stop s))
  unfolding stop
  stop-IsTrying s h =
      let halted : Session = record s {
        stopping = true;
        armed = without s.timer s.armed;
        timer = none;
      } in
      let own : IsTrying policy (progress (drop_client halted)) =
        subst⁻¹ (IsTrying policy) (progress-drop_client halted) (record {
          same_policy = h.same_policy;
          unconnected = h.unconnected;
          counted = h.counted;
          bounded = h.bounded;
          live = inl refl;
        }) in
      if_both (λ x. IsTrying policy (progress x)) (is_over s.stats.state) own
        (subst⁻¹ (IsTrying policy) (progress-set_state (drop_client halted) disconnected none) own)

  step-IsTrying :
      (s : Session) (e : Event)
      → never_through e ≡ true
      → IsTrying policy (progress s)
      → IsTrying policy (progress (step s e))
  unfolding step
  step-IsTrying s (starts n) u h = cc
  step-IsTrying s stops u h = stop-IsTrying s h
  step-IsTrying s (timer_fires i n) u h = on_timer-IsTrying s i n h
  step-IsTrying s (connects_ok c t) u h = cc
  step-IsTrying s (fails c reason n) u h = on_failed-IsTrying s c reason n h
  step-IsTrying s e u h = subst⁻¹ (IsTrying policy) (progress-step s e refl) h

  run-IsTrying :
      (s : Session) (es : List Event)
      → NeverThrough es
      → IsTrying policy (progress s)
      → IsTrying policy (progress (run s es))
  unfolding run
  run-IsTrying s [] u h = h
  run-IsTrying s (e ∷ es) u h = run-IsTrying (step s e) es u.1 (step-IsTrying s e u.0 h)

-- A new session that is started, and never gets through nor is started again, connects at most as
-- often as the first attempts allow, or once if they allow none.
pub retry_budget :
    (connection : Connection) (policy : ReconnectPolicy) (n : ℕ) (es : List Event)
    → NeverThrough es
    → connections (run (start (new_session connection policy) n) es).log ≤ budget policy
unfolding start new_session attempt connections
retry_budget connection policy n es u =
    let s : Session = new_session connection policy in
    let first : IsTrying policy (progress (start s n)) =
      attempt-IsTrying policy s n (inr refl) (omega arith) (record {
        same_policy = refl;
        unconnected = refl;
        counted = omega arith;
        bounded = omega arith;
        live = inr (inl refl);
      }) in
    let h : IsTrying policy (progress (run (start s n) es)) =
      run-IsTrying policy (start s n) es u first in
    omega (arith, h.counted, h.bounded, ap budget h.same_policy)
