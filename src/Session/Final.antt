-- ===== src/Session/Final.antt =====
-- Failures that a session does not retry.
use hop_desk.Session.Stopping.{active, NeverStarts, run-IsQuiet}
use hop_desk.Failures.{classify_vnc_error, explain_vnc_error, is_terminal}
use hop_desk.Failures.Retries.{is_password, password-is_terminal}
use hop_desk.Session.Progress.{progress, Progress, progress-drop_client}
use hop_desk.Session.{Session, Connection}
use hop_desk.Session.SessionState.{failed}
use hop_desk.Common.{
  String, false, false≢true, if_cases, leb, none, not, or_false, refl, some, sym, true, ℕ, ◌||◌,
  ◌∙◌, ◌≡◌, Option, ap, arith, subst⁻¹, ◌==◌, List, [], inr,
}
use hop_desk.Session.Steps.{
  limit, on_dropped, on_failed, retry, disconnect, drop_client, Event, run,
}
use hop_desk.Session.Loop.{is_current, set_state, is_that, stop_loop}

self : (c : ℕ) → (c == c) ≡ true
self c = ground arith

current_self : (c : ℕ) (o : Option ℕ) → o ≡ some c → is_that o c ≡ true
current_self c o e = subst⁻¹ (λ x. is_that x c ≡ true) e (self c)

connection-disconnect : (c : Option ℕ) (s : Session) → (disconnect c s).connection ≡ s.connection
connection-disconnect none s = refl
connection-disconnect (some c) s = refl

connection-drop_client : (s : Session) → (drop_client s).connection ≡ s.connection
unfolding drop_client stop_loop
connection-drop_client s = connection-disconnect s.client (record (stop_loop s) { client = none })

active-disconnect : (c : Option ℕ) (s : Session) → active (disconnect c s).log ≡ active s.log
unfolding active
active-disconnect none s = refl
active-disconnect (some c) s = refl

active-drop_client : (s : Session) → active (drop_client s).log ≡ active s.log
unfolding drop_client stop_loop
active-drop_client s = active-disconnect s.client (record (stop_loop s) { client = none })

-- Failed, without a client or a retry.
abbrev IsFinal : Session → Session → Type 0
IsFinal s x =
    (x.stats.state ≡ failed)
    × (x.client ≡ none)
    × (x.armed ≡ s.armed)
    × (active x.log ≡ active s.log)

retry-IsFinal :
    (s : Session) (reason : String) (n : ℕ)
    → s.client ≡ none
    → is_terminal (explain_vnc_error reason s.connection.target) ≡ true
    → IsFinal s (retry s reason n)
unfolding retry set_state active
retry-IsFinal s reason n c h =
    let terminal = is_terminal (explain_vnc_error reason s.connection.target) in
    if_cases (IsFinal s) (not s.policy.enabled || terminal || leb (limit s) s.stats.attempt)
      (λ e. (refl, c, refl, refl))
      (λ e. absurd (
        false≢true (
          sym
            (or_false (not s.policy.enabled) terminal
              (or_false (not s.policy.enabled || terminal) (leb (limit s) s.stats.attempt) e).0).1
          ∙ h)))

-- What such a failure leaves: no client, and the retries that were armed.
password_fails :
    (s : Session) (c : ℕ) (reason : String) (n : ℕ)
    → s.client ≡ some c
    → s.stopping ≡ false
    → is_password (classify_vnc_error reason s.connection.target).category ≡ true
    → let after = on_failed s c reason n in
      (after.stats.state ≡ failed)
      × (after.client ≡ none)
      × (after.armed ≡ s.armed)
      × (active after.log ≡ active s.log)
unfolding on_failed is_current on_dropped
password_fails s c reason n e g h =
    let closed : Session = drop_client s in
    let same : progress closed ≡ record (progress s) { client = none } = progress-drop_client s in
    let ends : is_terminal (explain_vnc_error reason closed.connection.target) ≡ true =
      subst⁻¹ (λ (x : Connection). is_terminal (explain_vnc_error reason x.target) ≡ true)
        (connection-drop_client s) (password-is_terminal reason s.connection.target h) in
    let final : IsFinal closed (retry closed reason n) =
      retry-IsFinal closed reason n (ap (λ (p : Progress). p.client) same) ends in
    if_cases (IsFinal s) (is_that s.client c)
      (λ _.
        if_cases (IsFinal s) s.stopping (λ x. absurd (false≢true (sym g ∙ x)))
          (λ _. (
            final.0,
            final.1,
            final.2 ∙ ap (λ (p : Progress). p.armed) same,
            final.3 ∙ active-drop_client s,
          )))
      (λ x. absurd (false≢true (sym x ∙ current_self c s.client e)))

-- A missing or a wrong password is final: when the client in use of a session that was not stopped
-- and has no retry armed fails with what is classified so, the session is failed, and whatever
-- happens afterwards but a start, it has no client, and nothing new is connected, requested, sent or
-- put off to a retry.
pub password_final :
    (s : Session) (c : ℕ) (reason : String) (n : ℕ) (es : List Event)
    → s.client ≡ some c
    → s.stopping ≡ false
    → s.armed ≡ []
    → is_password (classify_vnc_error reason s.connection.target).category ≡ true
    → NeverStarts es
    → let after = on_failed s c reason n in
      (after.stats.state ≡ failed)
      × ((run after es).client ≡ none)
      × (active (run after es).log ≡ active s.log)
password_final s c reason n es e g unarmed h never =
    let f = password_fails s c reason n e g h in
    let quiet =
      run-IsQuiet (active s.log) (on_failed s c reason n) es never
        (record { at_rest = inr (f.2 ∙ unarmed); no_client = f.1; silent = f.3 }) in
    (f.0, quiet.no_client, quiet.silent)
