-- ===== src/Authorization/Hosting.antt =====
-- When an installation may host.
use hop_desk.Authorization.{
  Authorization, InstallationVerdict, VerdictStatus, AuthorizationStatus, ceiling, clock_slack_ms,
  hosts, max_grace_ms, status, status_active, configured, may_host, status_cached, status_verdict,
  unasked,
}
use hop_desk.Authorization.VerdictStatus.{active_verdict, blocked_verdict}
use hop_desk.Common.{
  Option, String, none, some, true, ℕ, ◌+◌, ◌<◌, ◌≡◌, ◌≤◌, arith, false≢true, if_cases,
  if◌then◌else◌, inl, inr, leb, leb→le, leb→lt, ltb, ltb→lt, or_cases, or_false, refl, subst⁻¹,
  ◌||◌, ◌↔◌,
}

-- A build with a service hosts only on an answer that is cached, that says active, that is less
-- than 30 days old and still valid, and that is dated no more than a day ahead.
abbrev pub InTime : InstallationVerdict → ℕ → Type 0
InTime v t =
    (t < v.valid_until) × (t < v.checked_at + max_grace_ms) × (v.checked_at ≤ t + clock_slack_ms)

abbrev pub IsHosting : Option (InstallationVerdict × String) → ℕ → Type 0
IsHosting none t = ⊥
IsHosting (some (v, s)) t = (v.status ≡ active_verdict) × InTime v t

active_hosts :
    (v : InstallationVerdict) (t : ℕ) → (hosts (status_active v t).state ≡ true) ↔ InTime v t
unfolding status_active ceiling
active_hosts v t = (
  if_cases (λ (x : AuthorizationStatus). hosts x.state ≡ true → InTime v t)
      (leb (ceiling v) t || ltb (t + clock_slack_ms) v.checked_at) (λ e h. absurd (false≢true h))
      (λ e h.
        let o = or_false (leb (ceiling v) t) (ltb (t + clock_slack_ms) v.checked_at) e in
        let a = leb→lt (ceiling v) t o.0 in
        (omega (arith, a), omega (arith, a), ground (arith, o.1))),
  λ (x, y, z).
      if_cases (λ (s : AuthorizationStatus). hosts s.state ≡ true)
        (leb (ceiling v) t || ltb (t + clock_slack_ms) v.checked_at)
        (λ e.
          absurd (elim (or_cases (leb (ceiling v) t) (ltb (t + clock_slack_ms) v.checked_at) e) [
            | inl l ↦ omega (arith, leb→le (ceiling v) t l, x, y)
            | inr l ↦ omega (arith, ltb→lt (t + clock_slack_ms) v.checked_at l, z)
          ]))
        (λ e. refl),
)

verdict_hosts :
    (v : InstallationVerdict) (k : VerdictStatus) (t : ℕ)
    → (hosts (status_verdict v k t).state ≡ true) ↔ ((k ≡ active_verdict) × InTime v t)
verdict_hosts v active_verdict t =
    (λ h. (refl, (active_hosts v t).0 h), λ h. (active_hosts v t).1 h.1)
verdict_hosts v blocked_verdict t = (λ h. absurd (false≢true h), λ h. cc)

cached_hosts :
    (c : Option (InstallationVerdict × String)) (t : ℕ)
    → (hosts (status_cached c t).state ≡ true) ↔ IsHosting c t
cached_hosts none t = (λ h. false≢true h, λ h. absurd h)
cached_hosts (some (v, s)) t = verdict_hosts v v.status t

-- With a service configured, an installation may host exactly on a cached answer that says active,
-- is still valid, is less than 30 days old and is dated at most a day ahead.
pub may_host_iff :
    (a : Authorization) (t : ℕ) → configured a ≡ true → (may_host a t ≡ true) ↔ IsHosting a.cached t
unfolding may_host status
may_host_iff a t e =
    subst⁻¹
      (λ b.
        (hosts (if b then status_cached a.cached t else unasked).state ≡ true)
        ↔ IsHosting a.cached t)
      e (cached_hosts a.cached t)
