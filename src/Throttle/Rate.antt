-- ===== src/Throttle/Rate.antt =====
-- How many attempts of one peer pass in an interval of the length of a window.
use hop_desk.JsMap
use hop_desk.Throttle.{run, Window, PeerThrottle, ThrottlePolicy, allow, new_throttle}
use hop_desk.Throttle.Windows.{
  IsSound, allow-IsSound, run-IsSound, allow-policy, allow_other, allow_own, is_allowed, IsOver,
  allow_new, run-policy,
}
use hop_desk.Common.{
  Bool-cases, List, String, [], ap, arith, eq_iff, if◌then◌else◌, inl, inr, some, str_eq, subst,
  suc, ℕ, ◌+◌, ◌-◌, ◌<◌, ◌∙◌, ◌∷◌, ◌≡◌, ◌≤◌, Option, none, Option-cases, ltb, ltb→lt, ◌*◌,
}
use hop_desk.JsMap.{JsMap}

-- The attempts of one peer that a history lets through.
unfoldable pub passes : String → PeerThrottle → List (String × ℕ) → ℕ
passes p s [] = 0
passes p s ((peer, t) ∷ cs) =
    (if str_eq peer p then is_allowed (allow s peer t).1 else 0) + passes p (allow s peer t).0 cs

-- Every time of the history lies in the interval from `t` up to, and without, `u`.
abbrev pub Within : ℕ → ℕ → List (String × ℕ) → Type 0
Within t u [] = Unit {0}
Within t u ((peer, now) ∷ cs) = (t ≤ now) × (now < u) × Within t u cs

-- The policy of a throttle, in its two numbers.
record HasPolicy (k len : ℕ) (s : PeerThrottle) : Type 0 where
  per : s.policy.per_window ≡ k
  length_ms : s.policy.window_ms ≡ len

allow-HasPolicy :
    (k len : ℕ) (s : PeerThrottle) (peer : String) (t : ℕ)
    → HasPolicy k len s
    → HasPolicy k len (allow s peer t).0
allow-HasPolicy k len s peer t h =
    let e = allow-policy s peer t in
    record {
      per = ap (λ (q : ThrottlePolicy). q.per_window) e ∙ h.per;
      length_ms = ap (λ (q : ThrottlePolicy). q.window_ms) e ∙ h.length_ms;
    }

module _ (p : String) (k len t : ℕ) where
  -- While a window outlives the interval, what it has left bounds what passes.
  passes_in_window :
      (s : PeerThrottle) (cs : List (String × ℕ)) (w : Window)
      → IsSound s
      → HasPolicy k len s
      → Within t (t + len) cs
      → t + len ≤ w.until
      → JsMap.get p s.windows ≡ some w
      → passes p s cs ≤ k - w.count
  unfolding passes
  passes_in_window s [] w v pol within h e = omega arith
  passes_in_window s ((peer, now) ∷ cs) w v pol (from, to, within) h e =
      let v' = allow-IsSound s peer now v in
      let pol' = allow-HasPolicy k len s peer now pol in
      elim (Bool-cases (str_eq peer p)) [
        | inl same ↦
            let own = allow_own s peer now w v.keys (omega arith) (rw ((eq_iff peer p).0 same) e) in
            let rest =
              passes_in_window (allow s peer now).0 cs (record w { count = suc w.count }) v' pol'
                within h
                (subst
                  (λ (q : String).
                    JsMap.get q (allow s peer now).0.windows
                    ≡ some (record w { count = suc w.count }))
                  ((eq_iff peer p).0 same) own.1) in
            rw same (omega (arith, pol.per))
        | inr other ↦
            let kept = allow_other s p peer now v.keys (λ q. cc ((eq_iff peer p).1 q)) in
            let rest =
              passes_in_window (allow s peer now).0 cs w v' pol' within h (ground (arith, kept)) in
            rw other (omega arith)
      ]

  -- An attempt of the peer with no window to go on: it opens one, or there is no room for one.
  opened :
      (s : PeerThrottle) (peer : String) (now : ℕ) (cs : List (String × ℕ))
      → IsSound s
      → HasPolicy k len s
      → t ≤ now
      → Within t (t + len) cs
      → peer ≡ p
      → IsOver now (JsMap.get p s.windows)
      → (JsMap.get p (allow s peer now).0.windows ≡ none → passes p (allow s peer now).0 cs ≤ k)
      → is_allowed (allow s peer now).1 + passes p (allow s peer now).0 cs ≤ k
  opened s peer now cs v pol from within same over rest =
      let at_p = λ (o : Option Window). λ (e : JsMap.get peer (allow s peer now).0.windows ≡ o).
        subst (λ (q : String). JsMap.get q (allow s peer now).0.windows ≡ o) same e in
      elim (allow_new s peer now v.keys (rw same over)) [
        | inl (zero_passes, gone) ↦ omega (arith, rest (at_p none gone))
        | inr (one_passes, fresh) ↦
            let w : Window = record { count = 1; until = now + s.policy.window_ms } in
            omega (
              arith,
              pol.per,
              pol.length_ms,
              passes_in_window (allow s peer now).0 cs w (allow-IsSound s peer now v)
                  (allow-HasPolicy k len s peer now pol) within (omega (arith, pol.length_ms))
                  (at_p (some w) fresh),
            )
      ]

  -- Where the peer has no window, the first attempt opens one that outlives the interval.
  passes_from_none :
      (s : PeerThrottle) (cs : List (String × ℕ))
      → IsSound s
      → HasPolicy k len s
      → Within t (t + len) cs
      → JsMap.get p s.windows ≡ none
      → passes p s cs ≤ k
  unfolding passes
  passes_from_none s [] v pol within e = omega arith
  passes_from_none s ((peer, now) ∷ cs) v pol (from, to, within) e =
      let v' = allow-IsSound s peer now v in
      let pol' = allow-HasPolicy k len s peer now pol in
      elim (Bool-cases (str_eq peer p)) [
        | inl same ↦ rw same (
            opened s peer now cs v pol from within ((eq_iff peer p).0 same) (rw e tt)
              (passes_from_none (allow s peer now).0 cs v' pol' within))
        | inr other ↦
            let kept = allow_other s p peer now v.keys (λ q. cc ((eq_iff peer p).1 q)) in
            let rest =
              passes_from_none (allow s peer now).0 cs v' pol' within (ground (arith, kept)) in
            rw other (omega arith)
      ]

  -- A window that is there at the start has at most so much left, and one more can follow it.
  passes_from_some :
      (s : PeerThrottle) (cs : List (String × ℕ)) (w : Window)
      → IsSound s
      → HasPolicy k len s
      → Within t (t + len) cs
      → JsMap.get p s.windows ≡ some w
      → passes p s cs ≤ k + (k - w.count)
  unfolding passes
  passes_from_some s [] w v pol within e = omega arith
  passes_from_some s ((peer, now) ∷ cs) w v pol (from, to, within) e =
      let v' = allow-IsSound s peer now v in
      let pol' = allow-HasPolicy k len s peer now pol in
      elim (Bool-cases (str_eq peer p)) [
        | inl same ↦
            let q = (eq_iff peer p).0 same in
            elim (Bool-cases (ltb now w.until)) [
              | inl early ↦
                  let own = allow_own s peer now w v.keys (ltb→lt _ _ early) (rw q e) in
                  let at_p =
                    subst
                      (λ (q : String).
                        JsMap.get q (allow s peer now).0.windows
                        ≡ some (record w { count = suc w.count }))
                      q own.1 in
                  let rest =
                    passes_from_some (allow s peer now).0 cs (record w { count = suc w.count }) v'
                      pol' within at_p in
                  rw same (omega (arith, pol.per))
              | inr over ↦
                  let rest =
                    opened s peer now cs v pol from within q (rw e (ground arith))
                      (passes_from_none (allow s peer now).0 cs v' pol' within) in
                  rw same (omega arith)
            ]
        | inr other ↦
            let kept = allow_other s p peer now v.keys (λ q. cc ((eq_iff peer p).1 q)) in
            elim (Bool-cases (ltb now w.until)) [
              | inl early ↦
                  let rest =
                    passes_from_some (allow s peer now).0 cs w v' pol' within
                      (ground (arith, kept)) in
                  rw other (omega arith)
              | inr over ↦
                  let rest =
                    passes_from_none (allow s peer now).0 cs v' pol' within
                      (ground (arith, kept)) in
                  rw other (omega arith)
            ]
      ]

new_throttle-IsSound : (policy : ThrottlePolicy) → IsSound (new_throttle policy)
unfolding new_throttle
new_throttle-IsSound policy = record { keys = tt; room = omega arith }

run-HasPolicy :
    (policy : ThrottlePolicy) (history : List (String × ℕ))
    → HasPolicy policy.per_window policy.window_ms (run (new_throttle policy) history)
unfolding new_throttle
run-HasPolicy policy history =
    let e = run-policy (new_throttle policy) history in
    record {
      per = ap (λ (q : ThrottlePolicy). q.per_window) e;
      length_ms = ap (λ (q : ThrottlePolicy). q.window_ms) e;
    }

-- After any history, at most twice `per_window` attempts of one peer pass in an interval of the
-- length `window_ms`, and at most `per_window` if the peer has no window when it begins.
pub throttle_rate :
    (policy : ThrottlePolicy) (history : List (String × ℕ)) (p : String) (t : ℕ)
    (cs : List (String × ℕ))
    → Within t (t + policy.window_ms) cs
    → (passes p (run (new_throttle policy) history) cs ≤ 2 * policy.per_window)
      × (JsMap.get p (run (new_throttle policy) history).windows ≡ none
          → passes p (run (new_throttle policy) history) cs ≤ policy.per_window)
throttle_rate policy history p t cs within =
    let s = run (new_throttle policy) history in
    let v = run-IsSound (new_throttle policy) history (new_throttle-IsSound policy) in
    let pol = run-HasPolicy policy history in
    let from_none = passes_from_none p policy.per_window policy.window_ms t s cs v pol within in
    (
      elim (Option-cases (JsMap.get p s.windows)) [
        | inl e ↦ omega (arith, from_none e)
        | inr (w, e) ↦
            omega
              (arith, passes_from_some p policy.per_window policy.window_ms t s cs w v pol within e)
      ],
      from_none,
    )
