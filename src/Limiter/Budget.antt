-- ===== src/Limiter/Budget.antt =====
-- How many guesses the limiter lets through: an account of the attempts that it grants.
use hop_desk.Limiter.{
  step, run, settle, Attempt, AttemptDecision, AttemptLimiter, Call, begin, begins, count_failure,
  decide, find_record, granted, prune, refused, resets, settles, LimiterPolicy, new_limiter,
  reset_for_new_code, settle_found, settle_open,
}
use hop_desk.Common.{
  Bool, List, Option, String, [], arith, get_elem?, if◌then◌else◌, none, some, ℕ, ◌*◌, ◌+◌, ◌<◌,
  ◌∷◌, ◌≡◌, ap, refl, ◌≤◌, Bool-cases, false, inl, inr, leb, leb→le, suc, true, ◌∙◌,
}
use hop_desk.Limiter.History.{
  find_record-prune-Same, IsSound, Same, step-IsSound, step-policy, new_limiter-IsSound,
  run-IsSound, run-new_limiter-policy,
}
use hop_desk.Limiter.Caps.{IsCounted}
use hop_desk.Limiter.Counts.{open_in-set}

-- Whether a decision lets a guess through.
unfoldable pub guess : AttemptDecision → ℕ
guess (granted attempt) = 1
guess (refused retry_after_ms reason) = 0

-- Whether settling this attempt is a success that still counts.
win : Option Attempt → Bool → ℕ
win none success = 0
win (some a) success = if a.settled then 0 else if success then 1 else 0

granted_by : AttemptLimiter → Call → ℕ
granted_by l (begins peer t) = guess (begin l peer t).1
granted_by l c = 0

won_by : AttemptLimiter → Call → ℕ
won_by l (settles i success t t') = win (get_elem? l.attempts i) success
won_by l c = 0

reset_by : Call → ℕ
reset_by resets = 1
reset_by c = 0

-- The attempts granted along a history, those of them that succeeded, and the codes made by hand.
unfoldable pub grants : AttemptLimiter → List Call → ℕ
unfolding granted_by guess
grants l [] = 0
grants l (c ∷ cs) = granted_by l c + grants (step l c) cs

pub wins : AttemptLimiter → List Call → ℕ
wins l [] = 0
wins l (c ∷ cs) = won_by l c + wins (step l c) cs

pub codes_by_hand : List Call → ℕ
codes_by_hand [] = 0
codes_by_hand (c ∷ cs) = reset_by c + codes_by_hand cs

-- Guesses in flight or counted against the code, and `k` for each code that was replaced.
abbrev spent : ℕ → AttemptLimiter → ℕ
spent k l = l.pending + l.since_rotation + k * l.rotations

-- The counter stands below the `k` failures at which it starts again.
record IsCounting (k : ℕ) (l : AttemptLimiter) : Type 0 where
  limit : l.policy.rotate_after ≡ k
  short : l.since_rotation < k

Same-spent : (k : ℕ) (l l' : AttemptLimiter) → Same l l' → spent k l' ≡ spent k l
Same-spent k l l' same = cc

decide-spent :
    (k : ℕ) (l : AttemptLimiter) (peer : String) (r t : ℕ)
    → (guess (decide l peer r t).1 + spent k l ≡ spent k (decide l peer r t).0)
      × ((decide l peer r t).0.since_rotation ≡ l.since_rotation)
unfolding decide guess
decide-spent k l peer r t = (ground arith, ground arith)

begin-spent :
    (k : ℕ) (l : AttemptLimiter) (peer : String) (t : ℕ)
    → (guess (begin l peer t).1 + spent k l ≡ spent k (begin l peer t).0)
      × ((begin l peer t).0.since_rotation ≡ l.since_rotation)
unfolding begin
begin-spent k l peer t =
    let same = find_record-prune-Same l peer t in
    let found = find_record (prune l t) peer t in
    let d = decide-spent k found.0 peer found.1 t in
    (omega (arith, Same-spent k l found.0 same), omega (arith, same.since))

count_failure-spent :
    (k : ℕ) (l : AttemptLimiter)
    → IsCounting k l
    → (spent k (count_failure l) ≡ spent k l + 1) × ((count_failure l).since_rotation < k)
unfolding count_failure
count_failure-spent k l h = elim (Bool-cases (leb l.policy.rotate_after (suc l.since_rotation))) [
  | inl full ↦
      let e = leb→le _ _ full in simp full (omega (arith, h.limit, h.short), omega (arith, h.short))
  | inr part ↦ simp part (omega arith, ground (arith, h.limit))
]

settle_open-spent :
    (k : ℕ) (l : AttemptLimiter) (i : ℕ) (a : Attempt) (success : Bool) (t t' : ℕ)
    → 0 < l.pending
    → IsCounting k l
    → (spent k l ≡ (if success then 1 else 0) + spent k (settle_open l i a success t t'))
      × ((settle_open l i a success t t').since_rotation < k)
unfolding settle_open
settle_open-spent k l i a true t t' p h = (omega arith, h.short)
settle_open-spent k l i a false t t' p h =
    let (e, f) = count_failure-spent k _ (record { limit = h.limit; short = h.short }) in
    (omega arith, f)

settle_found-spent :
    (k : ℕ) (l : AttemptLimiter) (i : ℕ) (o : Option Attempt) (success : Bool) (t t' : ℕ)
    → get_elem? l.attempts i ≡ o
    → IsCounted l
    → IsCounting k l
    → (spent k l ≡ win o success + spent k (settle_found l i o success t t'))
      × ((settle_found l i o success t t').since_rotation < k)
unfolding settle_found win
settle_found-spent k l i none success t t' e v h = (omega arith, h.short)
settle_found-spent k l i (some a) success t t' e v h = elim (Bool-cases a.settled) [
  | inl old ↦ simp old (omega arith, h.short)
  | inr new ↦ simp new (
      settle_open-spent k l i a success t t'
        (omega (arith, v.counted, open_in-set l.attempts i a e new)) h)
]

step_limit :
    (k : ℕ) (l : AttemptLimiter) (c : Call) → IsCounting k l → (step l c).policy.rotate_after ≡ k
step_limit k l c h = ap (λ (q : LimiterPolicy). q.rotate_after) (step-policy l c) ∙ h.limit

-- One call: a guess that is granted is spent, and one that fails is spent already.
step-spent :
    (k : ℕ) (l : AttemptLimiter) (c : Call)
    → IsCounted l
    → IsCounting k l
    → (granted_by l c + spent k l ≤ won_by l c + spent k (step l c) + k * reset_by c)
      × IsCounting k (step l c)
unfolding step granted_by won_by reset_by settle reset_for_new_code
step-spent k l (begins peer t) v h =
    let (e, f) = begin-spent k l peer t in
    (
      omega arith,
      record { limit = step_limit k l (begins peer t) h; short = omega (arith, h.short) },
    )
step-spent k l (settles i success t t') v h =
    let (e, f) = settle_found-spent k l i (get_elem? l.attempts i) success t t' refl v h in
    (omega arith, record { limit = step_limit k l (settles i success t t') h; short = f })
step-spent k l resets v h =
    (omega (arith, h.short), record { limit = h.limit; short = omega (arith, h.short) })

run-spent :
    (k : ℕ) (l : AttemptLimiter) (cs : List Call)
    → IsSound l
    → IsCounting k l
    → (grants l cs + spent k l ≤ wins l cs + spent k (run l cs) + k * codes_by_hand cs)
      × IsCounting k (run l cs)
unfolding run grants wins codes_by_hand
run-spent k l [] v h = (omega arith, h)
run-spent k l (c ∷ cs) v h =
    let (here, h') = step-spent k l c v.counts h in
    let (later, h'') = run-spent k (step l c) cs (step-IsSound l c v) h' in (omega arith, h'')

new_limiter-IsCounting :
    (policy : LimiterPolicy)
    → 0 < policy.rotate_after
    → IsCounting policy.rotate_after (new_limiter policy)
unfolding new_limiter
new_limiter-IsCounting policy h = record { limit = refl; short = h }

-- Along any history the guesses that were let through and did not succeed, failed or still in
-- flight, are fewer than `rotate_after` for each code there was (the first, those made by
-- rotation and those made by hand) and `max_pending` more.
pub guess_budget :
    (policy : LimiterPolicy) (cs : List Call)
    → 0 < policy.rotate_after
    → grants (new_limiter policy) cs
      < wins (new_limiter policy) cs
        + policy.rotate_after * ((run (new_limiter policy) cs).rotations + codes_by_hand cs + 1)
        + policy.max_pending
guess_budget policy cs h =
    let sound = new_limiter-IsSound policy in
    let (account, counting) =
      run-spent policy.rotate_after (new_limiter policy) cs sound
        (new_limiter-IsCounting policy h) in
    let counts = (run-IsSound (new_limiter policy) cs sound).counts in
    omega (
      arith,
      counting.short,
      counts.capped,
      ap (λ (q : LimiterPolicy). q.max_pending) (run-new_limiter-policy policy cs),
    )
