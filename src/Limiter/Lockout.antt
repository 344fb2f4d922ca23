-- ===== src/Limiter/Lockout.antt =====
-- What the failures of one peer cost it, and that they cost no other peer anything.
use hop_desk.JsMap
use hop_desk.Limiter.{
  settle, settle_found, Attempt, AttemptLimiter, LimiterPolicy, begin, count_failure, decide,
  find_record, forgettable, locked, lockout_ms, prune, punish, refused, settle_open, touch, settles,
  step, evict, allocate, run, Call, resets, begins, reset_for_new_code,
}
use hop_desk.Common.{
  Bool, String, arith, false, get_elem?, not, some, suc, ℕ, ◌+◌, ◌-◌, ◌<◌, ◌≡◌, ◌≢◌, ◌≤◌, inl, inr,
  List, Option, [], none, refl, true, zero, ◌∙◌, ◌∷◌, Bool-cases, get_elem?-set_self, set,
  Option-cases,
}
use hop_desk.Limiter.Links.{IsLinked}
use hop_desk.Limiter.History.{IsSound, step-IsSound, run-IsSound}
use hop_desk.JsMap.Laws.{get-keep}
use hop_desk.JsMap.{JsMap}
use hop_desk.Limiter.Held.{IsHeld}

-- The delay of a lockout never exceeds the policy's.
lockout_ms-le : (policy : LimiterPolicy) (n : ℕ) → lockout_ms policy n ≤ policy.max_lockout_ms
unfolding lockout_ms
lockout_ms-le policy n = omega arith

-- A locked peer's record survives the pruning, so the decision reads it.
prune_locked :
    (l : AttemptLimiter) (t r : ℕ) (p : String)
    → IsLinked l
    → JsMap.get p l.peers ≡ some r
    → t < (l.heap r).locked_until
    → JsMap.get p (prune l t).peers ≡ some r
unfolding prune forgettable
prune_locked l t r p links e h = ground (
  arith,
  get-keep (λ (key : String) (q : ℕ). not (forgettable l.policy t (l.heap q))) p l.peers links.keys,
)

-- A peer whose record is locked is refused for as long as it is.
begin_locked :
    (l : AttemptLimiter) (p : String) (t r : ℕ)
    → IsLinked l
    → JsMap.get p l.peers ≡ some r
    → t < (l.heap r).locked_until
    → (begin l p t).1 ≡ refused ((l.heap r).locked_until - t) locked
unfolding begin find_record touch prune decide
begin_locked l p t r links e h = rw (prune_locked l t r p links e h, touch, decide) (ground arith)

settle_fail_locked :
    (l : AttemptLimiter) (i : ℕ) (a : Attempt) (t t' : ℕ)
    → get_elem? l.attempts i ≡ some a
    → a.settled ≡ false
    → l.policy.free_failures ≤ suc (l.heap a.target).consecutive
    → t' + lockout_ms l.policy (suc (l.heap a.target).consecutive)
      ≤ ((settle l i false t t').heap a.target).locked_until
unfolding settle settle_found settle_open count_failure punish
settle_fail_locked l i a t t' e h f = rw (e, settle_found) (ground arith)

settle_kept :
    (l : AttemptLimiter) (i : ℕ) (s : Bool) (t t' : ℕ) (p : String)
    → JsMap.get p (settle l i s t t').peers ≡ JsMap.get p l.peers
unfolding settle settle_found settle_open count_failure
settle_kept l i s t t' p = ground arith

settle_heap_ne :
    (l : AttemptLimiter) (i : ℕ) (a : Attempt) (s : Bool) (t t' r : ℕ)
    → get_elem? l.attempts i ≡ some a
    → r ≢ a.target
    → (settle l i s t t').heap r ≡ l.heap r
unfolding settle settle_found settle_open count_failure
settle_heap_ne l i a s t t' r e ne = rw (e, settle_found) (ground arith)

IsHeld-get :
    (m : JsMap ℕ) (as' : List Attempt) (i : ℕ) (a : Attempt)
    → IsHeld m as'
    → get_elem? as' i ≡ some a
    → a.settled ≡ false
    → JsMap.get a.owner m ≡ some a.target
IsHeld-get m [] i a h e f = cc
IsHeld-get m (x ∷ as') zero a (here, h) e f = ground (arith, here (ground arith))
IsHeld-get m (x ∷ as') (suc i) a (here, h) e f = IsHeld-get m as' i a h e f

-- No call takes a lockout back.
abbrev IsLater : ℕ → AttemptLimiter → AttemptLimiter → Type 0
IsLater r l l' = (l.next ≤ l'.next) × ((l.heap r).locked_until ≤ (l'.heap r).locked_until)

find_record-IsLater :
    (l : AttemptLimiter) (p : String) (t r : ℕ) → r < l.next → IsLater r l (find_record l p t).0
unfolding find_record touch allocate evict
find_record-IsLater l p t r h = elim (Option-cases (JsMap.get p l.peers)) [
  | inl e ↦ rw (e, touch) (ground arith, ground arith)
  | inr (q, e) ↦ rw (e, touch) (ground arith, ground arith)
]

decide-IsLater : (l : AttemptLimiter) (p : String) (q t r : ℕ) → IsLater r l (decide l p q t).0
unfolding decide
decide-IsLater l p q t r = (ground arith, ground arith)

settle-IsLater :
    (l : AttemptLimiter) (i : ℕ) (o : Option Attempt) (s : Bool) (t t' r : ℕ)
    → IsLater r l (settle_found l i o s t t')
unfolding settle_found settle_open count_failure punish
settle-IsLater l i none s t t' r = (omega arith, omega arith)
settle-IsLater l i (some a) s t t' r = (ground arith, ground arith)

begin-IsLater :
    (l : AttemptLimiter) (p : String) (t r : ℕ) → r < l.next → IsLater r l (begin l p t).0
unfolding begin prune
begin-IsLater l p t r h =
    let found = find_record-IsLater (prune l t) p t r h in
    let (at_find, q) = find_record (prune l t) p t in
    let decided = decide-IsLater at_find p q t r in
    (omega (arith, found.0, decided.0), omega (arith, found.1, decided.1))

step-IsLater : (l : AttemptLimiter) (c : Call) (r : ℕ) → r < l.next → IsLater r l (step l c)
unfolding step settle reset_for_new_code
step-IsLater l (begins p t) r h = begin-IsLater l p t r h
step-IsLater l (settles i s t t') r h = settle-IsLater l i (get_elem? l.attempts i) s t t' r
step-IsLater l resets r h = (omega arith, omega arith)

run-IsLater : (l : AttemptLimiter) (cs : List Call) (r : ℕ) → r < l.next → IsLater r l (run l cs)
unfolding run
run-IsLater l [] r h = (omega arith, omega arith)
run-IsLater l (c ∷ cs) r h =
    let first = step-IsLater l c r h in
    let rest = run-IsLater (step l c) cs r (omega (arith, first.0, h)) in
    (omega (arith, first.0, rest.0), omega (arith, first.1, rest.1))

-- A peer fails, which makes `free_failures` failures in a row or more. After whatever calls come
-- next, of any peers, if the map still has the peer's record: a `begin` of the peer is refused as
-- locked at every time before the end of the lockout, and told to wait until then at least.
pub fail-begin_locked :
    (l : AttemptLimiter) (i : ℕ) (a : Attempt) (t t' now : ℕ) (cs : List Call)
    → IsSound l
    → get_elem? l.attempts i ≡ some a
    → a.settled ≡ false
    → l.policy.free_failures ≤ suc (l.heap a.target).consecutive
    → JsMap.get a.owner (run (settle l i false t t') cs).peers ≡ some a.target
    → now < t' + lockout_ms l.policy (suc (l.heap a.target).consecutive)
    → (wait : ℕ) × ((begin (run (settle l i false t t') cs) a.owner now).1 ≡ refused wait locked)
      × (t' + lockout_ms l.policy (suc (l.heap a.target).consecutive) ≤ now + wait)
fail-begin_locked l i a t t' now cs v e open' f there early =
    let failed = settle l i false t t' in
    let after = run failed cs in
    let v' : IsSound failed = unfold step in step-IsSound l (settles i false t t') v in
    let place =
      settle_kept l i false t t' a.owner ∙ IsHeld-get l.peers l.attempts i a v.held e open' in
    let later = settle_fail_locked l i a t t' e open' f in
    let kept = run-IsLater failed cs a.target (v'.links.placed a.owner a.target place) in
    (
      (after.heap a.target).locked_until - now,
      begin_locked after a.owner now a.target (run-IsSound failed cs v').links there
          (omega (arith, later, kept.1, early)),
      omega (arith, later, kept.1, early),
    )

-- An attempt that has settled, or never was.
abbrev IsClosed : Option Attempt → Type 0
IsClosed none = Unit {0}
IsClosed (some a) = a.settled ≡ true

settle_closed :
    (l : AttemptLimiter) (i : ℕ) (s : Bool) (t t' : ℕ)
    → IsClosed (get_elem? l.attempts i)
    → settle l i s t t' ≡ l
unfolding settle settle_found
settle_closed l i s t t' h = closed (get_elem? l.attempts i) h
  where
    closed : (o : Option Attempt) → IsClosed o → settle_found l i o s t t' ≡ l
    closed none h = refl
    closed (some a) h = rw h

settle_open-attempts :
    (l : AttemptLimiter) (i : ℕ) (a : Attempt) (s : Bool) (t t' : ℕ)
    → (settle_open l i a s t t').attempts ≡ set l.attempts i (record a { settled = true })
unfolding settle_open count_failure
settle_open-attempts l i a s t t' = ground arith

settle_found-IsClosed :
    (l : AttemptLimiter) (i : ℕ) (o : Option Attempt) (s : Bool) (t t' : ℕ)
    → get_elem? l.attempts i ≡ o
    → IsClosed (get_elem? (settle_found l i o s t t').attempts i)
unfolding settle_found
settle_found-IsClosed l i none s t t' e = rw e tt
settle_found-IsClosed l i (some a) s t t' e = elim (Bool-cases a.settled) [
  | inl old ↦ simp (old, e)
  | inr new ↦
      simp (new, settle_open-attempts l i a s t t')
        (simp (get_elem?-set_self l.attempts i a (record a { settled = true }) e) refl)
]

settle-IsClosed :
    (l : AttemptLimiter) (i : ℕ) (s : Bool) (t t' : ℕ)
    → IsClosed (get_elem? (settle l i s t t').attempts i)
unfolding settle
settle-IsClosed l i s t t' = settle_found-IsClosed l i (get_elem? l.attempts i) s t t' refl

-- Settling an open attempt leaves the record of every other peer as it is, and in its place.
pub settle_isolated :
    (l : AttemptLimiter) (i : ℕ) (a : Attempt) (s : Bool) (t t' : ℕ) (p : String) (r : ℕ)
    → IsSound l
    → get_elem? l.attempts i ≡ some a
    → a.settled ≡ false
    → p ≢ a.owner
    → JsMap.get p l.peers ≡ some r
    → (JsMap.get p (settle l i s t t').peers ≡ some r) × ((settle l i s t t').heap r ≡ l.heap r)
settle_isolated l i a s t t' p r v e h ne at_p = (
  settle_kept l i s t t' p ∙ at_p,
  settle_heap_ne l i a s t t' r e (λ same.
      ne (v.links.one p a.owner r at_p (rw same (IsHeld-get l.peers l.attempts i a v.held e h)))),
)
