-- ===== src/Limiter/History.antt =====
-- What holds of the limiter after any history of calls.
use hop_desk.JsMap
use hop_desk.Limiter.{
  step, run, settle, Attempt, AttemptLimiter, Call, LimiterPolicy, allocate, begin, begins,
  count_failure, decide, evict, find_record, new_limiter, prune, reset_for_new_code, resets,
  settle_found, settle_open, settles, touch,
}
use hop_desk.Limiter.Caps.{IsCounted, new_limiter-IsCounted, step-IsCounted}
use hop_desk.Limiter.Held.{IsHeld, step-IsHeld}
use hop_desk.Limiter.Links.{IsLinked, new_limiter-IsLinked, step-IsLinked}
use hop_desk.Common.{
  List, Option, Option-cases, String, [], arith, eq_iff, get_elem?, if◌then◌else◌, inl, inr, none,
  refl, some, str_eq, ℕ, ◌+◌, ◌∙◌, ◌∷◌, ◌≡◌, ◌≤◌, ap,
}
use hop_desk.Limiter.Counts.{open_at, open_in, weight}
use hop_desk.JsMap.{JsMap}

pub record IsSound (l : AttemptLimiter) : Type 0 where
  pub links : IsLinked l
  pub counts : IsCounted l
  pub held : IsHeld l.peers l.attempts

pub step-IsSound : (l : AttemptLimiter) (c : Call) → IsSound l → IsSound (step l c)
step-IsSound l c v = record {
  links = step-IsLinked l c v.links;
  counts = step-IsCounted l c v.links v.counts;
  held = step-IsHeld l c v.links v.counts v.held;
}

pub run-IsSound : (l : AttemptLimiter) (cs : List Call) → IsSound l → IsSound (run l cs)
unfolding run
run-IsSound l [] v = v
run-IsSound l (c ∷ cs) v = run-IsSound (step l c) cs (step-IsSound l c v)

pub new_limiter-IsSound : (policy : LimiterPolicy) → IsSound (new_limiter policy)
unfolding new_limiter
new_limiter-IsSound policy = record {
  links = new_limiter-IsLinked policy;
  counts = new_limiter-IsCounted policy;
  held = tt;
}

-- What a call leaves alone on its way to the decision.
pub record Same (l l' : AttemptLimiter) : Type 0 where
  pub policy : l'.policy ≡ l.policy
  pub pending : l'.pending ≡ l.pending
  pub since : l'.since_rotation ≡ l.since_rotation
  pub rotations : l'.rotations ≡ l.rotations
  pub attempts : l'.attempts ≡ l.attempts

evict-Same : (l : AttemptLimiter) → Same l (evict l)
unfolding evict
evict-Same l = ground arith

touch-Same :
    (l : AttemptLimiter) (peer : String) (t : ℕ) (o : Option ℕ) → Same l (touch l peer t o).0
unfolding touch allocate
touch-Same l peer t none =
    let e = evict-Same l in
    record {
      policy = e.policy;
      pending = e.pending;
      since = e.since;
      rotations = e.rotations;
      attempts = e.attempts;
    }
touch-Same l peer t (some r) = record {
  policy = refl;
  pending = refl;
  since = refl;
  rotations = refl;
  attempts = refl;
}

pub find_record-prune-Same :
    (l : AttemptLimiter) (peer : String) (t : ℕ) → Same l (find_record (prune l t) peer t).0
unfolding find_record prune
find_record-prune-Same l peer t =
    let e = touch-Same (prune l t) peer t (JsMap.get peer (prune l t).peers) in
    record {
      policy = e.policy;
      pending = e.pending;
      since = e.since;
      rotations = e.rotations;
      attempts = e.attempts;
    }

pub step-policy : (l : AttemptLimiter) (c : Call) → (step l c).policy ≡ l.policy
unfolding step begin decide settle settle_found settle_open count_failure reset_for_new_code
step-policy l (begins peer t) = ground (arith, (find_record-prune-Same l peer t).policy)
step-policy l (settles i success t t') = settled (get_elem? l.attempts i)
  where
    settled : (o : Option Attempt) → (settle_found l i o success t t').policy ≡ l.policy
    settled none = refl
    settled (some a) = ground arith
step-policy l resets = refl

pub run-policy : (l : AttemptLimiter) (cs : List Call) → (run l cs).policy ≡ l.policy
unfolding run
run-policy l [] = refl
run-policy l (c ∷ cs) = run-policy (step l c) cs ∙ step-policy l c

pub run-new_limiter-policy :
    (policy : LimiterPolicy) (cs : List Call) → (run (new_limiter policy) cs).policy ≡ policy
unfolding new_limiter
run-new_limiter-policy policy cs = run-policy (new_limiter policy) cs

-- The open attempts that a peer began.
pub open_of : String → List Attempt → ℕ
open_of p [] = 0
open_of p (a ∷ as') = (if str_eq a.owner p then weight a else 0) + open_of p as'

-- They are all at the one record that the map holds for the peer.
open_of-le-open_at :
    (m : JsMap ℕ) (p : String) (r : ℕ) (as' : List Attempt)
    → IsHeld m as'
    → JsMap.get p m ≡ some r
    → open_of p as' ≤ open_at r as'
unfolding open_of open_at
open_of-le-open_at m p r [] h e = omega arith
open_of-le-open_at m p r (a ∷ as') (here, h) e =
    ground (arith, open_of-le-open_at m p r as' h e, eq_iff a.owner p)

open_of-eq-zero :
    (m : JsMap ℕ) (p : String) (as' : List Attempt)
    → IsHeld m as'
    → JsMap.get p m ≡ none
    → open_of p as' ≡ 0
unfolding open_of
open_of-eq-zero m p [] h e = refl
open_of-eq-zero m p (a ∷ as') (here, h) e =
    ground (arith, open_of-eq-zero m p as' h e, eq_iff a.owner p)

open_of_capped :
    (l : AttemptLimiter) (p : String)
    → IsSound l
    → open_of p l.attempts ≤ l.policy.max_pending_per_peer
open_of_capped l p v = elim (Option-cases (JsMap.get p l.peers)) [
  | inl e ↦ omega (arith, open_of-eq-zero l.peers p l.attempts v.held e)
  | inr (r, e) ↦ omega (
    arith,
    open_of-le-open_at l.peers p r l.attempts v.held e,
    v.counts.own r,
    v.counts.peer_capped r,
  )
]

-- After any history of calls the attempts that are still open number at most `max_pending`, and
-- those that any one peer began at most `max_pending_per_peer`.
pub run_caps :
    (policy : LimiterPolicy) (cs : List Call) (p : String)
    → (open_in (run (new_limiter policy) cs).attempts ≤ policy.max_pending)
      × (open_of p (run (new_limiter policy) cs).attempts ≤ policy.max_pending_per_peer)
run_caps policy cs p =
    let v = run-IsSound (new_limiter policy) cs (new_limiter-IsSound policy) in
    omega (
      arith,
      ap (λ (q : LimiterPolicy). q.max_pending) (run-new_limiter-policy policy cs),
      ap (λ (q : LimiterPolicy). q.max_pending_per_peer) (run-new_limiter-policy policy cs),
      v.counts.counted,
      v.counts.capped,
      open_of_capped (run (new_limiter policy) cs) p v,
    )
