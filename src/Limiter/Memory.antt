-- ===== src/Limiter/Memory.antt =====
use hop_desk.Limiter.Room.{hits-le-one, sum_open-le, size-le-sum_open, oldest_from-none}
use hop_desk.JsMap
use hop_desk.Limiter.{
  Attempt, AttemptLimiter, evict, oldest_from, Call, LimiterPolicy, allocate, begin, begins,
  count_failure, decide, find_record, forgettable, new_limiter, prune, reset_for_new_code, resets,
  run, settle, settle_found, settle_open, settles, step, touch,
}
use hop_desk.Common.{
  List, String, [], arith, inl, inr, refl, some, ℕ, ◌∷◌, ◌≡◌, ◌≤◌, ap, Option, none, ◌<◌, Bool,
  get_elem?, not,
}
use hop_desk.Limiter.Held.{oldest_from-Idle, prune-IsHeld}
use hop_desk.JsMap.Laws.{size-delete, size-keep-le, size-set}
use hop_desk.JsMap.{JsMap}
use hop_desk.Limiter.History.{IsSound, new_limiter-IsSound, step-IsSound, step-policy}
use hop_desk.Limiter.Caps.{prune-IsCounted}
use hop_desk.Limiter.Links.{prune-IsLinked}

-- The limiter remembers at most `max_peers` peers.

-- Once there is a cap on the attempts in flight below the size of the map, eviction makes room.
evict_makes_room :
    (l : AttemptLimiter)
    → IsSound l
    → l.policy.max_pending < l.policy.max_peers
    → JsMap.size l.peers ≤ l.policy.max_peers
    → JsMap.size (evict l).peers < l.policy.max_peers
unfolding evict
evict_makes_room l v small h = made (oldest_from l.heap none l.peers) refl
  where
    working : oldest_from l.heap none l.peers ≡ none → JsMap.size l.peers ≤ l.policy.max_pending
    working e = omega (
      arith,
      size-le-sum_open l.heap l.attempts l.peers v.counts.own
          (λ k. oldest_from-none l.heap none l.peers k e) v.links.keys,
      sum_open-le l.peers l.attempts
          (λ r. hits-le-one l.peers r v.links.keys (λ j k. v.links.one j k r)),
      v.counts.counted,
      v.counts.capped,
    )

    made :
        (o : Option (String × ℕ))
        → oldest_from l.heap none l.peers ≡ o
        → JsMap.size (evict l).peers < l.policy.max_peers
    made none e = ground (arith, working e)
    made (some (k, s)) e = elim (oldest_from-Idle l.heap none l.peers k s v.links.keys e) [
      | inl wrong ↦ cc
      | inr (r, at_r, z) ↦ ground (arith, size-delete k r l.peers at_r)
    ]

prune-IsSound : (l : AttemptLimiter) (t : ℕ) → IsSound l → IsSound (prune l t)
prune-IsSound l t v = record {
  links = prune-IsLinked l t v.links;
  counts = prune-IsCounted l t v.counts;
  held = prune-IsHeld l t v.links v.counts v.held;
}

touch-size :
    (l : AttemptLimiter) (peer : String) (t : ℕ) (o : Option ℕ)
    → IsSound l
    → l.policy.max_pending < l.policy.max_peers
    → JsMap.size l.peers ≤ l.policy.max_peers
    → JsMap.size (touch l peer t o).0.peers ≤ l.policy.max_peers
unfolding touch allocate
touch-size l peer t none v small h =
    ground (arith, evict_makes_room l v small h, size-set peer (evict l).next (evict l).peers)
touch-size l peer t (some r) v small h = h

decide-size :
    (l : AttemptLimiter) (peer : String) (r t : ℕ)
    → JsMap.size (decide l peer r t).0.peers ≡ JsMap.size l.peers
unfolding decide
decide-size l peer r t = ground arith

begin-size :
    (l : AttemptLimiter) (peer : String) (t : ℕ)
    → IsSound l
    → l.policy.max_pending < l.policy.max_peers
    → JsMap.size l.peers ≤ l.policy.max_peers
    → JsMap.size (begin l peer t).0.peers ≤ l.policy.max_peers
unfolding begin find_record prune
begin-size l peer t v small h =
    let pruned = size-keep-le (λ key r. not (forgettable l.policy t (l.heap r))) l.peers in
    omega (
      arith,
      decide-size (find_record (prune l t) peer t).0 peer (find_record (prune l t) peer t).1 t,
      touch-size (prune l t) peer t (JsMap.get peer (prune l t).peers) (prune-IsSound l t v) small
          (omega arith),
    )

settle_size :
    (l : AttemptLimiter) (i : ℕ) (o : Option Attempt) (s : Bool) (t t' : ℕ)
    → (settle_found l i o s t t').peers ≡ l.peers
unfolding settle_found settle_open count_failure
settle_size l i none s t t' = refl
settle_size l i (some a) s t t' = ground arith

step-size :
    (l : AttemptLimiter) (c : Call)
    → IsSound l
    → l.policy.max_pending < l.policy.max_peers
    → JsMap.size l.peers ≤ l.policy.max_peers
    → JsMap.size (step l c).peers ≤ l.policy.max_peers
unfolding step settle reset_for_new_code
step-size l (begins peer t) v small h = begin-size l peer t v small h
step-size l (settles i s t t') v small h = rw (settle_size l i (get_elem? l.attempts i) s t t') h
step-size l resets v small h = h

run-size :
    (l : AttemptLimiter) (cs : List Call)
    → IsSound l
    → l.policy.max_pending < l.policy.max_peers
    → JsMap.size l.peers ≤ l.policy.max_peers
    → JsMap.size (run l cs).peers ≤ l.policy.max_peers
unfolding run
run-size l [] v small h = h
run-size l (c ∷ cs) v small h =
    let p = step-policy l c in
    let peers = ap (λ (q : LimiterPolicy). q.max_peers) p in
    let cap = ap (λ (q : LimiterPolicy). q.max_pending) p in
    omega (
      arith,
      step-size l c v small h,
      run-size (step l c) cs (step-IsSound l c v) (omega arith)
          (omega (arith, step-size l c v small h)),
    )

-- If the policy allows fewer attempts in flight than peers, then after any history of calls the
-- limiter tracks at most `max_peers` peers.
pub run_tracked_peers :
    (policy : LimiterPolicy) (cs : List Call)
    → policy.max_pending < policy.max_peers
    → JsMap.size (run (new_limiter policy) cs).peers ≤ policy.max_peers
unfolding new_limiter
run_tracked_peers policy cs h =
    run-size (new_limiter policy) cs (new_limiter-IsSound policy) h (omega arith)
