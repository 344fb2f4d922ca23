-- ===== src/Limiter/Caps.antt =====
-- The caps on the attempts in flight: the limiter's counters are the numbers of open attempts.
use hop_desk.Common.{
  ℕ, ◌≤◌, ◌<◌, ◌≡◌, refl, String, Bool, false, Option, none, some, arith, get_elem?, inl, inr,
  Bool-cases,
}
use hop_desk.JsMap
use hop_desk.Limiter.{
  AttemptLimiter, LimiterPolicy, Attempt, Call, begins, settles, resets, new_limiter, prune, evict,
  allocate, touch, find_record, decide, begin, punish, count_failure, settle_open, settle_found,
  settle, reset_for_new_code, step,
}
use hop_desk.Limiter.Links.{IsLinked, prune-IsLinked, find_record-IsLinked, get-find_record}
use hop_desk.Limiter.Counts.{
  open_in, open_at, open_in-nil, open_at-nil, open_in-append, open_at-append, open_in-set,
  open_at-set,
}
use hop_desk.JsMap.{JsMap}

pub record IsCounted (l : AttemptLimiter) : Type 0 where
  pub counted : l.pending ≡ open_in l.attempts
  pub own : (r : ℕ) → (l.heap r).pending ≡ open_at r l.attempts
  pub fresh : (r : ℕ) → l.next ≤ r → open_at r l.attempts ≡ 0
  pub capped : l.pending ≤ l.policy.max_pending
  pub peer_capped : (r : ℕ) → (l.heap r).pending ≤ l.policy.max_pending_per_peer

pub new_limiter-IsCounted : (policy : LimiterPolicy) → IsCounted (new_limiter policy)
unfolding new_limiter
new_limiter-IsCounted policy = record {
  counted = omega (arith, open_in-nil);
  own = λ r. omega (arith, open_at-nil r);
  fresh = λ r _. open_at-nil r;
  capped = omega arith;
  peer_capped = λ r. omega arith;
}

pub prune-IsCounted : (l : AttemptLimiter) (t : ℕ) → IsCounted l → IsCounted (prune l t)
unfolding prune
prune-IsCounted l t v = record {
  counted = v.counted;
  own = v.own;
  fresh = v.fresh;
  capped = v.capped;
  peer_capped = v.peer_capped;
}

evict-IsCounted : (l : AttemptLimiter) → IsCounted l → IsCounted (evict l)
unfolding evict
evict-IsCounted l v = record {
  counted = ground (arith, v.counted);
  own = λ r. ground (arith, v.own r);
  fresh = λ r h. ground (arith, v.fresh r);
  capped = ground (arith, v.capped);
  peer_capped = λ r. ground (arith, v.peer_capped r);
}

allocate-IsCounted :
    (l : AttemptLimiter) (peer : String) (t : ℕ) → IsCounted l → IsCounted (allocate l peer t).0
unfolding allocate
allocate-IsCounted l peer t v = record {
  counted = v.counted;
  own = λ r. ground (arith, v.own r, v.fresh r);
  fresh = λ r h. ground (arith, v.fresh r);
  capped = v.capped;
  peer_capped = λ r. ground (arith, v.peer_capped r);
}

touch-IsCounted :
    (l : AttemptLimiter) (peer : String) (t : ℕ) (found : Option ℕ)
    → IsCounted l
    → IsCounted (touch l peer t found).0
unfolding touch
touch-IsCounted l peer t none v = allocate-IsCounted (evict l) peer t (evict-IsCounted l v)
touch-IsCounted l peer t (some r) v = record {
  counted = v.counted;
  own = λ q. ground (arith, v.own q);
  fresh = v.fresh;
  capped = v.capped;
  peer_capped = λ q. ground (arith, v.peer_capped q);
}

find_record-IsCounted :
    (l : AttemptLimiter) (peer : String) (t : ℕ) → IsCounted l → IsCounted (find_record l peer t).0
unfolding find_record
find_record-IsCounted l peer t v = touch-IsCounted l peer t (JsMap.get peer l.peers) v

decide-IsCounted :
    (l : AttemptLimiter) (peer : String) (r t : ℕ)
    → r < l.next
    → IsCounted l
    → IsCounted (decide l peer r t).0
unfolding decide
decide-IsCounted l peer r t h v = record {
  counted = ground (
    arith,
    v.counted,
    open_in-append l.attempts (record { owner = peer; target = r; settled = false }),
  );
  own = λ q. ground (
    arith,
    v.own q,
    open_at-append q l.attempts (record { owner = peer; target = r; settled = false }),
  );
  fresh = λ q below. ground (
    arith,
    v.fresh q,
    open_at-append q l.attempts (record { owner = peer; target = r; settled = false }),
  );
  capped = ground (arith, v.capped);
  peer_capped = λ q. ground (arith, v.peer_capped q);
}

begin-IsCounted :
    (l : AttemptLimiter) (peer : String) (t : ℕ)
    → IsLinked l
    → IsCounted l
    → IsCounted (begin l peer t).0
unfolding begin
begin-IsCounted l peer t links v =
    decide-IsCounted (find_record (prune l t) peer t).0 peer _ t
      ((find_record-IsLinked (prune l t) peer t (prune-IsLinked l t links)).placed peer _
        (get-find_record (prune l t) peer t))
      (find_record-IsCounted (prune l t) peer t (prune-IsCounted l t v))

settle_open-IsCounted :
    (l : AttemptLimiter) (i : ℕ) (a : Attempt) (success : Bool) (t t' : ℕ)
    → get_elem? l.attempts i ≡ some a
    → a.settled ≡ false
    → IsCounted l
    → IsCounted (settle_open l i a success t t')
unfolding settle_open count_failure punish
settle_open-IsCounted l i a success t t' e h v = record {
  counted = ground (arith, v.counted, open_in-set l.attempts i a e h);
  own = λ q. ground (arith, v.own q, open_at-set q l.attempts i a e h);
  fresh = λ q below. ground (arith, v.fresh q, open_at-set q l.attempts i a e h);
  capped = ground (arith, v.capped);
  peer_capped = λ q. ground (arith, v.peer_capped q);
}

settle_found-IsCounted :
    (l : AttemptLimiter) (i : ℕ) (o : Option Attempt) (success : Bool) (t t' : ℕ)
    → get_elem? l.attempts i ≡ o
    → IsCounted l
    → IsCounted (settle_found l i o success t t')
unfolding settle_found
settle_found-IsCounted l i none success t t' e v = v
settle_found-IsCounted l i (some a) success t t' e v = elim (Bool-cases a.settled) [
  | inl old ↦ rw old v
  | inr new ↦ simp new (settle_open-IsCounted l i a success t t' e new v)
]

pub step-IsCounted :
    (l : AttemptLimiter) (c : Call) → IsLinked l → IsCounted l → IsCounted (step l c)
unfolding step settle reset_for_new_code
step-IsCounted l (begins peer t) links v = begin-IsCounted l peer t links v
step-IsCounted l (settles i success t t') links v =
    settle_found-IsCounted l i (get_elem? l.attempts i) success t t' refl v
step-IsCounted l resets links v = record {
  counted = v.counted;
  own = v.own;
  fresh = v.fresh;
  capped = v.capped;
  peer_capped = v.peer_capped;
}
