-- ===== src/Limiter/Links.antt =====
-- The map and the heap of records: every entry names a record, and no record has two entries.
use hop_desk.Common.{
  ℕ, ◌<◌, ◌≡◌, String, Option, none, some, arith, get_elem?, eq_iff, Option-cases, inl, inr,
  Bool-cases, leb,
}
use hop_desk.JsMap
use hop_desk.JsMap.{JsMap}
use hop_desk.JsMap.Laws.{
  IsMap, get-set, get-set_self, set-IsMap, get-delete, delete-IsMap, get-keep_part, keep-IsMap,
}
use hop_desk.Limiter.{
  AttemptLimiter, LimiterPolicy, Attempt, Call, begins, settles, resets, new_limiter, prune, evict,
  drop_found, oldest_from, allocate, touch, find_record, decide, begin, count_failure, settle_open,
  settle_found, settle, reset_for_new_code, step,
}

pub record IsLinked (l : AttemptLimiter) : Type 0 where
  pub keys : IsMap l.peers
  pub placed : (k : String) (r : ℕ) → JsMap.get k l.peers ≡ some r → r < l.next
  pub one :
      (j k : String) (r : ℕ) → JsMap.get j l.peers ≡ some r → JsMap.get k l.peers ≡ some r → j ≡ k

-- A part of the map keeps the links.
pub IsLinked-of_part :
    (l : AttemptLimiter) (m : JsMap ℕ)
    → IsMap m
    → ((k : String) (r : ℕ) → JsMap.get k m ≡ some r → JsMap.get k l.peers ≡ some r)
    → IsLinked l
    → IsLinked (record l { peers = m })
IsLinked-of_part l m keys part v = record {
  keys = keys;
  placed = λ k r e. v.placed k r (part k r e);
  one = λ j k r e f. v.one j k r (part j r e) (part k r f);
}

prune-part :
    (l : AttemptLimiter) (t : ℕ) (k : String) (r : ℕ)
    → IsMap l.peers
    → JsMap.get k (prune l t).peers ≡ some r
    → JsMap.get k l.peers ≡ some r
unfolding prune
prune-part l t k r keys e = (get-keep_part _ k r l.peers keys e).0

pub prune-IsLinked : (l : AttemptLimiter) (t : ℕ) → IsLinked l → IsLinked (prune l t)
unfolding prune
prune-IsLinked l t v =
    IsLinked-of_part l _ (keep-IsMap _ l.peers v.keys) (λ k r e. prune-part l t k r v.keys e) v

drop_found-IsMap : (o : Option (String × ℕ)) (m : JsMap ℕ) → IsMap m → IsMap (drop_found o m)
drop_found-IsMap none m h = h
drop_found-IsMap (some (k, seen)) m h = delete-IsMap k m h

pub drop_found-part :
    (o : Option (String × ℕ)) (m : JsMap ℕ) (k : String) (r : ℕ)
    → IsMap m
    → JsMap.get k (drop_found o m) ≡ some r
    → JsMap.get k m ≡ some r
drop_found-part none m k r h e = e
drop_found-part (some (j, seen)) m k r h e = ground (arith, get-delete j k m h)

pub evict-part :
    (l : AttemptLimiter) (k : String) (r : ℕ)
    → IsLinked l
    → JsMap.get k (evict l).peers ≡ some r
    → JsMap.get k l.peers ≡ some r
unfolding evict
evict-part l k r v e =
    ground (arith, drop_found-part (oldest_from l.heap none l.peers) l.peers k r v.keys)

pub evict-IsLinked : (l : AttemptLimiter) → IsLinked l → IsLinked (evict l)
unfolding evict
evict-IsLinked l v = elim (Bool-cases (leb l.policy.max_peers (JsMap.size l.peers))) [
  | inl full ↦ rw full (
      IsLinked-of_part l _ (drop_found-IsMap _ l.peers v.keys)
        (λ k r. drop_found-part (oldest_from l.heap none l.peers) l.peers k r v.keys) v)
  | inr room ↦ rw room v
]

pub allocate-IsLinked :
    (l : AttemptLimiter) (peer : String) (t : ℕ) → IsLinked l → IsLinked (allocate l peer t).0
unfolding allocate
allocate-IsLinked l peer t v = record {
  keys = set-IsMap peer l.next l.peers v.keys;
  placed = λ k r e. ground (arith, get-set peer k l.next l.peers, v.placed k r);
  one = λ j k r e f. ground (
    arith,
    get-set peer j l.next l.peers,
    get-set peer k l.next l.peers,
    eq_iff peer j,
    eq_iff peer k,
    v.placed j r,
    v.placed k r,
    v.one j k r,
  );
}

pub touch-IsLinked :
    (l : AttemptLimiter) (peer : String) (t : ℕ) (found : Option ℕ)
    → IsLinked l
    → IsLinked (touch l peer t found).0
unfolding touch
touch-IsLinked l peer t none v = allocate-IsLinked (evict l) peer t (evict-IsLinked l v)
touch-IsLinked l peer t (some r) v = record { keys = v.keys; placed = v.placed; one = v.one }

pub find_record-IsLinked :
    (l : AttemptLimiter) (peer : String) (t : ℕ) → IsLinked l → IsLinked (find_record l peer t).0
unfolding find_record
find_record-IsLinked l peer t v = touch-IsLinked l peer t (JsMap.get peer l.peers) v

-- The record that `find_record` hands out is the one that the map then holds for the peer.
pub get-find_record :
    (l : AttemptLimiter) (peer : String) (t : ℕ)
    → JsMap.get peer (find_record l peer t).0.peers ≡ some (find_record l peer t).1
unfolding find_record touch allocate
get-find_record l peer t = elim (Option-cases (JsMap.get peer l.peers)) [
  | inl e ↦ rw (e, touch) (get-set_self peer (evict l).next (evict l).peers)
  | inr (r, e) ↦ rw (e, touch) e
]

decide-IsLinked :
    (l : AttemptLimiter) (peer : String) (r t : ℕ) → IsLinked l → IsLinked (decide l peer r t).0
unfolding decide
decide-IsLinked l peer r t v = record {
  keys = ground (arith, v.keys);
  placed = λ k q e. ground (arith, v.placed k q);
  one = λ j k q e f. ground (arith, v.one j k q);
}

begin-IsLinked :
    (l : AttemptLimiter) (peer : String) (t : ℕ) → IsLinked l → IsLinked (begin l peer t).0
unfolding begin
begin-IsLinked l peer t v =
    decide-IsLinked _ peer _ t (find_record-IsLinked (prune l t) peer t (prune-IsLinked l t v))

settle-IsLinked :
    (l : AttemptLimiter) (i : ℕ) (a : Option Attempt) (success : _) (t t' : ℕ)
    → IsLinked l
    → IsLinked (settle_found l i a success t t')
unfolding settle_found settle_open count_failure
settle-IsLinked l i none success t t' v = v
settle-IsLinked l i (some a) success t t' v = record {
  keys = ground (arith, v.keys);
  placed = λ k q e. ground (arith, v.placed k q);
  one = λ j k q e f. ground (arith, v.one j k q);
}

pub step-IsLinked : (l : AttemptLimiter) (c : Call) → IsLinked l → IsLinked (step l c)
unfolding step settle reset_for_new_code
step-IsLinked l (begins peer t) v = begin-IsLinked l peer t v
step-IsLinked l (settles i success t t') v =
    settle-IsLinked l i (get_elem? l.attempts i) success t t' v
step-IsLinked l resets v = record { keys = v.keys; placed = v.placed; one = v.one }

pub new_limiter-IsLinked : (policy : LimiterPolicy) → IsLinked (new_limiter policy)
unfolding new_limiter JsMap.get
new_limiter-IsLinked policy = record { keys = tt; placed = λ k r e. cc; one = λ j k r e f. cc }
