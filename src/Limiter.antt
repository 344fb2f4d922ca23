-- ===== src/Limiter.antt =====
-- packages/protocol/src/limiter.ts: `AttemptLimiter`, which holds back guesses at the access code.
-- A peer's record is an object that the map and the attempts share: records stand in a heap by
-- number, the map holds numbers, and an attempt keeps the number that its closure captured.
-- Each reading of the clock is an argument. `onRotate` is the counter `rotations` of its calls.
pub mod Counts
pub mod Links
pub mod Caps
pub mod Held
pub mod History
pub mod Budget
pub mod Lockout
mod Room
pub mod Memory
mod Tests
use hop_desk.Common.{
  ℕ, suc, ◌+◌, ◌-◌, ◌*◌, ◌^◌, min, max, String, Bool, true, false, not, ◌||◌, Option, none, some,
  List, [], ◌∷◌, ◌++◌, if◌then◌else◌, ltb, leb, ◌==◌, length, get_elem?, set,
}
use hop_desk.JsMap
use hop_desk.JsMap.{JsMap}

pub record LimiterPolicy : Type 0 where
  pub max_pending : ℕ
  pub max_pending_per_peer : ℕ
  pub free_failures : ℕ
  pub base_lockout_ms : ℕ
  pub max_lockout_ms : ℕ
  pub rotate_after : ℕ
  pub peer_ttl_ms : ℕ
  pub max_peers : ℕ

abbrev pub default_limiter_policy : LimiterPolicy
default_limiter_policy = record {
  max_pending = 3;
  max_pending_per_peer = 2;
  free_failures = 3;
  base_lockout_ms = 2000;
  max_lockout_ms = 300_000;
  rotate_after = 10;
  peer_ttl_ms = 3_600_000;
  max_peers = 1024;
}

pub record PeerRecord : Type 0 where
  pub pending : ℕ
  pub consecutive : ℕ
  pub locked_until : ℕ
  pub seen : ℕ

abbrev pub blank : ℕ → PeerRecord
blank t = record { pending = 0; consecutive = 0; locked_until = 0; seen = t }

pub data Reason : Type 0 where
  locked busy : Reason

-- The granted attempt is named by its place in `attempts`.
pub data AttemptDecision : Type 0 where
  granted : (attempt : ℕ) → AttemptDecision
  refused : (retry_after_ms : ℕ) → Reason → AttemptDecision

-- What the closure of one attempt holds: the peer and the record it captured, and whether it has
-- settled.
pub record Attempt : Type 0 where
  pub owner : String
  pub target : ℕ
  pub settled : Bool

pub record AttemptLimiter : Type 0 where
  pub policy : LimiterPolicy
  pub heap : ℕ → PeerRecord
  pub next : ℕ
  pub peers : JsMap ℕ
  pub attempts : List Attempt
  pub pending : ℕ
  pub since_rotation : ℕ
  pub rotations : ℕ

unfoldable pub new_limiter : LimiterPolicy → AttemptLimiter
new_limiter policy = record {
  policy = policy;
  heap = λ r. blank 0;
  next = 0;
  peers = [];
  attempts = [];
  pending = 0;
  since_rotation = 0;
  rotations = 0;
}

abbrev pub store : (ℕ → PeerRecord) → ℕ → PeerRecord → ℕ → PeerRecord
store heap r v i = if i == r then v else heap i

-- Quiet, out of its lockout, and not in the middle of a handshake.
unfoldable pub forgettable : LimiterPolicy → ℕ → PeerRecord → Bool
forgettable policy t r =
    if ltb 0 r.pending || ltb t r.locked_until then false else ltb policy.peer_ttl_ms (t - r.seen)

unfoldable pub prune : AttemptLimiter → ℕ → AttemptLimiter
prune l t = record l {
  peers = JsMap.keep (λ key r. not (forgettable l.policy t (l.heap r))) l.peers;
}

-- One round of the loop that looks for the peer seen least recently; `none` stands for `Infinity`.
unfoldable pub older : PeerRecord → String → Option (String × ℕ) → Option (String × ℕ)
older value key none = if ltb 0 value.pending then none else some (key, value.seen)
older value key (some (oldest_key, oldest)) =
    if ltb 0 value.pending
    then some (oldest_key, oldest)
    else if ltb value.seen oldest
    then some (key, value.seen)
    else some (oldest_key, oldest)

unfoldable pub oldest_from : (ℕ → PeerRecord) → Option (String × ℕ) → JsMap ℕ → Option (String × ℕ)
oldest_from heap best [] = best
oldest_from heap best ((key, r) ∷ m) = oldest_from heap (older (heap r) key best) m

abbrev pub drop_found : Option (String × ℕ) → JsMap ℕ → JsMap ℕ
drop_found none m = m
drop_found (some (key, oldest)) m = JsMap.delete key m

unfoldable pub evict : AttemptLimiter → AttemptLimiter
evict l =
    if leb l.policy.max_peers (JsMap.size l.peers)
    then record l { peers = drop_found (oldest_from l.heap none l.peers) l.peers }
    else l

unfoldable pub allocate : AttemptLimiter → String → ℕ → AttemptLimiter × ℕ
allocate l peer t = (
  record l {
    heap = store l.heap l.next (blank t);
    next = suc l.next;
    peers = JsMap.set peer l.next l.peers;
  },
  l.next,
)

-- `record(peer, t)`: the peer's record, made anew if there is none.
unfoldable pub touch : AttemptLimiter → String → ℕ → Option ℕ → AttemptLimiter × ℕ
touch l peer t (some r) =
    let existing = l.heap r in
    (record l { heap = store l.heap r (record existing { seen = t }) }, r)
touch l peer t none = allocate (evict l) peer t

unfoldable pub find_record : AttemptLimiter → String → ℕ → AttemptLimiter × ℕ
find_record l peer t = touch l peer t (JsMap.get peer l.peers)

-- The guards of `begin`, in order, and the attempt that passes them all.
unfoldable pub decide : AttemptLimiter → String → ℕ → ℕ → AttemptLimiter × AttemptDecision
decide l peer r t =
    let own = l.heap r in
    if ltb t own.locked_until
    then (l, refused (own.locked_until - t) locked)
    else if leb l.policy.max_pending l.pending
    then (l, refused 1000 busy)
    else if leb l.policy.max_pending_per_peer own.pending
    then (l, refused 1000 busy)
    else (
      record l {
        pending = suc l.pending;
        heap = store l.heap r (record own { pending = suc own.pending });
        attempts = l.attempts ++ record { owner = peer; target = r; settled = false } ∷ [];
      },
      granted (length l.attempts),
    )

unfoldable pub begin : AttemptLimiter → String → ℕ → AttemptLimiter × AttemptDecision
begin l peer t = let (found, r) = find_record (prune l t) peer t in decide found peer r t

-- The lockout of a peer whose failures in a row have reached `free_failures`.
unfoldable pub lockout_ms : LimiterPolicy → ℕ → ℕ
lockout_ms policy consecutive =
    min policy.max_lockout_ms
      (policy.base_lockout_ms * 2 ^ min (consecutive - policy.free_failures) 20)

-- A failure's mark on the record of the peer; `t` is the clock when the lockout is set.
unfoldable pub punish : LimiterPolicy → ℕ → PeerRecord → PeerRecord
punish policy t r =
    let consecutive = suc r.consecutive in
    record r {
      consecutive = consecutive;
      locked_until =
          if leb policy.free_failures consecutive
          then max r.locked_until (t + lockout_ms policy consecutive)
          else r.locked_until;
    }

-- A failure's mark on the code: counted, and after `rotate_after` of them the code is replaced.
unfoldable pub count_failure : AttemptLimiter → AttemptLimiter
count_failure l =
    let n = suc l.since_rotation in
    if leb l.policy.rotate_after n
    then record l { since_rotation = 0; rotations = suc l.rotations }
    else record l { since_rotation = n }

-- `t` is the clock at the settling, `t'` its second reading, for the lockout.
unfoldable pub settle_open : AttemptLimiter → ℕ → Attempt → Bool → ℕ → ℕ → AttemptLimiter
settle_open l i a success t t' =
    let own = l.heap a.target in
    let back = record own { pending = own.pending - 1; seen = t } in
    let closed = record l {
      pending = l.pending - 1;
      attempts = set l.attempts i (record a { settled = true });
    } in
    if success
    then record closed { heap = store l.heap a.target (record back { consecutive = 0 }) }
    else count_failure (record closed { heap = store l.heap a.target (punish l.policy t' back) })

unfoldable pub settle_found : AttemptLimiter → ℕ → Option Attempt → Bool → ℕ → ℕ → AttemptLimiter
settle_found l i none success t t' = l
settle_found l i (some a) success t t' = if a.settled then l else settle_open l i a success t t'

-- `attempt.succeed()` and `attempt.fail()` of the attempt `i`.
unfoldable pub settle : AttemptLimiter → ℕ → Bool → ℕ → ℕ → AttemptLimiter
settle l i success t t' = settle_found l i (get_elem? l.attempts i) success t t'

unfoldable pub reset_for_new_code : AttemptLimiter → AttemptLimiter
reset_for_new_code l = record l { since_rotation = 0 }

pub data Call : Type 0 where
  begins : (peer : String) (t : ℕ) → Call
  settles : (attempt : ℕ) (success : Bool) (t t' : ℕ) → Call
  resets : Call

unfoldable pub step : AttemptLimiter → Call → AttemptLimiter
step l (begins peer t) = (begin l peer t).0
step l (settles i success t t') = settle l i success t t'
step l resets = reset_for_new_code l

unfoldable pub run : AttemptLimiter → List Call → AttemptLimiter
run l [] = l
run l (c ∷ cs) = run (step l c) cs
