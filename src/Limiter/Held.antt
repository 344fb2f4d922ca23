-- ===== src/Limiter/Held.antt =====
-- A peer whose attempt is open is never forgotten: the map still holds, for the peer, the very
-- record that the attempt will settle.
use hop_desk.Common.{
  ℕ, suc, zero, ◌<◌, ◌≡◌, refl, ◌⊎◌, String, Bool, true, false, not, Option, none, some, List, [],
  ◌∷◌, ◌++◌, arith, get_elem?, set, eq_iff, Option-cases, inl, inr,
}
use hop_desk.JsMap
use hop_desk.JsMap.{JsMap}
use hop_desk.JsMap.Laws.{IsMap, get-set, get-delete, get-keep}
use hop_desk.Limiter.{
  AttemptLimiter, PeerRecord, Attempt, Call, begins, settles, resets, prune, evict, drop_found,
  older, oldest_from, forgettable, allocate, touch, find_record, decide, begin, count_failure,
  settle_open, settle_found, settle, reset_for_new_code, step,
}
use hop_desk.Limiter.Counts.{open_at}
use hop_desk.Limiter.Links.{IsLinked, prune-IsLinked, get-find_record, evict-part}
use hop_desk.Limiter.Caps.{IsCounted, prune-IsCounted}

abbrev pub IsHeld : JsMap ℕ → List Attempt → Type 0
IsHeld m [] = Unit {0}
IsHeld m (a ∷ as') = (a.settled ≡ false → JsMap.get a.owner m ≡ some a.target) × IsHeld m as'

-- What is true of the entries of open records carries over.
IsHeld-mono :
    (m m' : JsMap ℕ) (as' : List Attempt)
    → ((k : String) (r : ℕ) → 0 < open_at r as' → JsMap.get k m ≡ some r → JsMap.get k m' ≡ some r)
    → IsHeld m as'
    → IsHeld m' as'
unfolding open_at
IsHeld-mono m m' [] f h = tt
IsHeld-mono m m' (a ∷ as') f (here, rest) = (
  λ e. f a.owner a.target (ground arith) (here e),
  IsHeld-mono m m' as' (λ k r h. f k r (omega arith)) rest,
)

IsHeld-append :
    (m : JsMap ℕ) (as' : List Attempt) (a : Attempt)
    → IsHeld m as'
    → JsMap.get a.owner m ≡ some a.target
    → IsHeld m (as' ++ a ∷ [])
IsHeld-append m [] a h e = (λ _. e, tt)
IsHeld-append m (x ∷ as') a (here, h) e = (here, IsHeld-append m as' a h e)

IsHeld-set :
    (m : JsMap ℕ) (as' : List Attempt) (i : ℕ) (a : Attempt)
    → IsHeld m as'
    → IsHeld m (set as' i (record a { settled = true }))
IsHeld-set m [] i a h = tt
IsHeld-set m (x ∷ as') zero a (here, h) = (λ e. cc, h)
IsHeld-set m (x ∷ as') (suc i) a (here, h) = (here, IsHeld-set m as' i a h)

prune-held :
    (l : AttemptLimiter) (t : ℕ) (k : String) (r : ℕ)
    → IsLinked l
    → IsCounted l
    → 0 < open_at r l.attempts
    → JsMap.get k l.peers ≡ some r
    → JsMap.get k (prune l t).peers ≡ some r
unfolding prune forgettable
prune-held l t k r links v h e = ground (
  arith,
  get-keep (λ (key : String) (q : ℕ). not (forgettable l.policy t (l.heap q))) k l.peers links.keys,
  v.own r,
)

-- The peer that the search picks is one with nothing in flight.
older-idle :
    (value : PeerRecord) (key k : String) (best : Option (String × ℕ)) (s : ℕ)
    → older value key best ≡ some (k, s)
    → (best ≡ some (k, s)) ⊎ ((key ≡ k) × (value.pending ≡ 0))
unfolding older
older-idle value key k none s e = ground arith
older-idle value key k (some (b, o)) s e = ground arith

abbrev pub Idle : (ℕ → PeerRecord) → JsMap ℕ → String → Type 0
Idle heap m k = (r : ℕ) × (JsMap.get k m ≡ some r) × ((heap r).pending ≡ 0)

pub Idle-cons :
    (heap : ℕ → PeerRecord) (key k : String) (r : ℕ) (m : JsMap ℕ)
    → JsMap.get key m ≡ none
    → Idle heap m k
    → Idle heap ((key, r) ∷ m) k
unfolding JsMap.get
Idle-cons heap key k r m fresh (q, e, z) = (q, ground (arith, eq_iff key k), z)

pub oldest_from-Idle :
    (heap : ℕ → PeerRecord) (best : Option (String × ℕ)) (m : JsMap ℕ) (k : String) (s : ℕ)
    → IsMap m
    → oldest_from heap best m ≡ some (k, s)
    → (best ≡ some (k, s)) ⊎ Idle heap m k
unfolding oldest_from JsMap.get
oldest_from-Idle heap best [] k s h e = inl e
oldest_from-Idle heap best ((key, r) ∷ m) k s (fresh, h) e =
    elim (oldest_from-Idle heap (older (heap r) key best) m k s h e) [
      | inr idle ↦ inr (Idle-cons heap key k r m fresh idle)
      | inl found ↦ elim (older-idle (heap r) key k best s found) [
        | inl same ↦ inl same
        | inr (same, z) ↦ inr (r, ground (arith, eq_iff key k), z)
      ]
    ]

drop_found-held :
    (l : AttemptLimiter) (o : Option (String × ℕ)) (k : String) (r : ℕ)
    → oldest_from l.heap none l.peers ≡ o
    → IsLinked l
    → IsCounted l
    → 0 < open_at r l.attempts
    → JsMap.get k l.peers ≡ some r
    → JsMap.get k (drop_found o l.peers) ≡ some r
drop_found-held l none k r found links v h e = e
drop_found-held l (some (j, s)) k r found links v h e =
    elim (oldest_from-Idle l.heap none l.peers j s links.keys found) [
      | inl wrong ↦ absurd (cc)
      | inr (q, at_q, z) ↦
          ground (arith, get-delete j k l.peers links.keys, v.own r, v.own q, eq_iff j k)
    ]

evict-held :
    (l : AttemptLimiter) (k : String) (r : ℕ)
    → IsLinked l
    → IsCounted l
    → 0 < open_at r l.attempts
    → JsMap.get k l.peers ≡ some r
    → JsMap.get k (evict l).peers ≡ some r
unfolding evict
evict-held l k r links v h e =
    ground (arith, drop_found-held l (oldest_from l.heap none l.peers) k r refl links v h e)

evict-attempts : (l : AttemptLimiter) → (evict l).attempts ≡ l.attempts
unfolding evict
evict-attempts l = ground arith

-- A key that the map does not hold can be set without touching what is held.
set-IsHeld :
    (m : JsMap ℕ) (peer : String) (r : ℕ) (as' : List Attempt)
    → JsMap.get peer m ≡ none
    → IsHeld m as'
    → IsHeld (JsMap.set peer r m) as'
set-IsHeld m peer r as' gone h =
    IsHeld-mono m (JsMap.set peer r m) as'
      (λ k q _ e. ground (arith, get-set peer k r m, eq_iff peer k)) h

evict-none :
    (l : AttemptLimiter) (peer : String)
    → IsLinked l
    → JsMap.get peer l.peers ≡ none
    → JsMap.get peer (evict l).peers ≡ none
unfolding evict
evict-none l peer links e = elim (Option-cases (JsMap.get peer (evict l).peers)) [
  | inl gone ↦ gone
  | inr (r, f) ↦ cc (evict-part l peer r links f)
]

touch-IsHeld :
    (l : AttemptLimiter) (peer : String) (t : ℕ) (o : Option ℕ)
    → JsMap.get peer l.peers ≡ o
    → IsLinked l
    → IsCounted l
    → IsHeld l.peers l.attempts
    → IsHeld (touch l peer t o).0.peers (touch l peer t o).0.attempts
unfolding touch allocate
touch-IsHeld l peer t (some r) e links v h = h
touch-IsHeld l peer t none e links v h = rw (evict-attempts l) (
    set-IsHeld (evict l).peers peer (evict l).next l.attempts (evict-none l peer links e)
      (IsHeld-mono l.peers (evict l).peers l.attempts (λ k r. evict-held l k r links v) h))

find_record-IsHeld :
    (l : AttemptLimiter) (peer : String) (t : ℕ)
    → IsLinked l
    → IsCounted l
    → IsHeld l.peers l.attempts
    → IsHeld (find_record l peer t).0.peers (find_record l peer t).0.attempts
unfolding find_record
find_record-IsHeld l peer t = touch-IsHeld l peer t (JsMap.get peer l.peers) refl

pub prune-IsHeld :
    (l : AttemptLimiter) (t : ℕ)
    → IsLinked l
    → IsCounted l
    → IsHeld l.peers l.attempts
    → IsHeld (prune l t).peers (prune l t).attempts
unfolding prune
prune-IsHeld l t links v h =
    IsHeld-mono l.peers (prune l t).peers l.attempts (λ k r. prune-held l t k r links v) h

decide-IsHeld :
    (l : AttemptLimiter) (peer : String) (r t : ℕ)
    → JsMap.get peer l.peers ≡ some r
    → IsHeld l.peers l.attempts
    → IsHeld (decide l peer r t).0.peers (decide l peer r t).0.attempts
unfolding decide
decide-IsHeld l peer r t e h = ground (
  arith,
  IsHeld-append l.peers l.attempts (record { owner = peer; target = r; settled = false }) h e,
)

settle-IsHeld :
    (l : AttemptLimiter) (i : ℕ) (o : Option Attempt) (success : Bool) (t t' : ℕ)
    → IsHeld l.peers l.attempts
    → IsHeld (settle_found l i o success t t').peers (settle_found l i o success t t').attempts
unfolding settle_found settle_open count_failure
settle-IsHeld l i none success t t' h = h
settle-IsHeld l i (some a) success t t' h = ground (arith, IsHeld-set l.peers l.attempts i a h)

pub begin-IsHeld :
    (l : AttemptLimiter) (peer : String) (t : ℕ)
    → IsLinked l
    → IsCounted l
    → IsHeld l.peers l.attempts
    → IsHeld (begin l peer t).0.peers (begin l peer t).0.attempts
unfolding begin
begin-IsHeld l peer t links v h =
    decide-IsHeld (find_record (prune l t) peer t).0 peer _ t (get-find_record (prune l t) peer t) (
      find_record-IsHeld (prune l t) peer t (prune-IsLinked l t links) (prune-IsCounted l t v)
        (prune-IsHeld l t links v h))

pub step-IsHeld :
    (l : AttemptLimiter) (c : Call)
    → IsLinked l
    → IsCounted l
    → IsHeld l.peers l.attempts
    → IsHeld (step l c).peers (step l c).attempts
unfolding step settle reset_for_new_code
step-IsHeld l (begins peer t) links v h = begin-IsHeld l peer t links v h
step-IsHeld l (settles i success t t') links v h =
    settle-IsHeld l i (get_elem? l.attempts i) success t t' h
step-IsHeld l resets links v h = h
