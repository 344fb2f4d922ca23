-- ===== src/Limiter/Room.antt =====
-- The open attempts of different peers are different, so while there are few, a peer has none: what eviction takes.
use hop_desk.JsMap
use hop_desk.Limiter.{Attempt, PeerRecord, older, oldest_from}
use hop_desk.Common.{
  Bool-cases, List, String, [], arith, if◌then◌else◌, inl, inr, refl, some, ℕ, ◌*◌, ◌+◌, ◌==◌, ◌∷◌,
  ◌≡◌, ◌≢◌, ◌≤◌, ==_iff, ap, ◌∙◌, Option, ltb, none, str_eq, sym,
}
use hop_desk.Limiter.Held.{Idle, Idle-cons}
use hop_desk.JsMap.Laws.{IsMap, get-cons_of_get, get-cons_self}
use hop_desk.Limiter.Counts.{open_at, open_at-nil, open_in, weight}
use hop_desk.JsMap.{JsMap}

-- How many entries of the map are at the record of an attempt.
pub hits : JsMap ℕ → ℕ → ℕ
hits [] r = 0
hits ((k, q) ∷ m) r = (if q == r then 1 else 0) + hits m r

hits_none : (m : JsMap ℕ) (r : ℕ) → IsMap m → ((k : String) → JsMap.get k m ≢ some r) → hits m r ≡ 0
unfolding hits
hits_none [] r h absent = refl
hits_none ((k, q) ∷ m) r (fresh, h) absent =
    let rest = hits_none m r h (λ j e. absent j (get-cons_of_get k j r q m fresh e)) in
    elim (Bool-cases (q == r)) [
      | inl same ↦ absurd (absent k (get-cons_self k q m ∙ ap some ((==_iff q r).0 same)))
      | inr other ↦ ground arith
    ]

pub hits-le-one :
    (m : JsMap ℕ) (r : ℕ)
    → IsMap m
    → ((j k : String) → JsMap.get j m ≡ some r → JsMap.get k m ≡ some r → j ≡ k)
    → hits m r ≤ 1
unfolding hits
hits-le-one [] r h one = omega arith
hits-le-one ((k, q) ∷ m) r (fresh, h) one = elim (Bool-cases (q == r)) [
  | inl same ↦
      let gone = hits_none m r h (λ j e. cc (
        one k j (get-cons_self k q m ∙ ap some ((==_iff q r).0 same))
          (get-cons_of_get k j r q m fresh e))) in
      ground arith
  | inr other ↦
      let rest = hits-le-one m r h (λ j i e f.
        one j i (get-cons_of_get k j r q m fresh e) (get-cons_of_get k i r q m fresh f)) in
      ground arith
]

-- The attempts that are open at the records of the map, entry by entry.
pub sum_open : JsMap ℕ → List Attempt → ℕ
sum_open [] as' = 0
sum_open ((k, r) ∷ m) as' = open_at r as' + sum_open m as'

sum_open-nil : (m : JsMap ℕ) → sum_open m [] ≡ 0
unfolding sum_open
sum_open-nil [] = refl
sum_open-nil ((k, r) ∷ m) = omega (arith, open_at-nil r, sum_open-nil m)

sum_open-cons :
    (m : JsMap ℕ) (a : Attempt) (as' : List Attempt)
    → sum_open m (a ∷ as') ≡ hits m a.target * weight a + sum_open m as'
unfolding sum_open hits open_at
sum_open-cons [] a as' = omega arith
sum_open-cons ((k, r) ∷ m) a as' = ground (arith, sum_open-cons m a as')

pub sum_open-le :
    (m : JsMap ℕ) (as' : List Attempt) → ((r : ℕ) → hits m r ≤ 1) → sum_open m as' ≤ open_in as'
unfolding open_in
sum_open-le m [] h = omega (arith, sum_open-nil m)
sum_open-le m (a ∷ as') h = ground (arith, sum_open-cons m a as', sum_open-le m as' h, h a.target)

-- Every entry at work, there are at least as many open attempts as entries.
pub size-le-sum_open :
    (heap : ℕ → PeerRecord) (as' : List Attempt) (m : JsMap ℕ)
    → ((r : ℕ) → (heap r).pending ≡ open_at r as')
    → ((k : String) → ¬ Idle heap m k)
    → IsMap m
    → JsMap.size m ≤ sum_open m as'
unfolding sum_open
size-le-sum_open heap as' [] own working h = omega arith
size-le-sum_open heap as' ((k, r) ∷ m) own working (fresh, h) =
    let rest =
      size-le-sum_open heap as' m own (λ j i. working j (Idle-cons heap k j r m fresh i)) h in
    let here : (heap r).pending ≢ 0 = λ z. working k (r, get-cons_self k r m, z) in
    omega (arith, own r)

older-some :
    (value : PeerRecord) (key k : String) (s : ℕ)
    → (k' : String) × (s' : ℕ) × (older value key (some (k, s)) ≡ some (k', s'))
unfolding older
older-some value key k s = elim (Bool-cases (ltb 0 value.pending)) [
  | inl w ↦ (k, s, rw w)
  | inr w ↦ elim (Bool-cases (ltb value.seen s)) [
    | inl less ↦ (key, value.seen, rw (w, less))
    | inr more ↦ (k, s, rw (w, more))
  ]
]

older-idle_some :
    (value : PeerRecord) (key : String) (best : Option (String × ℕ))
    → value.pending ≡ 0
    → (k' : String) × (s' : ℕ) × (older value key best ≡ some (k', s'))
unfolding older
older-idle_some value key none z = (key, value.seen, ground arith)
older-idle_some value key (some (k, s)) z = older-some value key k s

oldest_from-some :
    (heap : ℕ → PeerRecord) (k : String) (s : ℕ) (m : JsMap ℕ)
    → oldest_from heap (some (k, s)) m ≢ none
unfolding oldest_from
oldest_from-some heap k s [] e = cc
oldest_from-some heap k s ((j, q) ∷ m) e =
    let (k', s', kept) = older-some (heap q) j k s in
    oldest_from-some heap k' s' m (ap (λ b. oldest_from heap b m) (sym kept) ∙ e)

-- If the search finds nobody, every peer has an attempt in flight.
pub oldest_from-none :
    (heap : ℕ → PeerRecord) (best : Option (String × ℕ)) (m : JsMap ℕ) (k : String)
    → oldest_from heap best m ≡ none
    → ¬ Idle heap m k
unfolding oldest_from JsMap.get
oldest_from-none heap best [] k e (r, at_r, z) = cc
oldest_from-none heap best ((j, q) ∷ m) k e (r, at_r, z) = elim (Bool-cases (str_eq j k)) [
  | inl same ↦
      let (k', s', kept) = older-idle_some (heap q) j best (ground arith) in
      oldest_from-some heap k' s' m (ap (λ b. oldest_from heap b m) (sym kept) ∙ e)
  | inr other ↦ oldest_from-none heap (older (heap q) j best) m k e (r, ground arith, z)
]
