-- ===== src/Replay/Freshness.antt =====
-- A nonce that was accepted is not accepted again.
use hop_desk.JsMap
use hop_desk.Replay.{
  run, check, prune, Arrival, NonceCache, distance, drop_first, fresh, look_up, make_room, remember,
  drop_old, new_cache,
}
use hop_desk.Replay.Entries.{
  IsSound, Remembers, Remembers-drop_first, Remembers-drop_old, Remembers-mono, Remembers-set,
  get-drop_first-none, look_up-IsSound, prune-IsSound, Remembers-has, Remembers-set_new,
}
use native.Mathlib.Nat.{add-zero}
use hop_desk.Common.{
  Bool-cases, List, Option-cases, String, [], arith, inl, inr, leb, leb→le, length, ltb, suc, ℕ,
  ◌*◌, ◌+◌, ◌<◌, ◌∷◌, ◌≡◌, ◌≢◌, ◌≤◌, refl, subst, ◌∙◌, true,
}
use hop_desk.JsMap.{JsMap}

check-IsSound :
    (c : NonceCache) (n : String) (time t : ℕ)
    → 0 < c.max_entries
    → IsSound c
    → IsSound (check c n time t).0
      × ((check c n time t).0.max_entries ≡ c.max_entries)
      × ((check c n time t).0.window_ms ≡ c.window_ms)
unfolding check prune look_up make_room remember
check-IsSound c n time t some_room v = (checked, ground arith, ground arith)
  where
    checked : IsSound (check c n time t).0
    checked = elim (Bool-cases (ltb c.window_ms (distance t time))) [
      | inl skewed ↦ rw skewed v
      | inr near ↦ rw near (look_up-IsSound (prune c t) n t some_room (prune-IsSound c t v))
    ]

look_up-Remembers :
    (c : NonceCache) (n j : String) (at k u : ℕ)
    → IsSound c
    → suc k < c.max_entries
    → Remembers n at k c.seen
    → Remembers n at (suc k) (look_up c j u).0.seen
unfolding look_up make_room remember
look_up-Remembers c n j at k u v few r = elim (Option-cases (JsMap.get j c.seen)) [
  | inr (x, e) ↦ rw e (Remembers-mono n at k c.seen r)
  | inl e ↦ elim (Bool-cases (leb c.max_entries (JsMap.size c.seen))) [
    | inl full ↦
        rw (e, full)
          (Remembers-set n j at k u (drop_first c.seen) (get-drop_first-none j c.seen v.keys e)
            (Remembers-drop_first n at k c.seen (omega (arith, leb→le _ _ full)) r))
    | inr room ↦ rw (e, room) (Remembers-set n j at k u c.seen e r)
  ]
]

check-Remembers :
    (c : NonceCache) (n j : String) (at k time u : ℕ)
    → IsSound c
    → u ≤ at + 2 * c.window_ms
    → suc k < c.max_entries
    → Remembers n at k c.seen
    → Remembers n at (suc k) (check c j time u).0.seen
unfolding check prune
check-Remembers c n j at k time u v recent few r =
    elim (Bool-cases (ltb c.window_ms (distance u time))) [
      | inl skewed ↦ rw skewed (Remembers-mono n at k c.seen r)
      | inr near ↦ rw near (
          look_up-Remembers (prune c u) n j at k u (prune-IsSound c u v) few
            (Remembers-drop_old n at k c.window_ms u c.seen recent r))
    ]

look_up-fresh :
    (c : NonceCache) (n : String) (t : ℕ)
    → IsSound c
    → (look_up c n t).1 ≡ fresh
    → Remembers n t 0 (look_up c n t).0.seen
unfolding look_up make_room remember
look_up-fresh c n t v e = elim (Option-cases (JsMap.get n c.seen)) [
  | inr (x, f) ↦ cc
  | inl f ↦ elim (Bool-cases (leb c.max_entries (JsMap.size c.seen))) [
    | inl full ↦
        rw (f, full)
          (Remembers-set_new n t (drop_first c.seen) (get-drop_first-none n c.seen v.keys f))
    | inr room ↦ rw (f, room) (Remembers-set_new n t c.seen f)
  ]
]

-- An accepted nonce is remembered with the clock of its acceptance.
fresh-Remembers :
    (c : NonceCache) (n : String) (time t : ℕ)
    → IsSound c
    → (check c n time t).1 ≡ fresh
    → Remembers n t 0 (check c n time t).0.seen × (distance t time ≤ c.window_ms)
unfolding check
fresh-Remembers c n time t v e = elim (Bool-cases (ltb c.window_ms (distance t time))) [
  | inl skewed ↦ cc (rw skewed at e)
  | inr near ↦
      (rw near (look_up-fresh (prune c t) n t (prune-IsSound c t v) (rw near at e)), ground arith)
]

-- Every clock of the history is at most `t`.
abbrev pub Until : ℕ → List Arrival → Type 0
Until t [] = Unit {0}
Until t (a ∷ as') = (a.clock ≤ t) × Until t as'

run-Remembers :
    (c : NonceCache) (n : String) (at k t : ℕ) (as' : List Arrival)
    → 0 < c.max_entries
    → IsSound c
    → t ≤ at + 2 * c.window_ms
    → k + length as' < c.max_entries
    → Until t as'
    → Remembers n at k c.seen
    → Remembers n at (k + length as') (run c as').seen
unfolding run
run-Remembers c n at k t [] some_room v recent few before r = rw add-zero r
run-Remembers c n at k t (a ∷ as') some_room v recent few (now, before) r =
    let (v', same_max, same_window) = check-IsSound c a.nonce a.time a.clock some_room v in
    let r' = check-Remembers c n a.nonce at k a.time a.clock v (omega arith) (omega arith) r in
    let later =
      run-Remembers (check c a.nonce a.time a.clock).0 n at (suc k) t as' (omega arith) v'
        (omega arith) (omega arith) before r' in
    subst (λ (q : ℕ). Remembers n at q (run (check c a.nonce a.time a.clock).0 as').seen)
      (omega arith) later

near_twice : (w t t' time : ℕ) → distance t time ≤ w → distance t' time ≤ w → t' ≤ t + 2 * w
unfolding distance
near_twice w t t' time h h' = ground arith

-- What the history keeps of the cache's parameters.
run-IsSound :
    (c : NonceCache) (as' : List Arrival)
    → 0 < c.max_entries
    → IsSound c
    → IsSound (run c as') × ((run c as').window_ms ≡ c.window_ms)
unfolding run
run-IsSound c [] some_room v = (v, refl)
run-IsSound c (a ∷ as') some_room v =
    let (v', same_max, same_window) = check-IsSound c a.nonce a.time a.clock some_room v in
    let (w, same) = run-IsSound (check c a.nonce a.time a.clock).0 as' (omega arith) v' in
    (w, same ∙ same_window)

-- A nonce that the cache remembers is not accepted while its entry is not old.
remembered_refused :
    (c : NonceCache) (n : String) (at k time t : ℕ)
    → Remembers n at k c.seen
    → (distance t time ≤ c.window_ms → t ≤ at + 2 * c.window_ms)
    → (check c n time t).1 ≢ fresh
unfolding check look_up prune
remembered_refused c n at k time t r recent e =
    elim (Bool-cases (ltb c.window_ms (distance t time))) [
      | inl skewed ↦ cc (rw skewed at e)
      | inr near ↦
          let there =
            Remembers-has n at k (drop_old c.window_ms t c.seen)
              (Remembers-drop_old n at k c.window_ms t c.seen (recent (ground arith)) r) in
          ground arith
    ]

check_skewed :
    (c : NonceCache) (n : String) (time t : ℕ)
    → ltb c.window_ms (distance t time) ≡ true
    → (check c n time t).1 ≢ fresh
unfolding check
check_skewed c n time t skewed e = cc (rw skewed at e)

-- A nonce that was accepted is refused when it comes again with the time it claimed, at any
-- later reading `t'` of the clock, after fewer other arrivals than the cache has entries, none of
-- which met a clock later than `t'`.
pub check_once :
    (c : NonceCache) (n : String) (time t t' : ℕ) (as' : List Arrival)
    → IsSound c
    → (check c n time t).1 ≡ fresh
    → length as' < c.max_entries
    → Until t' as'
    → (check (run (check c n time t).0 as') n time t').1 ≢ fresh
check_once c n time t t' as' v e few before again =
    let c' = (check c n time t).0 in
    let (v', same_max, same_window) = check-IsSound c n time t (omega arith) v in
    let (r, near) = fresh-Remembers c n time t v e in
    let (v'', same_window') = run-IsSound c' as' (omega arith) v' in
    elim (Bool-cases (ltb c.window_ms (distance t' time))) [
      | inl skewed ↦
          absurd (check_skewed (run c' as') n time t' (rw (same_window', same_window) skewed) again)
      | inr close ↦
          let recent = near_twice c.window_ms t t' time near (ground arith) in
          let kept =
            run-Remembers c' n t 0 t' as' (omega arith) v' (omega arith) (omega arith) before r in
          remembered_refused (run c' as') n t (0 + length as') time t' kept (λ _. omega arith) again
    ]

run_room :
    (c : NonceCache) (as' : List Arrival)
    → 0 < c.max_entries
    → IsSound c
    → JsMap.size (run c as').seen ≤ c.max_entries
unfolding run
run_room c [] some_room v = v.room
run_room c (a ∷ as') some_room v =
    let (v', same_max, same_window) = check-IsSound c a.nonce a.time a.clock some_room v in
    omega (arith, run_room (check c a.nonce a.time a.clock).0 as' (omega arith) v')

-- After any arrivals a cache that has room for one entry holds at most `max_entries` of them.
run-new_cache_room :
    (window_ms max_entries : ℕ) (as' : List Arrival)
    → 0 < max_entries
    → JsMap.size (run (new_cache window_ms max_entries) as').seen ≤ max_entries
run-new_cache_room window_ms max_entries as' h =
    run_room (new_cache window_ms max_entries) as' h (record { keys = tt; room = omega arith })
