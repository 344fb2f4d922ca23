-- ===== src/Throttle/Windows.antt =====
-- What one attempt does to the windows: to that of its peer, and to those of the others.
use hop_desk.JsMap
use hop_desk.Throttle.{
  run, Window, Allowed, PeerThrottle, admit, allow, allowed, count_in, drop_over, restart, wait,
  window_or_new,
}
use hop_desk.Common.{
  Bool-cases, List, String, [], arith, eq_iff, if◌then◌else◌, inl, inr, leb, ltb, not, some, suc, ℕ,
  ◌&&◌, ◌+◌, ◌<◌, ◌∷◌, ◌≡◌, ◌≢◌, ◌≤◌, none, ◌∙◌, ◌⊎◌, refl, ◌-◌, Option,
}
use hop_desk.JsMap.Laws.{
  IsMap, get-keep, get-set, keep-IsMap, set-IsMap, size-keep-le, size-set, only, get-set_self,
}
use hop_desk.JsMap.{JsMap}

unfoldable pub is_allowed : Allowed → ℕ
is_allowed allowed = 1
is_allowed (wait retry_after_ms) = 0

-- The windows are a map, and there are at most `max_peers` of them.
pub record IsSound (s : PeerThrottle) : Type 0 where
  pub keys : IsMap s.windows
  pub room : JsMap.size s.windows ≤ s.policy.max_peers

drop_over-IsSound : (s : PeerThrottle) (t : ℕ) → IsSound s → IsSound (drop_over s t)
unfolding drop_over
drop_over-IsSound s t v = record {
  keys = keep-IsMap (λ key w. ltb t w.until) s.windows v.keys;
  room = omega (arith, size-keep-le (λ key w. ltb t w.until) s.windows, v.room);
}

count_in-IsSound :
    (s : PeerThrottle) (peer : String) (t : ℕ) (w : Window)
    → IsMap s.windows
    → (if JsMap.has peer s.windows then JsMap.size s.windows else JsMap.size s.windows + 1)
      ≤ s.policy.max_peers
    → IsSound (count_in s peer t w).0
unfolding count_in
count_in-IsSound s peer t w keys room = record {
  keys = set-IsMap peer (record w { count = suc w.count }) s.windows keys;
  room = rw (size-set peer (record w { count = suc w.count }) s.windows) room;
}

admit-IsSound : (s : PeerThrottle) (peer : String) (t : ℕ) → IsSound s → IsSound (admit s peer t).0
unfolding admit
admit-IsSound s peer t v =
    elim (Bool-cases
      (leb s.policy.max_peers (JsMap.size s.windows) && not (JsMap.has peer s.windows))) [
        | inl full ↦ simp full v
        | inr room ↦ simp room (
            count_in-IsSound s peer t
              (restart s.policy t (window_or_new s.policy t (JsMap.get peer s.windows))) v.keys
              (ground (arith, v.room)))
      ]

pub allow-IsSound :
    (s : PeerThrottle) (peer : String) (t : ℕ) → IsSound s → IsSound (allow s peer t).0
unfolding allow
allow-IsSound s peer t v = admit-IsSound (drop_over s t) peer t (drop_over-IsSound s t v)

pub run-IsSound : (s : PeerThrottle) (cs : List (String × ℕ)) → IsSound s → IsSound (run s cs)
unfolding run
run-IsSound s [] v = v
run-IsSound s ((peer, t) ∷ cs) v = run-IsSound (allow s peer t).0 cs (allow-IsSound s peer t v)

-- A window that is over is dropped, and no other is.
get-drop_over :
    (s : PeerThrottle) (t : ℕ) (p : String)
    → IsMap s.windows
    → JsMap.get p (drop_over s t).windows ≡ only (λ w. ltb t w.until) (JsMap.get p s.windows)
unfolding drop_over
get-drop_over s t p keys = get-keep (λ key w. ltb t w.until) p s.windows keys

count_in_other :
    (s : PeerThrottle) (p peer : String) (t : ℕ) (w : Window)
    → peer ≢ p
    → JsMap.get p (count_in s peer t w).0.windows ≡ JsMap.get p s.windows
unfolding count_in
count_in_other s p peer t w ne =
    ground (arith, get-set peer p (record w { count = suc w.count }) s.windows, eq_iff peer p)

admit_other :
    (s : PeerThrottle) (p peer : String) (t : ℕ)
    → peer ≢ p
    → JsMap.get p (admit s peer t).0.windows ≡ JsMap.get p s.windows
unfolding admit
admit_other s p peer t ne = ground (
  arith,
  count_in_other s p peer t
      (restart s.policy t (window_or_new s.policy t (JsMap.get peer s.windows))) ne,
)

-- An attempt of another peer does to a window what time does.
pub allow_other :
    (s : PeerThrottle) (p peer : String) (t : ℕ)
    → IsMap s.windows
    → peer ≢ p
    → JsMap.get p (allow s peer t).0.windows ≡ only (λ w. ltb t w.until) (JsMap.get p s.windows)
unfolding allow
allow_other s p peer t keys ne = admit_other (drop_over s t) p peer t ne ∙ get-drop_over s t p keys

admit_own :
    (s : PeerThrottle) (p : String) (t : ℕ) (w : Window)
    → t < w.until
    → JsMap.get p s.windows ≡ some w
    → admit s p t ≡ count_in s p t w
unfolding admit restart window_or_new
admit_own s p t w early e = rw (e, window_or_new) (ground arith)

admit_new :
    (s : PeerThrottle) (p : String) (t : ℕ)
    → JsMap.get p s.windows ≡ none
    → (admit s p t ≡ (s, wait s.policy.window_ms))
      ⊎ (admit s p t ≡ count_in s p t (record { count = 0; until = t + s.policy.window_ms }))
unfolding admit restart window_or_new
admit_new s p t e = rw (e, window_or_new) (ground arith)

pub allow-policy : (s : PeerThrottle) (peer : String) (t : ℕ) → (allow s peer t).0.policy ≡ s.policy
unfolding allow admit count_in drop_over
allow-policy s peer t = ground arith

pub run-policy : (s : PeerThrottle) (cs : List (String × ℕ)) → (run s cs).policy ≡ s.policy
unfolding run
run-policy s [] = refl
run-policy s ((peer, t) ∷ cs) = run-policy (allow s peer t).0 cs ∙ allow-policy s peer t

-- Counting an attempt takes one off what the window has left, if it has any.
count_in_left :
    (s : PeerThrottle) (p : String) (t : ℕ) (w : Window)
    → is_allowed (count_in s p t w).1 + (s.policy.per_window - suc w.count)
      ≤ s.policy.per_window - w.count
unfolding count_in is_allowed
count_in_left s p t w = ground arith

count_in_own :
    (s : PeerThrottle) (p : String) (t : ℕ) (w : Window)
    → JsMap.get p (count_in s p t w).0.windows ≡ some (record w { count = suc w.count })
unfolding count_in
count_in_own s p t w = get-set_self p (record w { count = suc w.count }) s.windows

-- What an attempt does with the peer's own window while that is not over.
pub allow_own :
    (s : PeerThrottle) (p : String) (t : ℕ) (w : Window)
    → IsMap s.windows
    → t < w.until
    → JsMap.get p s.windows ≡ some w
    → (is_allowed (allow s p t).1 + (s.policy.per_window - suc w.count)
        ≤ s.policy.per_window - w.count)
      × (JsMap.get p (allow s p t).0.windows ≡ some (record w { count = suc w.count }))
unfolding allow drop_over
allow_own s p t w keys early e =
    let d = drop_over s t in
    let kept : JsMap.get p d.windows ≡ some w = ground (arith, get-drop_over s t p keys) in
    rw (admit_own d p t w early kept) (count_in_left d p t w, count_in_own d p t w)

-- What it does where the peer has no window, or one that is over.
abbrev pub IsOver : ℕ → Option Window → Type 0
IsOver t none = Unit {0}
IsOver t (some w) = w.until ≤ t

pub allow_new :
    (s : PeerThrottle) (p : String) (t : ℕ)
    → IsMap s.windows
    → IsOver t (JsMap.get p s.windows)
    → ((is_allowed (allow s p t).1 ≡ 0) × (JsMap.get p (allow s p t).0.windows ≡ none))
      ⊎ ((is_allowed (allow s p t).1 + (s.policy.per_window - 1) ≤ s.policy.per_window)
          × (JsMap.get p (allow s p t).0.windows
              ≡ some (record { count = 1; until = t + s.policy.window_ms })))
unfolding allow drop_over is_allowed
allow_new s p t keys over =
    let d = drop_over s t in
    let w : Window = record { count = 0; until = t + s.policy.window_ms } in
    let gone : JsMap.get p d.windows ≡ none =
      over_gone (JsMap.get p s.windows) over (get-drop_over s t p keys) in
    elim (admit_new d p t gone) [
      | inl full ↦ inl (rw full refl, rw full gone)
      | inr fresh ↦
          inr (rw fresh (omega (arith, count_in_left d p t w)), rw fresh (count_in_own d p t w))
    ]
  where
    over_gone :
        (o : Option Window) {r : Option Window}
        → IsOver t o
        → r ≡ only (λ w. ltb t w.until) o
        → r ≡ none
    over_gone none h e = e
    over_gone (some w) h e = ground arith
