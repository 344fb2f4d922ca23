-- ===== src/Throttle/Tests.antt =====
-- The throttle run on concrete attempts, and its theorems at such attempts.
use hop_desk.JsMap
use hop_desk.Throttle.{
  run, ThrottlePolicy, admit, allow, allowed, count_in, drop_over, new_throttle, restart, wait,
  window_or_new,
}
use hop_desk.Throttle.Windows.{is_allowed}
use hop_desk.Throttle.Rate.{passes, throttle_rate}
use hop_desk.Common.{List, String, [], arith, none, refl, ℕ, ◌*◌, ◌∷◌, ◌≡◌, ◌≤◌}
use hop_desk.JsMap.{JsMap}

throttle : Unit {0}
unfolding run allow admit count_in drop_over restart window_or_new new_throttle is_allowed JsMap.get
    JsMap.set JsMap.keep
throttle = tt

abbrev policy : ThrottlePolicy
policy = record { per_window = 2; window_ms = 10; max_peers = 2 }

-- Two attempts pass, the third waits for the rest of the window, and then the count starts again.
counted :
    ((allow (run (new_throttle policy) (("a", 0) ∷ ("a", 1) ∷ [])) "a" 4).1 ≡ wait 6)
    × ((allow (run (new_throttle policy) (("a", 0) ∷ ("a", 1) ∷ ("a", 4) ∷ [])) "a" 10).1 ≡ allowed)
unfolding throttle
counted = (refl, refl)

-- With two peers remembered there is no room for a third.
full : (allow (run (new_throttle policy) (("a", 0) ∷ ("b", 1) ∷ [])) "c" 4).1 ≡ wait 10
unfolding throttle
full = refl

abbrev before : List (String × ℕ)
before = ("a", 8) ∷ ("b", 8) ∷ []

abbrev burst : List (String × ℕ)
burst = ("a", 11) ∷ ("a", 12) ∷ ("b", 13) ∷ ("a", 18) ∷ ("a", 19) ∷ ("a", 20) ∷ []

-- One passes in the old window, two in the one after it.
three_pass : passes "a" (run (new_throttle policy) before) burst ≡ 3
unfolding throttle passes
three_pass = refl

throttle_rate_example :
    (passes "a" (run (new_throttle policy) before) burst ≤ 2 * 2)
    × (JsMap.get "a" (run (new_throttle policy) before).windows ≡ none
        → passes "a" (run (new_throttle policy) before) burst ≤ 2)
throttle_rate_example = throttle_rate policy before "a" 11 burst (omega arith)
