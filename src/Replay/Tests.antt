-- ===== src/Replay/Tests.antt =====
-- The nonce cache run on concrete arrivals, and its theorems at such arrivals.
use hop_desk.JsMap
use hop_desk.Replay.{
  run, Arrival, NonceCache, check, clock_skew, distance, drop_old, fresh, look_up, make_room,
  new_cache, prune, remember, replay,
}
use hop_desk.Common.{List, [], arith, refl, ◌∷◌, ◌≡◌, ◌≢◌}
use hop_desk.Replay.Freshness.{check_once}
use hop_desk.JsMap.{JsMap}

cache : Unit {0}
unfolding run check look_up make_room remember prune drop_old distance JsMap.get JsMap.set
    JsMap.delete
cache = tt

abbrev small : NonceCache
small = new_cache 10 3

abbrev others : List Arrival
others =
    record { nonce = "m"; time = 105; clock = 106 }
    ∷ record { nonce = "o"; time = 90; clock = 107 }
    ∷ []

accepted : (check small "n" 103 100).1 ≡ fresh
unfolding cache
accepted = refl

-- The second time it is a replay, and long after that its time no longer passes.
refused_again :
    ((check (run (check small "n" 103 100).0 others) "n" 103 108).1 ≡ replay)
    × ((check (run (check small "n" 103 100).0 others) "n" 103 114).1 ≡ clock_skew)
unfolding cache
refused_again = (refl, refl)

-- After as many other arrivals as there are entries the nonce may be forgotten, and pass again.
abbrev flood : List Arrival
flood =
    record { nonce = "m"; time = 105; clock = 106 }
    ∷ record { nonce = "o"; time = 106; clock = 106 }
    ∷ record { nonce = "p"; time = 106; clock = 106 }
    ∷ []

passes_again : (check (run (check small "n" 103 100).0 flood) "n" 103 108).1 ≡ fresh
unfolding cache
passes_again = refl

check_once_example : (check (run (check small "n" 103 100).0 others) "n" 103 108).1 ≢ fresh
check_once_example =
    check_once small "n" 103 100 108 others (record { keys = tt; room = omega arith }) accepted
      (omega arith) (omega arith)
