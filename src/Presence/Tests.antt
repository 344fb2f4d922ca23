-- ===== src/Presence/Tests.antt =====
-- Two devices of one account in a session, the first of which leaves.
use hop_desk.JsMap
use hop_desk.Presence.{
  Connection, Op, adds, opens, new_presence, run, remove, peer, is_that, step, add, announce,
  announce_to, open_session, end_each, end_session,
}
use hop_desk.Presence.History.{remove-clears}
use hop_desk.Common.{List, [], false, none, suc, zero, ℕ, ◌∷◌, ◌≡◌, refl, some, ◌⊎◌, true}
use hop_desk.JsMap.{JsMap}

presence : Unit {0}
unfolding remove end_each end_session new_presence run step add announce announce_to open_session
    JsMap.get JsMap.set
presence = tt

abbrev table : ℕ → Connection
table zero = record { device_id = "HD-A"; account_id = "acc" }
table (suc c) = record { device_id = "HD-B"; account_id = "acc" }

-- The device comes again over the connection 2, and only then the old one leaves.
abbrev returning : List Op
returning = adds 0 10 ∷ adds 1 11 ∷ opens "s" 0 1 12 ∷ adds 2 13 ∷ []

remove-clears_example :
    let before = run table new_presence returning in
    let s = remove table before 1 14 in
    (peer s "s" 1 ≡ none)
    × (is_that (JsMap.get "HD-B" s.online) 1 ≡ false)
    × ((is_that (JsMap.get "HD-B" before.online) 1 ≡ true)
        ⊎ (JsMap.get "HD-B" s.online ≡ JsMap.get "HD-B" before.online))
remove-clears_example = remove-clears table returning 1 14 "s" "HD-B"

newer_stays :
    JsMap.get "HD-B" (remove table (run table new_presence returning) 1 14).online ≡ some 2
unfolding presence
newer_stays = refl
