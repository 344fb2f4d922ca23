-- ===== src/Grants/Tests.antt =====
-- The grant store run on concrete calls, and its theorems at such calls.
use hop_desk.Grants.Holding.{AllSpare, run}
use hop_desk.Grants.Revoking.{find-revoke}
use hop_desk.JsMap
use hop_desk.Grants.{
  find, Bytes, GrantStore, add_grant, extend, fill_zero, find_at, issue, new_store, prune, revoke,
  revoke_at, revoke_each, revoke_viewer,
}
use hop_desk.Grants.Wiping.{
  step, IsNew, IsSound, finds, issues, new_store-IsSound, step-IsSound, Call, revokes, sizes,
  extends,
}
use hop_desk.Common.{
  Bool, [], arith, false, if◌then◌else◌, ltb, none, refl, some, true, ℕ, ◌&&◌, ◌+◌, ◌==◌, ◌∷◌, ◌≡◌,
  List, ◌≢◌, str_eq, eq_iff, max, String,
}
use hop_desk.Grants.Lookup.{find-extend, find-issue, find-revoke_viewer}
use hop_desk.JsMap.{JsMap}

store : Unit {0}
unfolding new_store issue add_grant prune revoke_each revoke revoke_at fill_zero find find_at extend
    revoke_viewer JsMap.get JsMap.set JsMap.delete
store = tt

-- Equality of short keys, for the tests.
same_bytes : Bytes → Bytes → Bool
same_bytes [] [] = true
same_bytes (a ∷ as') (b ∷ bs) = a == b && same_bytes as' bs
same_bytes _ _ = false

abbrev one : GrantStore
one = (issue new_store "g" (7 ∷ 8 ∷ []) (1 ∷ []) 100 5 6).0

abbrev two : GrantStore
two = (issue one "h" (9 ∷ []) (2 ∷ []) 100 7 8).0

found : (find same_bytes two "g" (1 ∷ []) 50).1 ≡ some 0
unfolding store same_bytes
found = refl

not_found :
    ((find same_bytes two "g" (2 ∷ []) 50).1 ≡ none)
    × ((find same_bytes two "g" (1 ∷ []) 106).1 ≡ none)
unfolding store same_bytes
not_found = (refl, refl)

-- The secret of a grant that is over is overwritten, also for whoever holds the object.
wiped_secret : (((find same_bytes two "g" (1 ∷ []) 106).0).heap 0).secret ≡ 0 ∷ 0 ∷ []
unfolding store same_bytes
wiped_secret = refl

one-IsSound : IsSound one
unfolding step
one-IsSound =
    step-IsSound same_bytes new_store (issues "g" (7 ∷ 8 ∷ []) (1 ∷ []) 100 5 6) new_store-IsSound
      new_id
  where
    new_id : IsNew new_store (issues "g" (7 ∷ 8 ∷ []) (1 ∷ []) 100 5 6)
    new_id = unfold store in refl

step-IsSound_example : IsSound (step same_bytes one (finds "g" (1 ∷ []) 106))
step-IsSound_example = step-IsSound same_bytes one (finds "g" (1 ∷ []) 106) one-IsSound tt

find-revoke_example : (find same_bytes (revoke one "g") "g" (1 ∷ []) 7).1 ≡ none
find-revoke_example = find-revoke same_bytes one "g" (1 ∷ []) 7 one-IsSound

find-revoke_viewer_example :
    ((find same_bytes (revoke_viewer same_bytes one (1 ∷ [])) "g" (1 ∷ []) 7).1 ≡ none)
    × ((r : ℕ)
        → JsMap.get "g" one.grants ≡ some r
        → same_bytes (one.heap r).viewer_key (1 ∷ []) ≡ false
        → JsMap.get "g" (revoke_viewer same_bytes one (1 ∷ [])).grants ≡ some r)
find-revoke_viewer_example = find-revoke_viewer same_bytes (1 ∷ []) one "g" 7 one-IsSound

-- Calls that leave the grant "h" alone.
abbrev around : List Call
around = finds "h" (2 ∷ []) 20 ∷ revokes "g" ∷ sizes 90 ∷ extends "x" 50 95 ∷ []

h_ne : (j : String) → str_eq j "h" ≡ false → j ≢ "h"
h_ne j n e = ground (arith, eq_iff j "h")

h-IsNew : IsNew one (issues "h" (9 ∷ []) (2 ∷ []) 100 7 8)
unfolding store
h-IsNew = refl

around_spares :
    AllSpare same_bytes "h" (2 ∷ []) 108 (issue one "h" (9 ∷ []) (2 ∷ []) 100 7 8).0 around
around_spares = (omega arith, tt, (h_ne "g" refl, tt, (omega arith, tt, (h_ne "x" refl, tt, tt))))

find-issue_example :
    (find same_bytes
      (run same_bytes (issue one "h" (9 ∷ []) (2 ∷ []) 100 7 8).0 around)
      "h"
      (2 ∷ [])
      107).1
    ≡ (if ltb 107 (8 + 100) && same_bytes (2 ∷ []) (2 ∷ [])
        then some (issue one "h" (9 ∷ []) (2 ∷ []) 100 7 8).1
        else none)
find-issue_example =
    find-issue same_bytes one "h" (9 ∷ []) (2 ∷ []) 100 7 8 around (2 ∷ []) 107 one-IsSound h-IsNew
      around_spares

g_place : JsMap.get "g" one.grants ≡ some 0
unfolding store
g_place = refl

-- The grant "g" ends at 106, and is extended at 500.
find-extend_example :
    ((find same_bytes (extend one "g" 100 500) "g" (1 ∷ []) 599).1 ≡ (
      if ltb 599 (max (one.heap 0).expires_at (500 + 100))
        && same_bytes (one.heap 0).viewer_key (1 ∷ [])
      then some 0
      else none))
    × ((find same_bytes (extend one "g" 100 500) "h" (1 ∷ []) 599).1
        ≡ (find same_bytes one "h" (1 ∷ []) 599).1)
find-extend_example =
    find-extend same_bytes one "g" "h" 100 500 0 599 (1 ∷ []) one-IsSound g_place (h_ne "g" refl)

stays_long : (find same_bytes (extend one "g" 10 20) "g" (1 ∷ []) 105).1 ≡ some 0
unfolding store same_bytes
stays_long = refl
