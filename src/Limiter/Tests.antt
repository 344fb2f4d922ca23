-- ===== src/Limiter/Tests.antt =====
-- The limiter run on concrete calls, and its theorems at such calls.
use hop_desk.JsMap
use hop_desk.Limiter.{
  run, Attempt, AttemptLimiter, Call, allocate, begin, begins, busy, count_failure, decide,
  default_limiter_policy, evict, find_record, forgettable, granted, locked, lockout_ms, new_limiter,
  older, oldest_from, prune, punish, refused, reset_for_new_code, settle, settle_found, settle_open,
  settles, step, touch, resets,
}
use hop_desk.Limiter.Budget.{guess_budget, codes_by_hand, grants, wins}
use hop_desk.Limiter.History.{IsSound, new_limiter-IsSound, open_of, run-IsSound, run_caps}
use hop_desk.Common.{
  List, String, [], arith, eq_iff, false, get_elem?, refl, some, suc, zero, ℕ, ◌*◌, ◌+◌, ◌<◌, ◌∷◌,
  ◌≡◌, ◌≤◌,
}
use hop_desk.Limiter.Lockout.{fail-begin_locked, settle_isolated}
use hop_desk.Limiter.Counts.{open_in}
use hop_desk.Limiter.Memory.{run_tracked_peers}
use hop_desk.JsMap.{JsMap}

limiter : Unit {0}
unfolding run step begin find_record touch allocate evict prune decide forgettable settle
    settle_found settle_open count_failure punish lockout_ms new_limiter reset_for_new_code
    JsMap.get JsMap.set JsMap.keep JsMap.delete older oldest_from
limiter = tt

abbrev start : AttemptLimiter
start = new_limiter default_limiter_policy

-- Two attempts of one peer are let through, the third is told that the host is busy.
abbrev two_pending : List Call
two_pending = begins "a" 5 ∷ begins "a" 6 ∷ begins "a" 7 ∷ []

busy_third : (begin (run start (begins "a" 5 ∷ begins "a" 6 ∷ [])) "a" 7).1 ≡ refused 1000 busy
unfolding limiter
busy_third = refl

-- Three failures in a row lock the peer out for two seconds, and another peer not at all.
abbrev three_failures : List Call
three_failures =
    begins "a" 1
    ∷ settles 0 false 2 2
    ∷ begins "a" 3
    ∷ settles 1 false 4 4
    ∷ begins "a" 5
    ∷ settles 2 false 6 6
    ∷ []

locked_out : (begin (run start three_failures) "a" 1000).1 ≡ refused 1006 locked
unfolding limiter
locked_out = refl

not_locked_out : (begin (run start three_failures) "b" 1000).1 ≡ granted 3
unfolding limiter
not_locked_out = refl

-- The tenth failure replaces the code.
abbrev failing : ℕ → List Call → List Call
failing zero cs = cs
failing (suc n) cs =
    failing n (begins "p" (1_000_000 * n) ∷ settles n false (1_000_000 * n) (1_000_000 * n) ∷ cs)

rotated : (run start (failing 10 [])).rotations ≡ 1
unfolding limiter
rotated = refl

-- Nine failures, and three attempts in flight: twelve guesses at one code.
abbrev twelve : List Call
twelve = failing 9 (begins "x" 50_000_000 ∷ begins "y" 50_000_000 ∷ begins "z" 50_000_000 ∷ [])

twelve_guesses : (grants start twelve ≡ 12) × ((run start twelve).rotations ≡ 0)
unfolding limiter grants
twelve_guesses = (refl, refl)

run_caps_example :
    (open_in (run start two_pending).attempts ≤ 3)
    × (open_of "a" (run start two_pending).attempts ≤ 2)
run_caps_example = run_caps default_limiter_policy two_pending "a"

guess_budget_example :
    grants start twelve
    < wins start twelve + 10 * ((run start twelve).rotations + codes_by_hand twelve + 1) + 3
guess_budget_example = guess_budget default_limiter_policy twelve (omega arith)

run_tracked_peers_example : JsMap.size (run start twelve).peers ≤ 1024
run_tracked_peers_example = run_tracked_peers default_limiter_policy twelve (omega arith)

-- One attempt of one peer is open, after two that failed.
abbrev third_open : AttemptLimiter
third_open = run start (
    begins "a" 1
    ∷ settles 0 false 2 2
    ∷ begins "a" 3
    ∷ settles 1 false 4 4
    ∷ begins "b" 4
    ∷ begins "a" 5
    ∷ [])

third_open-IsSound : IsSound third_open
third_open-IsSound = run-IsSound start _ (new_limiter-IsSound default_limiter_policy)

abbrev third : Attempt
third = record { owner = "a"; target = 0; settled = false }

third_at : get_elem? third_open.attempts 3 ≡ some third
unfolding limiter
third_at = refl

third_consecutive : (third_open.heap 0).consecutive ≡ 2
unfolding limiter
third_consecutive = refl

third_policy : third_open.policy ≡ default_limiter_policy
unfolding limiter
third_policy = refl

-- Another peer comes while "a" is locked out, and "a" itself.
abbrev meanwhile : List Call
meanwhile = begins "c" 900 ∷ begins "a" 950 ∷ resets ∷ []

still_there : JsMap.get "a" (run (settle third_open 3 false 6 6) meanwhile).peers ≡ some 0
unfolding limiter
still_there = refl

fail-begin_locked_example :
    (wait : ℕ) × ((begin (run (settle third_open 3 false 6 6) meanwhile) "a" 1000).1
      ≡ refused wait locked)
    × (6 + lockout_ms third_open.policy (suc (third_open.heap 0).consecutive) ≤ 1000 + wait)
unfolding limiter
fail-begin_locked_example =
    fail-begin_locked third_open 3 third 6 6 1000 meanwhile third_open-IsSound third_at refl
      (omega arith) still_there (omega arith)

b_place : JsMap.get "b" third_open.peers ≡ some 1
unfolding limiter
b_place = refl

settle_isolated_example :
    (JsMap.get "b" (settle third_open 3 false 6 6).peers ≡ some 1)
    × ((settle third_open 3 false 6 6).heap 1 ≡ third_open.heap 1)
settle_isolated_example =
    settle_isolated third_open 3 third false 6 6 "b" 1 third_open-IsSound third_at refl b_ne_a
      b_place
  where
    b_ne_a : ◌≡◌ {A = String} "b" "a" → ⊥
    b_ne_a e = ground (arith, eq_iff "b" "a")
