-- ===== src/Trusted/Tests.antt =====
-- A device that is added, used and let go, over the toy primitives.
use hop_desk.Keys.Toy.{toy, toy-round}
use hop_desk.Trusted.{TrustOp, adds, asks, renews, prunes, new_trusted, run, trusts}
use hop_desk.Trusted.Refinement.{trusts-promised}
use hop_desk.Trusted.Promise.{promised, promise_run, nobody}
use hop_desk.Common.{List, [], refl, true, ◌∷◌, ◌≡◌}

abbrev pairing : List TrustOp
pairing =
    adds "HD-A" (7 ∷ []) "lap" 10 10 10
    ∷ asks "HD-A" (7 ∷ []) 20
    ∷ renews "HD-A" 20 20
    ∷ prunes 30
    ∷ []

still_promised : promised (promise_run nobody pairing) "HD-A" (7 ∷ []) 7_776_000_015 ≡ true
unfolding promise_run hop_desk.Encoding.equal_bytes
still_promised = refl

trusts-promised_example :
    (trusts toy (run toy new_trusted pairing) "HD-A" (7 ∷ []) 7_776_000_015).1
    ≡ promised (promise_run nobody pairing) "HD-A" (7 ∷ []) 7_776_000_015
trusts-promised_example = trusts-promised toy toy-round pairing "HD-A" (7 ∷ []) 7_776_000_015
