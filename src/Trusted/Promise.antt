-- ===== src/Trusted/Promise.antt =====
-- What the store of trusted devices promises, of keys and their expiry alone.
use hop_desk.Bytes.{Bytes}
use hop_desk.Encoding.{equal_bytes}
use hop_desk.Trusted.{TrustOp, adds, asks, renews, removes, prunes, trust_ttl_ms}
use hop_desk.Common.{
  Bool, List, Option, String, [], false, if◌then◌else◌, leb, none, some, str_eq, ℕ, ◌+◌, ◌∷◌,
}

-- A key and its expiry for each name.
abbrev pub Trust : Type 0
Trust = String → Option (Bytes × ℕ)

abbrev pub nobody : Trust
nobody id = none

abbrev pub put : Trust → String → Option (Bytes × ℕ) → Trust
put f id v j = if str_eq id j then v else f j

abbrev pub live : ℕ → Option (Bytes × ℕ) → Option (Bytes × ℕ)
live t none = none
live t (some (key, expiry)) = if leb expiry t then none else some (key, expiry)

abbrev pub renewed : ℕ → Option (Bytes × ℕ) → Option (Bytes × ℕ)
renewed expiry none = none
renewed expiry (some (key, old)) = some (key, expiry)

abbrev pub promised_of : Option (Bytes × ℕ) → Bytes → Bool
promised_of none key = false
promised_of (some (k, expiry)) key = equal_bytes k key

abbrev pub promised : Trust → String → Bytes → ℕ → Bool
promised f id key t = promised_of (live t (f id)) key

abbrev pub promise_step : Trust → TrustOp → Trust
promise_step f (adds id key name t t' t'') = put f id (some (key, t'' + trust_ttl_ms))
promise_step f (asks id key t) = put f id (live t (f id))
promise_step f (renews id t t') = put f id (renewed (t' + trust_ttl_ms) (f id))
promise_step f (removes id) = put f id none
promise_step f (prunes t) = λ j. live t (f j)

unfoldable pub promise_run : Trust → List TrustOp → Trust
promise_run f [] = f
promise_run f (o ∷ os) = promise_run (promise_step f o) os
