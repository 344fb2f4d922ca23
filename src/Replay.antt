-- ===== src/Replay.antt =====
-- packages/protocol/src/replay.ts: `NonceCache`. The clock is an argument of each call.
use hop_desk.JsMap
pub mod Entries
pub mod Freshness
mod Tests
use hop_desk.Common.{List, String, [], if◌then◌else◌, leb, ltb, set, ℕ, ◌*◌, ◌-◌, ◌∷◌}
use hop_desk.JsMap.{JsMap}

pub record NonceCache : Type 0 where
  pub window_ms : ℕ
  pub max_entries : ℕ
  pub seen : JsMap ℕ

abbrev pub new_cache : ℕ → ℕ → NonceCache
new_cache window_ms max_entries = record {
  window_ms = window_ms;
  max_entries = max_entries;
  seen = [];
}

abbrev pub default_cache : NonceCache
default_cache = new_cache 600_000 10_000

pub data Verdict : Type 0 where
  fresh replay clock_skew : Verdict

-- `Math.abs(t - time)`
unfoldable pub distance : ℕ → ℕ → ℕ
distance t time = if ltb t time then time - t else t - time

-- The loop of `prune`: it deletes from the front and stops at the first entry that is not old.
unfoldable pub drop_old : ℕ → ℕ → JsMap ℕ → JsMap ℕ
drop_old window_ms t [] = []
drop_old window_ms t ((nonce, at) ∷ m) =
    if leb (t - at) (2 * window_ms) then (nonce, at) ∷ m else drop_old window_ms t m

unfoldable pub prune : NonceCache → ℕ → NonceCache
prune c t = record c { seen = drop_old c.window_ms t c.seen }

abbrev pub drop_first : JsMap ℕ → JsMap ℕ
drop_first [] = []
drop_first ((nonce, at) ∷ m) = JsMap.delete nonce ((nonce, at) ∷ m)

unfoldable pub make_room : NonceCache → NonceCache
make_room c =
    if leb c.max_entries (JsMap.size c.seen) then record c { seen = drop_first c.seen } else c

unfoldable pub remember : NonceCache → String → ℕ → NonceCache
remember c nonce t = record c { seen = JsMap.set nonce t c.seen }

unfoldable pub look_up : NonceCache → String → ℕ → NonceCache × Verdict
look_up c nonce t =
    if JsMap.has nonce c.seen then (c, replay) else (remember (make_room c) nonce t, fresh)

unfoldable pub check : NonceCache → String → (time : ℕ) → (t : ℕ) → NonceCache × Verdict
check c nonce time t =
    if ltb c.window_ms (distance t time) then (c, clock_skew) else look_up (prune c t) nonce t

-- A hello: its nonce, the time it claims, and the host's clock when it arrives.
pub record Arrival : Type 0 where
  pub nonce : String
  pub time : ℕ
  pub clock : ℕ

unfoldable pub run : NonceCache → List Arrival → NonceCache
run c [] = c
run c (a ∷ as') = run (check c a.nonce a.time a.clock).0 as'
