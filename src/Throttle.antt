-- ===== src/Throttle.antt =====
-- packages/protocol/src/limiter.ts: `PeerThrottle`, the brake on connections that need no access
-- code. The clock is an argument of each call.
use hop_desk.JsMap
pub mod Windows
pub mod Rate
mod Tests
use hop_desk.Common.{
  List, Option, String, [], if◌then◌else◌, leb, ltb, none, not, set, some, suc, ℕ, ◌&&◌, ◌+◌, ◌-◌,
  ◌∷◌,
}
use hop_desk.JsMap.{JsMap}

pub record ThrottlePolicy : Type 0 where
  pub per_window : ℕ
  pub window_ms : ℕ
  pub max_peers : ℕ

abbrev pub default_throttle_policy : ThrottlePolicy
default_throttle_policy = record { per_window = 15; window_ms = 10_000; max_peers = 1024 }

pub record Window : Type 0 where
  pub count : ℕ
  pub until : ℕ

pub record PeerThrottle : Type 0 where
  pub policy : ThrottlePolicy
  pub windows : JsMap Window

unfoldable pub new_throttle : ThrottlePolicy → PeerThrottle
new_throttle policy = record { policy = policy; windows = [] }

pub data Allowed : Type 0 where
  allowed : Allowed
  wait : (retry_after_ms : ℕ) → Allowed

-- `this.windows.get(peer) ?? { count: 0, until: t + windowMs }`
unfoldable pub window_or_new : ThrottlePolicy → ℕ → Option Window → Window
window_or_new policy t none = record { count = 0; until = t + policy.window_ms }
window_or_new policy t (some w) = w

-- A window that is over starts again.
unfoldable pub restart : ThrottlePolicy → ℕ → Window → Window
restart policy t w = if leb w.until t then record { count = 0; until = t + policy.window_ms } else w

unfoldable pub count_in : PeerThrottle → String → ℕ → Window → PeerThrottle × Allowed
count_in s peer t w =
    let counted = record w { count = suc w.count } in
    (
      record s { windows = JsMap.set peer counted s.windows },
      if ltb s.policy.per_window counted.count then wait (counted.until - t) else allowed,
    )

unfoldable pub drop_over : PeerThrottle → ℕ → PeerThrottle
drop_over s t = record s { windows = JsMap.keep (λ key w. ltb t w.until) s.windows }

unfoldable pub admit : PeerThrottle → String → ℕ → PeerThrottle × Allowed
admit s peer t =
    if leb s.policy.max_peers (JsMap.size s.windows) && not (JsMap.has peer s.windows)
    then (s, wait s.policy.window_ms)
    else count_in s peer t
        (restart s.policy t (window_or_new s.policy t (JsMap.get peer s.windows)))

unfoldable pub allow : PeerThrottle → String → ℕ → PeerThrottle × Allowed
allow s peer t = admit (drop_over s t) peer t

unfoldable pub run : PeerThrottle → List (String × ℕ) → PeerThrottle
run s [] = s
run s ((peer, t) ∷ cs) = run (allow s peer t).0 cs
