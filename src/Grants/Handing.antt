-- ===== src/Grants/Handing.antt =====
-- What a search finds of a grant that the store has, and of one that was issued or extended.
use hop_desk.Grants.Holding.{Holds, extend_found-Holds}
use hop_desk.JsMap
use hop_desk.JsMap.{JsMap}
use hop_desk.JsMap.Laws.{get-set_self}
use hop_desk.Grants.{
  GrantStore, Grant, Bytes, add_grant, find_at, extend_found, extend, find, issue, prune,
}
use hop_desk.Grants.Wiping.{IsSound}
use hop_desk.Common.{
  Bool, Option, String, arith, if◌then◌else◌, none, some, ℕ, ◌≡◌, ◌≢◌, refl, max, ◌+◌, ltb, ◌&&◌,
}

-- A search in a store that has the grant.
pub find-Holds :
    (equal : Bytes → Bytes → Bool) (s : GrantStore) (id : String) (r : ℕ) (g : Grant) (key : Bytes)
    (now : ℕ)
    → Holds id r g s
    → (find equal s id key now).1
      ≡ (if ltb now g.expires_at && equal g.viewer_key key then some r else none)
unfolding find find_at
find-Holds equal s id r g key now h = rw (h.there, h.same) (ground arith)

-- The grant that was issued.
pub issue-Holds :
    (s : GrantStore) (id : String) (secret key : Bytes) (ttl_ms t t' : ℕ)
    → Holds id
        (issue s id secret key ttl_ms t t').1
        (record { id = id; secret = secret; viewer_key = key; expires_at = t' + ttl_ms })
        (issue s id secret key ttl_ms t t').0
unfolding issue add_grant
issue-Holds s id secret key ttl_ms t t' = record {
  there = get-set_self id (prune s t).next (prune s t).grants;
  same = ground arith;
}

-- The grant that was extended, and any other.
pub extend-Holds :
    (s : GrantStore) (id : String) (ttl_ms t r : ℕ)
    → JsMap.get id s.grants ≡ some r
    → Holds id r
        (record (s.heap r) { expires_at = max (s.heap r).expires_at (t + ttl_ms) })
        (extend s id ttl_ms t)
unfolding extend
extend-Holds s id ttl_ms t r e = rw e (record { there = e; same = ground arith })

pub extend_other-Holds :
    (s : GrantStore) (id j : String) (ttl_ms t q : ℕ)
    → IsSound s
    → id ≢ j
    → JsMap.get j s.grants ≡ some q
    → Holds j q (s.heap q) (extend s id ttl_ms t)
unfolding extend
extend_other-Holds s id j ttl_ms t q v ne e =
    extend_found-Holds j q (s.heap q) s id ttl_ms t (JsMap.get id s.grants) ne v
      (record { there = e; same = refl }) refl

extend_found-grants :
    (s : GrantStore) (ttl_ms t : ℕ) (o : Option ℕ) → (extend_found s ttl_ms t o).grants ≡ s.grants
extend_found-grants s ttl_ms t none = refl
extend_found-grants s ttl_ms t (some r) = refl

pub extend-grants :
    (s : GrantStore) (id : String) (ttl_ms t : ℕ) → (extend s id ttl_ms t).grants ≡ s.grants
unfolding extend
extend-grants s id ttl_ms t = extend_found-grants s ttl_ms t (JsMap.get id s.grants)

pub find_absent :
    (equal : Bytes → Bytes → Bool) (s : GrantStore) (id : String) (key : Bytes) (now : ℕ)
    → JsMap.get id s.grants ≡ none
    → (find equal s id key now).1 ≡ none
unfolding find
find_absent equal s id key now e = rw e refl
