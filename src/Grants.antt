-- ===== src/Grants.antt =====
-- packages/protocol/src/grants.ts: `GrantStore`. A grant is an object that the store and whoever it
-- was handed to share, so grants stand in a heap by number and the map holds numbers: `revoke`
-- overwrites the secret in place. The random id and secret of `issue` and each reading of the clock
-- are arguments. `equal` stands for `equalBytes` of the crypto package.
use hop_desk.JsMap
pub mod Wiping
mod Revoking
mod Holding
mod Handing
pub mod Lookup
mod Tests
use hop_desk.Common.{
  Bool, List, Option, String, [], if◌then◌else◌, leb, map, max, none, set, some, suc, ℕ, ◌+◌, ◌==◌,
  ◌∷◌,
}
use hop_desk.JsMap.{JsMap}

abbrev pub Bytes : Type 0
Bytes = List ℕ

pub record Grant : Type 0 where
  pub id : String
  pub secret : Bytes
  pub viewer_key : Bytes
  pub expires_at : ℕ

pub record GrantStore : Type 0 where
  pub heap : ℕ → Grant
  pub next : ℕ
  pub grants : JsMap ℕ

abbrev no_grant : Grant
no_grant = record { id = ""; secret = []; viewer_key = []; expires_at = 0 }

unfoldable pub new_store : GrantStore
new_store = record { heap = λ r. no_grant; next = 0; grants = [] }

abbrev pub put : (ℕ → Grant) → ℕ → Grant → ℕ → Grant
put heap r g i = if i == r then g else heap i

-- `secret.fill(0)`
unfoldable pub fill_zero : Bytes → Bytes
fill_zero [] = []
fill_zero (b ∷ bs) = 0 ∷ fill_zero bs

-- `revoke(id)` of a grant that is there.
unfoldable pub revoke_at : GrantStore → String → ℕ → GrantStore
revoke_at s id r =
    let grant = s.heap r in
    record s {
      heap = put s.heap r (record grant { secret = fill_zero grant.secret });
      grants = JsMap.delete id s.grants;
    }

abbrev pub revoke_found : GrantStore → String → Option ℕ → GrantStore
revoke_found s id none = s
revoke_found s id (some r) = revoke_at s id r

unfoldable pub revoke : GrantStore → String → GrantStore
revoke s id = revoke_found s id (JsMap.get id s.grants)

-- A loop over a copy of the grants that revokes those that pass the test.
unfoldable pub revoke_each : (Grant → Bool) → GrantStore → List ℕ → GrantStore
revoke_each test s [] = s
revoke_each test s (r ∷ rs) =
    revoke_each test (if test (s.heap r) then revoke s (s.heap r).id else s) rs

unfoldable pub prune : GrantStore → ℕ → GrantStore
prune s t = revoke_each (λ g. leb g.expires_at t) s (JsMap.values s.grants)

unfoldable pub add_grant : GrantStore → Grant → GrantStore × ℕ
add_grant s grant = (
  record s {
    heap = put s.heap s.next grant;
    next = suc s.next;
    grants = JsMap.set grant.id s.next s.grants;
  },
  s.next,
)

-- `t` and `t'` are the clock at the pruning and at the making of the grant.
unfoldable pub issue :
    GrantStore → (id : String) → (secret viewer_key : Bytes) → (ttl_ms t t' : ℕ) → GrantStore × ℕ
issue s id secret viewer_key ttl_ms t t' =
    add_grant (prune s t)
      (record { id = id; secret = secret; viewer_key = viewer_key; expires_at = t' + ttl_ms })

unfoldable pub find_at :
    (equal : Bytes → Bytes → Bool) → GrantStore → String → Bytes → ℕ → ℕ → GrantStore × Option ℕ
find_at equal s id viewer_key t r =
    if leb (s.heap r).expires_at t
    then (revoke s id, none)
    else (s, if equal (s.heap r).viewer_key viewer_key then some r else none)

abbrev pub find_found :
    (equal : Bytes → Bytes → Bool)
    → GrantStore
    → String
    → Bytes
    → ℕ
    → Option ℕ
    → GrantStore × Option ℕ
find_found equal s id viewer_key t none = (s, none)
find_found equal s id viewer_key t (some r) = find_at equal s id viewer_key t r

unfoldable pub find :
    (equal : Bytes → Bytes → Bool) → GrantStore → String → Bytes → ℕ → GrantStore × Option ℕ
find equal s id viewer_key t = find_found equal s id viewer_key t (JsMap.get id s.grants)

abbrev pub extend_found : GrantStore → ℕ → ℕ → Option ℕ → GrantStore
extend_found s ttl_ms t none = s
extend_found s ttl_ms t (some r) =
    let grant = s.heap r in
    record s {
      heap = put s.heap r (record grant { expires_at = max grant.expires_at (t + ttl_ms) });
    }

unfoldable pub extend : GrantStore → String → ℕ → ℕ → GrantStore
extend s id ttl_ms t = extend_found s ttl_ms t (JsMap.get id s.grants)

unfoldable pub revoke_viewer : (equal : Bytes → Bytes → Bool) → GrantStore → Bytes → GrantStore
revoke_viewer equal s viewer_key =
    revoke_each (λ g. equal g.viewer_key viewer_key) s (JsMap.values s.grants)

-- The loop of `revokeAll` goes over the ids.
unfoldable pub revoke_ids : GrantStore → List String → GrantStore
revoke_ids s [] = s
revoke_ids s (id ∷ ids) = revoke_ids (revoke s id) ids

unfoldable pub revoke_all : GrantStore → GrantStore
revoke_all s = revoke_ids s (map (λ e. e.0) s.grants)

unfoldable pub size : GrantStore → ℕ → GrantStore × ℕ
size s t = let pruned = prune s t in (pruned, JsMap.size pruned.grants)
