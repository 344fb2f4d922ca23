-- ===== src/Grants/Revoking.antt =====
-- What revoking a grant leaves of the others.
use hop_desk.JsMap
use hop_desk.Grants.{GrantStore, find, Bytes, revoke, revoke_at}
use hop_desk.Common.{
  Bool, Bool-cases, List, String, [], arith, eq_iff, eq_refl, if◌then◌else◌, inl, inr, none, some,
  str_eq, ℕ, ◌∷◌, ◌≡◌, ◌⊎◌, ◌≢◌,
}
use hop_desk.Grants.Wiping.{IsSound}
use hop_desk.JsMap.Laws.{get-delete, IsMap, get-cons_of_get, get-cons_self}
use hop_desk.JsMap.{JsMap}

-- Only the secret of a grant changes when it is revoked.
pub revoke_heap :
    (s : GrantStore) (id : String) (q : ℕ)
    → ((revoke s id).heap q).viewer_key ≡ (s.heap q).viewer_key
unfolding revoke revoke_at
revoke_heap s id q = ground arith

pub get-revoke :
    (s : GrantStore) (id k : String)
    → IsSound s
    → JsMap.get k (revoke s id).grants ≡ (if str_eq id k then none else JsMap.get k s.grants)
unfolding revoke revoke_at
get-revoke s id k v = ground (arith, get-delete id k s.grants v.keys, eq_iff id k)

-- A grant that was revoked is found no more, by anyone at any time.
pub find-revoke :
    (equal : Bytes → Bytes → Bool) (s : GrantStore) (id : String) (key : Bytes) (t : ℕ)
    → IsSound s
    → (find equal (revoke s id) id key t).1 ≡ none
unfolding find
find-revoke equal s id key t v = rw (get-revoke s id id v, eq_refl id)

abbrev pub In : ℕ → List ℕ → Type 0
In r [] = ⊥
In r (q ∷ rs) = (q ≡ r) ⊎ In r rs

pub In-values : (m : JsMap ℕ) (k : String) (r : ℕ) → JsMap.get k m ≡ some r → In r (JsMap.values m)
unfolding JsMap.get
In-values [] k r e = cc
In-values ((j, q) ∷ m) k r e = elim (Bool-cases (str_eq j k)) [
  | inl same ↦ inl (ground arith)
  | inr other ↦ inr (In-values m k r (ground arith))
]

-- What is there after a revocation was there before, and is another grant.
pub revoke-part :
    (s : GrantStore) (q : ℕ) (k : String) (r : ℕ)
    → IsSound s
    → JsMap.get k (revoke s (s.heap q).id).grants ≡ some r
    → (JsMap.get k s.grants ≡ some r) × (q ≢ r)
revoke-part s q k r v e =
    let there : JsMap.get k s.grants ≡ some r = ground (arith, get-revoke s (s.heap q).id k v) in
    (there, λ same. cc (rw (v.placed k r there).1 at (rw same at e), get-revoke s k k v, eq_refl k))

-- The grants of the list are in the store under their ids, or their ids are not.
abbrev pub Listed : GrantStore → List ℕ → Type 0
Listed s [] = Unit {0}
Listed s (q ∷ rs) =
    ((JsMap.get (s.heap q).id s.grants ≡ some q) ⊎ (JsMap.get (s.heap q).id s.grants ≡ none))
    × Listed s rs

revoke_id : (s : GrantStore) (id : String) (q : ℕ) → ((revoke s id).heap q).id ≡ (s.heap q).id
unfolding revoke revoke_at
revoke_id s id q = ground arith

pub revoke-Listed :
    (s : GrantStore) (id : String) (rs : List ℕ) → IsSound s → Listed s rs → Listed (revoke s id) rs
revoke-Listed s id [] v h = tt
revoke-Listed s id (q ∷ rs) v (here, h) = (
  rw (revoke_id s id q, get-revoke s id (s.heap q).id v) (ground arith),
  revoke-Listed s id rs v h,
)

pub values-Listed :
    (s : GrantStore) (m : JsMap ℕ)
    → IsSound s
    → IsMap m
    → ((k : String) (r : ℕ) → JsMap.get k m ≡ some r → JsMap.get k s.grants ≡ some r)
    → Listed s (JsMap.values m)
values-Listed s [] v h part = tt
values-Listed s ((k, q) ∷ m) v (fresh, h) part =
    let here = part k q (get-cons_self k q m) in
    (
      inl (rw (v.placed k q here).1 here),
      values-Listed s m v h (λ j r e. part j r (get-cons_of_get k j r q m fresh e)),
    )

pub revoke-keeps :
    (s : GrantStore) (q : ℕ) (k : String) (r : ℕ)
    → IsSound s
    → (JsMap.get (s.heap q).id s.grants ≡ some q) ⊎ (JsMap.get (s.heap q).id s.grants ≡ none)
    → JsMap.get k s.grants ≡ some r
    → (q ≢ r)
    → JsMap.get k (revoke s (s.heap q).id).grants ≡ some r
revoke-keeps s q k r v listed e ne =
    ground (arith, get-revoke s (s.heap q).id k v, eq_iff (s.heap q).id k)
