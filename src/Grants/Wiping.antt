-- ===== src/Grants/Wiping.antt =====
-- The ids of the store, and that a grant which is no longer in the store has no secret left.
use hop_desk.JsMap
use hop_desk.Grants.{
  GrantStore, Grant, size, Bytes, fill_zero, new_store, revoke_at, add_grant, extend, extend_found,
  find, find_at, find_found, issue, prune, revoke, revoke_all, revoke_each, revoke_ids,
  revoke_viewer,
}
use hop_desk.Common.{
  Bool-cases, String, [], arith, eq_iff, inl, inr, refl, some, ℕ, ◌<◌, ◌==◌, ◌∷◌, ◌≡◌, ◌⊎◌, ==_iff,
  Bool, List, Option, Option-cases, ap, false, if◌then◌else◌, none, subst, sym, true, ◌∙◌,
}
use hop_desk.JsMap.Laws.{IsMap, delete-IsMap, get-delete, get-set, get-set_self, set-IsMap}
use hop_desk.JsMap.{JsMap}

abbrev pub AllZero : Bytes → Type 0
AllZero [] = Unit {0}
AllZero (b ∷ bs) = (b ≡ 0) × AllZero bs

fill_zero-AllZero : (bs : Bytes) → AllZero (fill_zero bs)
unfolding fill_zero
fill_zero-AllZero [] = tt
fill_zero-AllZero (b ∷ bs) = (refl, fill_zero-AllZero bs)

-- Each grant stands under its own id, below `next`, and what the store does not hold is wiped.
pub record IsSound (s : GrantStore) : Type 0 where
  pub keys : IsMap s.grants
  pub placed :
      (k : String) (r : ℕ) → JsMap.get k s.grants ≡ some r → (r < s.next) × ((s.heap r).id ≡ k)
  pub wiped :
      (r : ℕ) → r < s.next → (JsMap.get (s.heap r).id s.grants ≡ some r) ⊎ AllZero (s.heap r).secret

pub new_store-IsSound : IsSound new_store
unfolding new_store JsMap.get
new_store-IsSound = record { keys = tt; placed = λ k r e. cc; wiped = λ r h. elim h [ ] }

revoke_at-IsSound :
    (s : GrantStore) (id : String) (r : ℕ)
    → JsMap.get id s.grants ≡ some r
    → IsSound s
    → IsSound (revoke_at s id r)
unfolding revoke_at
revoke_at-IsSound s id r e v = record {
  keys = delete-IsMap id s.grants v.keys;
  placed = λ k q f. ground (arith, get-delete id k s.grants v.keys, v.placed k q, eq_iff id k);
  wiped = λ q h. elim (Bool-cases (q == r)) [
    | inl same ↦ inr (rw same (fill_zero-AllZero (s.heap r).secret))
    | inr other ↦ rw other (elim (v.wiped q h) [
      | inl f ↦
          inl (ground (arith, get-delete id (s.heap q).id s.grants v.keys, eq_iff id (s.heap q).id))
      | inr z ↦ inr z
    ])
  ];
}

pub revoke-IsSound : (s : GrantStore) (id : String) → IsSound s → IsSound (revoke s id)
unfolding revoke
revoke-IsSound s id v = elim (Option-cases (JsMap.get id s.grants)) [
  | inl e ↦ rw e v
  | inr (r, e) ↦ rw e (revoke_at-IsSound s id r e v)
]

revoke_each-IsSound :
    (test : Grant → Bool) (s : GrantStore) (rs : List ℕ)
    → IsSound s
    → IsSound (revoke_each test s rs)
unfolding revoke_each
revoke_each-IsSound test s [] v = v
revoke_each-IsSound test s (r ∷ rs) v =
    revoke_each-IsSound test (if test (s.heap r) then revoke s (s.heap r).id else s) rs
      (tested (test (s.heap r)))
  where
    tested : (b : Bool) → IsSound (if b then revoke s (s.heap r).id else s)
    tested true = revoke-IsSound s (s.heap r).id v
    tested false = v

pub prune-IsSound : (s : GrantStore) (t : ℕ) → IsSound s → IsSound (prune s t)
unfolding prune
prune-IsSound s t v = revoke_each-IsSound _ s (JsMap.values s.grants) v

revoke_ids-IsSound : (s : GrantStore) (ids : List String) → IsSound s → IsSound (revoke_ids s ids)
unfolding revoke_ids
revoke_ids-IsSound s [] v = v
revoke_ids-IsSound s (id ∷ ids) v = revoke_ids-IsSound (revoke s id) ids (revoke-IsSound s id v)

-- An id that is in the store already would take the place of the grant there, and leave it unwiped.
add_grant-IsSound :
    (s : GrantStore) (grant : Grant)
    → JsMap.get grant.id s.grants ≡ none
    → IsSound s
    → IsSound (add_grant s grant).0
unfolding add_grant
add_grant-IsSound s grant new v = record {
  keys = set-IsMap grant.id s.next s.grants v.keys;
  placed =
      λ k r e. ground (arith, get-set grant.id k s.next s.grants, v.placed k r, eq_iff grant.id k);
  wiped = λ q h. elim (Bool-cases (q == s.next)) [
    | inl same ↦
        inl (
          rw same
            (get-set_self grant.id s.next s.grants ∙ ap some (sym ((==_iff q s.next).0 same))))
    | inr other ↦ rw other (elim (v.wiped q (ground arith)) [
      | inl f ↦ inl (
          ground
            (arith, get-set grant.id (s.heap q).id s.next s.grants, eq_iff grant.id (s.heap q).id))
      | inr z ↦ inr z
    ])
  ];
}

extend_found-IsSound :
    (s : GrantStore) (id : String) (ttl_ms t : ℕ) (o : Option ℕ)
    → IsSound s
    → IsSound (extend_found s ttl_ms t o)
extend_found-IsSound s id ttl_ms t none v = v
extend_found-IsSound s id ttl_ms t (some r) v = record {
  keys = v.keys;
  placed = λ k q e. ground (arith, v.placed k q);
  wiped =
      λ q h. elim (v.wiped q h) [ inl f ↦ inl (ground arith) | inr z ↦ inr (extended_secret q z) ];
}
  where
    extended_secret :
        (q : ℕ)
        → AllZero (s.heap q).secret
        → AllZero ((extend_found s ttl_ms t (some r)).heap q).secret
    extended_secret q z = elim (Bool-cases (q == r)) [
      | inl same ↦ rw same (subst (λ (x : ℕ). AllZero (s.heap x).secret) ((==_iff q r).0 same) z)
      | inr other ↦ rw other z
    ]

find_found-IsSound :
    (equal : Bytes → Bytes → Bool) (s : GrantStore) (id : String) (key : Bytes) (t : ℕ)
    (o : Option ℕ)
    → IsSound s
    → IsSound (find_found equal s id key t o).0
unfolding find_at
find_found-IsSound equal s id key t none v = v
find_found-IsSound equal s id key t (some r) v = ground (arith, revoke-IsSound s id v)

-- The operations of the store, and what each is given.
pub data Call : Type 0 where
  issues : (id : String) (secret viewer_key : Bytes) (ttl_ms t t' : ℕ) → Call
  finds : (id : String) (viewer_key : Bytes) (t : ℕ) → Call
  extends : (id : String) (ttl_ms t : ℕ) → Call
  revokes : (id : String) → Call
  revokes_viewer : (viewer_key : Bytes) → Call
  revokes_all : Call
  sizes : (t : ℕ) → Call

unfoldable pub step : (equal : Bytes → Bytes → Bool) → GrantStore → Call → GrantStore
step equal s (issues id secret key ttl_ms t t') = (issue s id secret key ttl_ms t t').0
step equal s (finds id key t) = (find equal s id key t).0
step equal s (extends id ttl_ms t) = extend s id ttl_ms t
step equal s (revokes id) = revoke s id
step equal s (revokes_viewer key) = revoke_viewer equal s key
step equal s revokes_all = revoke_all s
step equal s (sizes t) = (size s t).0

-- The random ids do not repeat one that the store holds.
abbrev pub IsNew : GrantStore → Call → Type 0
IsNew s (issues id secret key ttl_ms t t') = JsMap.get id (prune s t).grants ≡ none
IsNew s c = Unit {0}

-- Every operation keeps the store sound, `issue` if its random id is not that of a grant which is
-- there: each grant under its own id, and whatever the store no longer holds overwritten with zeros.
pub step-IsSound :
    (equal : Bytes → Bytes → Bool) (s : GrantStore) (c : Call)
    → IsSound s
    → IsNew s c
    → IsSound (step equal s c)
unfolding step issue find extend revoke_viewer revoke_all size prune
step-IsSound equal s (issues id secret key ttl_ms t t') v new =
    add_grant-IsSound (prune s t) _ new (revoke_each-IsSound _ s (JsMap.values s.grants) v)
step-IsSound equal s (finds id key t) v new =
    find_found-IsSound equal s id key t (JsMap.get id s.grants) v
step-IsSound equal s (extends id ttl_ms t) v new =
    extend_found-IsSound s id ttl_ms t (JsMap.get id s.grants) v
step-IsSound equal s (revokes id) v new = revoke-IsSound s id v
step-IsSound equal s (revokes_viewer key) v new = revoke_each-IsSound _ s (JsMap.values s.grants) v
step-IsSound equal s revokes_all v new = revoke_ids-IsSound s _ v
step-IsSound equal s (sizes t) v new = revoke_each-IsSound _ s (JsMap.values s.grants) v
