-- ===== src/Grants/Lookup.antt =====
-- Which grants a search finds: none that was revoked, none of another viewer, none that is over.
use hop_desk.Grants.Holding.{AllSpare, run, run-Holds}
use hop_desk.Grants.Handing.{
  find-Holds, issue-Holds, extend-Holds, extend_other-Holds, extend-grants, find_absent,
}
use hop_desk.Grants.Revoking.{
  revoke_heap, In, In-values, revoke-part, Listed, revoke-Listed, values-Listed, revoke-keeps,
}
use hop_desk.JsMap
use hop_desk.Grants.{
  GrantStore, find, Bytes, find_at, revoke, revoke_each, revoke_viewer, extend, issue, Grant,
}
use hop_desk.Common.{
  Bool, Bool-cases, List, Option-cases, String, [], arith, false, if◌then◌else◌, inl, inr, none,
  refl, some, true, ℕ, ◌<◌, ◌↔◌, ◌∷◌, ◌≡◌, ◌⊎◌, subst, ◌∙◌, ◌≢◌, ap, ltb, ◌+◌, ◌&&◌, max, sym,
}
use hop_desk.Grants.Wiping.{IsSound, revoke-IsSound, Call, IsNew, issues, step, step-IsSound}
use hop_desk.JsMap.{JsMap}

-- A search finds a grant exactly where it is there, not over and the viewer's.
find_iff :
    (equal : Bytes → Bytes → Bool) (s : GrantStore) (id : String) (key : Bytes) (t r : ℕ)
    → ((find equal s id key t).1 ≡ some r) ↔ (
        (JsMap.get id s.grants ≡ some r)
        × (t < (s.heap r).expires_at)
        × (equal (s.heap r).viewer_key key ≡ true))
unfolding find find_at
find_iff equal s id key t r = elim (Option-cases (JsMap.get id s.grants)) [
  | inl e ↦ rw e (λ h. cc, λ h. cc)
  | inr (q, e) ↦ rw e (λ h. ground arith, λ h. ground arith)
]

module _ (equal : Bytes → Bytes → Bool) (key : Bytes) where
  revokes : GrantStore → List ℕ → GrantStore
  revokes s rs = revoke_each (λ g. equal g.viewer_key key) s rs

  revokes-hit :
      (s : GrantStore) (q : ℕ) (rs : List ℕ)
      → equal (s.heap q).viewer_key key ≡ true
      → revokes s (q ∷ rs) ≡ revokes (revoke s (s.heap q).id) rs
  unfolding revokes revoke_each
  revokes-hit s q rs hit =
      ap
        (λ b.
          revoke_each (λ g. equal g.viewer_key key) (if b then revoke s (s.heap q).id else s) rs)
        hit

  revokes-miss :
      (s : GrantStore) (q : ℕ) (rs : List ℕ)
      → equal (s.heap q).viewer_key key ≡ false
      → revokes s (q ∷ rs) ≡ revokes s rs
  unfolding revokes revoke_each
  revokes-miss s q rs miss =
      ap
        (λ b.
          revoke_each (λ g. equal g.viewer_key key) (if b then revoke s (s.heap q).id else s) rs)
        miss

  revokes-nil : (s : GrantStore) → revokes s [] ≡ s
  unfolding revokes revoke_each
  revokes-nil s = refl

  -- The loop of `revokeViewer` leaves what was there before, and of the grants on its list only
  -- those of other viewers.
  revoke_each-get :
      (s : GrantStore) (rs : List ℕ) (k : String) (r : ℕ)
      → IsSound s
      → JsMap.get k (revokes s rs).grants ≡ some r
      → (JsMap.get k s.grants ≡ some r)
        × (In r rs → equal (s.heap r).viewer_key key ≡ false)
        × (((revokes s rs).heap r).viewer_key ≡ (s.heap r).viewer_key)
  revoke_each-get s [] k r v e = (rw revokes-nil at e, λ i. absurd i, rw revokes-nil)
  revoke_each-get s (q ∷ rs) k r v e = elim (Bool-cases (equal (s.heap q).viewer_key key)) [
    | inl hit ↦
        let v' = revoke-IsSound s (s.heap q).id v in
        let e' : JsMap.get k (revokes (revoke s (s.heap q).id) rs).grants ≡ some r =
          rw (revokes-hit s q rs hit) at e in
        let (there, rest, same) = revoke_each-get (revoke s (s.heap q).id) rs k r v' e' in
        let (before, ne) = revoke-part s q k r v there in
        (
          before,
          λ i. elim i [
            | inl here ↦ absurd (ne here)
            | inr i' ↦ rw (← revoke_heap s (s.heap q).id r) (rest i')
          ],
          rw (revokes-hit s q rs hit) (same ∙ revoke_heap s (s.heap q).id r),
        )
    | inr miss ↦
        let e' : JsMap.get k (revokes s rs).grants ≡ some r = rw (revokes-miss s q rs miss) at e in
        let (there, rest, same) = revoke_each-get s rs k r v e' in
        (
          there,
          λ i. elim i [
            | inl here ↦ subst (λ (x : ℕ). equal (s.heap x).viewer_key key ≡ false) here miss
            | inr i' ↦ rest i'
          ],
          rw (revokes-miss s q rs miss) same,
        )
  ]

  -- Of the grants on the list those of other viewers stay.
  revoke_each-keeps :
      (s : GrantStore) (rs : List ℕ) (k : String) (r : ℕ)
      → IsSound s
      → Listed s rs
      → JsMap.get k s.grants ≡ some r
      → equal (s.heap r).viewer_key key ≡ false
      → JsMap.get k (revokes s rs).grants ≡ some r
  revoke_each-keeps s [] k r v listed e other = rw revokes-nil e
  revoke_each-keeps s (q ∷ rs) k r v (here, listed) e other =
      elim (Bool-cases (equal (s.heap q).viewer_key key)) [
        | inl hit ↦
            let ne : q ≢ r = λ same. cc (rw same at hit) in
            rw (revokes-hit s q rs hit) (
              revoke_each-keeps (revoke s (s.heap q).id) rs k r (revoke-IsSound s (s.heap q).id v)
                (revoke-Listed s (s.heap q).id rs v listed) (revoke-keeps s q k r v here e ne)
                (rw (revoke_heap s (s.heap q).id r) other))
        | inr miss ↦ rw (revokes-miss s q rs miss) (revoke_each-keeps s rs k r v listed e other)
      ]

  not_found :
      (s : GrantStore) (id : String) (t : ℕ)
      → IsSound s
      → ((find equal (revoke_viewer equal s key) id key t).1 ≡ none)
        ⊎ ((r : ℕ) × ((find equal (revoke_viewer equal s key) id key t).1 ≡ some r))
      → (find equal (revoke_viewer equal s key) id key t).1 ≡ none
  unfolding revoke_viewer revokes
  not_found s id t v (inl e) = e
  not_found s id t v (inr (r, e)) =
      let (there, early, mine) = (find_iff equal _ id key t r).0 e in
      let (before, other, same) = revoke_each-get s (JsMap.values s.grants) id r v there in
      cc (other (In-values s.grants id r before), rw same at mine)

  -- After `revokeViewer` no grant of that viewer is found, and every grant of another viewer is
  -- where it was.
  pub find-revoke_viewer :
      (s : GrantStore) (id : String) (t : ℕ)
      → IsSound s
      → ((find equal (revoke_viewer equal s key) id key t).1 ≡ none)
        × ((r : ℕ)
            → JsMap.get id s.grants ≡ some r
            → equal (s.heap r).viewer_key key ≡ false
            → JsMap.get id (revoke_viewer equal s key).grants ≡ some r)
  unfolding revoke_viewer revokes
  find-revoke_viewer s id t v = (
    not_found s id t v (Option-cases (find equal (revoke_viewer equal s key) id key t).1),
    λ r e other.
        revoke_each-keeps s (JsMap.values s.grants) id r v
          (values-Listed s s.grants v v.keys (λ k q f. f)) e other,
  )

-- A grant that `issue` makes under a new id, after whatever calls come next that leave it alone:
-- none that revokes or extends it or gives its id again, each before its time is over. Then a search
-- with its id finds it exactly until its time is over, and exactly for the key it was issued to.
pub find-issue :
    (equal : Bytes → Bytes → Bool) (s : GrantStore) (id : String) (secret key : Bytes)
    (ttl_ms t t' : ℕ) (cs : List Call) (other : Bytes) (now : ℕ)
    → IsSound s
    → IsNew s (issues id secret key ttl_ms t t')
    → AllSpare equal id key (t' + ttl_ms) (issue s id secret key ttl_ms t t').0 cs
    → (find equal (run equal (issue s id secret key ttl_ms t t').0 cs) id other now).1 ≡ (
        if ltb now (t' + ttl_ms) && equal key other
        then some (issue s id secret key ttl_ms t t').1
        else none)
find-issue equal s id secret key ttl_ms t t' cs other now v new spare =
    let made = issue s id secret key ttl_ms t t' in
    let g : Grant = record {
      id = id;
      secret = secret;
      viewer_key = key;
      expires_at = t' + ttl_ms;
    } in
    let v' : IsSound made.0 =
      unfold step in step-IsSound equal s (issues id secret key ttl_ms t t') v new in
    find-Holds equal (run equal made.0 cs) id made.1 g other now
      (run-Holds id made.1 g equal made.0 cs spare v' (issue-Holds s id secret key ttl_ms t t'))

-- `extend` of a grant that is in the store, even after its time was over: a search finds it exactly
-- until the later of its old and its new end, and for its viewer; any other grant is found as before.
pub find-extend :
    (equal : Bytes → Bytes → Bool) (s : GrantStore) (id j : String) (ttl_ms t r now : ℕ)
    (key : Bytes)
    → IsSound s
    → JsMap.get id s.grants ≡ some r
    → id ≢ j
    → ((find equal (extend s id ttl_ms t) id key now).1 ≡ (
        if ltb now (max (s.heap r).expires_at (t + ttl_ms)) && equal (s.heap r).viewer_key key
        then some r
        else none))
      × ((find equal (extend s id ttl_ms t) j key now).1 ≡ (find equal s j key now).1)
find-extend equal s id j ttl_ms t r now key v e ne = (
  find-Holds equal (extend s id ttl_ms t) id r
      (record (s.heap r) { expires_at = max (s.heap r).expires_at (t + ttl_ms) }) key now
      (extend-Holds s id ttl_ms t r e),
  others (Option-cases (JsMap.get j s.grants)),
)
  where
    others :
        (JsMap.get j s.grants ≡ none) ⊎ ((q : ℕ) × (JsMap.get j s.grants ≡ some q))
        → (find equal (extend s id ttl_ms t) j key now).1 ≡ (find equal s j key now).1
    others (inl f) =
        find_absent equal (extend s id ttl_ms t) j key now
          (ap (JsMap.get j) (extend-grants s id ttl_ms t) ∙ f)
        ∙ sym (find_absent equal s j key now f)
    others (inr (q, f)) =
        find-Holds equal (extend s id ttl_ms t) j q (s.heap q) key now
          (extend_other-Holds s id j ttl_ms t q v ne f)
        ∙ sym (find-Holds equal s j q (s.heap q) key now (record { there = f; same = refl }))
