-- ===== src/Grants/Holding.antt =====
-- A grant stays in the store, as it is, through every call that does not end it.
use hop_desk.JsMap
use hop_desk.JsMap.{JsMap}
use hop_desk.JsMap.Laws.{get-set}
use hop_desk.Grants.{
  GrantStore, Grant, Bytes, revoke, revoke_at, revoke_each, add_grant, find_at, find_found,
  extend_found, extend, find, issue, prune, revoke_viewer, size, fill_zero, put,
}
use hop_desk.Grants.Wiping.{
  IsSound, Call, issues, finds, extends, revokes, revokes_viewer, revokes_all, sizes, step, IsNew,
  step-IsSound, revoke-IsSound, prune-IsSound,
}
use hop_desk.Grants.Revoking.{Listed, revoke-Listed, values-Listed, get-revoke}
use hop_desk.Common.{
  Bool, Bool-cases, List, Option, Option-cases, String, [], arith, eq_iff, false, inl, inr, none,
  some, ℕ, ◌<◌, ◌∷◌, ◌≡◌, ◌⊎◌, ◌≢◌, leb, ◌∙◌, refl, sym, ap, ◌==◌, max, ◌+◌, some_injective,
  none≢some, false≢true, if_false, if_cases,
}

-- The store has the grant `g`, at the place `r`.
pub record Holds (id : String) (r : ℕ) (g : Grant) (s : GrantStore) : Type 0 where
  pub there : JsMap.get id s.grants ≡ some r
  pub same : s.heap r ≡ g

-- The calls in the course of which a grant with this id, viewer and end is neither revoked nor
-- extended, and no reading of the clock has come to its end.
abbrev pub Spares : (equal : Bytes → Bytes → Bool) → String → Bytes → ℕ → Call → Type 0
Spares equal id key over (issues j secret k ttl_ms t t') = (j ≢ id) × (t < over)
Spares equal id key over (finds j k t) = t < over
Spares equal id key over (extends j ttl_ms t) = j ≢ id
Spares equal id key over (revokes j) = j ≢ id
Spares equal id key over (revokes_viewer k) = equal key k ≡ false
Spares equal id key over revokes_all = ⊥
Spares equal id key over (sizes t) = t < over

unfoldable pub run : (equal : Bytes → Bytes → Bool) → GrantStore → List Call → GrantStore
run equal s [] = s
run equal s (c ∷ cs) = run equal (step equal s c) cs

abbrev pub AllSpare :
    (equal : Bytes → Bytes → Bool) → String → Bytes → ℕ → GrantStore → List Call → Type 0
AllSpare equal id key over s [] = Unit {0}
AllSpare equal id key over s (c ∷ cs) =
    Spares equal id key over c × IsNew s c × AllSpare equal id key over (step equal s c) cs

put_ne : (heap : ℕ → Grant) (q r : ℕ) (x : Grant) → q ≢ r → put heap q x r ≡ heap r
put_ne heap q r x ne = if_false (r == q) x (heap r) (apart r q (λ e. ne (sym e)))
  where
    apart : (a b : ℕ) → a ≢ b → (a == b) ≡ false
    apart a b n = ground arith

module _ (id : String) (r : ℕ) (g : Grant) where
  -- Grants of different ids have different places.
  other_place :
      (s : GrantStore) (j : String) (q : ℕ)
      → IsSound s
      → Holds id r g s
      → JsMap.get j s.grants ≡ some q
      → j ≢ id
      → q ≢ r
  other_place s j q v h e ne same =
      ne (sym (v.placed j q e).1 ∙ ap (λ (x : ℕ). (s.heap x).id) same ∙ (v.placed id r h.there).1)

  revoke-Holds :
      (s : GrantStore) (j : String)
      → IsSound s
      → j ≢ id
      → Holds id r g s
      → Holds id r g (revoke s j)
  unfolding revoke revoke_at
  revoke-Holds s j v ne h = record {
    there = ground (arith, get-revoke s j id v, eq_iff j id, h.there);
    same = kept (Option-cases (JsMap.get j s.grants));
  }
    where
      kept :
          (JsMap.get j s.grants ≡ none) ⊎ ((q : ℕ) × (JsMap.get j s.grants ≡ some q))
          → (revoke s j).heap r ≡ g
      kept (inl e) = rw e h.same
      kept (inr (q, e)) = rw e (
          put_ne s.heap q r (record (s.heap q) { secret = fill_zero (s.heap q).secret })
            (other_place s j q v h e ne)
          ∙ h.same)

  -- The grant of another place has another id, if it is listed.
  other_id :
      (s : GrantStore) (q : ℕ)
      → (JsMap.get (s.heap q).id s.grants ≡ some q) ⊎ (JsMap.get (s.heap q).id s.grants ≡ none)
      → q ≢ r
      → Holds id r g s
      → (s.heap q).id ≢ id
  other_id s q (inl e) ne h same = ne (some_injective q r (sym (rw same at e) ∙ h.there))
  other_id s q (inr e) ne h same = none≢some (sym (rw same at e) ∙ h.there)

  revoke_each-Holds :
      (test : Grant → Bool) (s : GrantStore) (rs : List ℕ)
      → test g ≡ false
      → IsSound s
      → Listed s rs
      → Holds id r g s
      → Holds id r g (revoke_each test s rs)
  unfolding revoke_each
  revoke_each-Holds test s [] spared v listed h = h
  revoke_each-Holds test s (q ∷ rs) spared v (here, listed) h =
      elim (Bool-cases (test (s.heap q))) [
        | inl hit ↦
            let ne : q ≢ r =
              λ same. false≢true (sym spared ∙ sym (ap test (ap s.heap same ∙ h.same)) ∙ hit) in
            rw hit (
              revoke_each-Holds test (revoke s (s.heap q).id) rs spared
                (revoke-IsSound s (s.heap q).id v) (revoke-Listed s (s.heap q).id rs v listed)
                (revoke-Holds s (s.heap q).id v (other_id s q here ne h) h))
        | inr miss ↦ rw miss (revoke_each-Holds test s rs spared v listed h)
      ]

  revoke_all_of-Holds :
      (test : Grant → Bool) (s : GrantStore)
      → test g ≡ false
      → IsSound s
      → Holds id r g s
      → Holds id r g (revoke_each test s (JsMap.values s.grants))
  revoke_all_of-Holds test s spared v h =
      revoke_each-Holds test s (JsMap.values s.grants) spared v
        (values-Listed s s.grants v v.keys (λ k q f. f)) h

  prune-Holds :
      (s : GrantStore) (t : ℕ)
      → t < g.expires_at
      → IsSound s
      → Holds id r g s
      → Holds id r g (prune s t)
  unfolding prune
  prune-Holds s t early v h = revoke_all_of-Holds (λ x. leb x.expires_at t) s (ground arith) v h

  add_grant-Holds :
      (s : GrantStore) (x : Grant)
      → r < s.next
      → x.id ≢ id
      → Holds id r g s
      → Holds id r g (add_grant s x).0
  unfolding add_grant
  add_grant-Holds s x l ne h = record {
    there = ground (arith, get-set x.id id s.next s.grants, eq_iff x.id id, h.there);
    same = put_ne s.heap s.next r x (λ e. ground arith) ∙ h.same;
  }

  find_found-Holds :
      (equal : Bytes → Bytes → Bool) (s : GrantStore) (j : String) (k : Bytes) (t : ℕ)
      (o : Option ℕ)
      → t < g.expires_at
      → IsSound s
      → Holds id r g s
      → JsMap.get j s.grants ≡ o
      → Holds id r g (find_found equal s j k t o).0
  unfolding find_at
  find_found-Holds equal s j k t none early v h e = h
  find_found-Holds equal s j k t (some q) early v h e =
      if_cases (λ (x : GrantStore × Option ℕ). Holds id r g x.0) (leb (s.heap q).expires_at t)
        (λ past.
          revoke-Holds s j v
            (λ same.
              let place =
                some_injective q r
                  (sym e ∙ ap (λ (i : String). JsMap.get i s.grants) same ∙ h.there) in
              let ends : (s.heap q).expires_at ≡ g.expires_at =
                ap (λ (x : Grant). x.expires_at) (ap s.heap place ∙ h.same) in
              ground arith)
            h)
        (λ _. h)

  pub extend_found-Holds :
      (s : GrantStore) (j : String) (ttl_ms t : ℕ) (o : Option ℕ)
      → j ≢ id
      → IsSound s
      → Holds id r g s
      → JsMap.get j s.grants ≡ o
      → Holds id r g (extend_found s ttl_ms t o)
  extend_found-Holds s j ttl_ms t none ne v h e = h
  extend_found-Holds s j ttl_ms t (some q) ne v h e = record {
    there = h.there;
    same =
        put_ne s.heap q r
          (record (s.heap q) { expires_at = max (s.heap q).expires_at (t + ttl_ms) })
          (other_place s j q v h e ne)
        ∙ h.same;
  }

  step-Holds :
      (equal : Bytes → Bytes → Bool) (s : GrantStore) (c : Call)
      → Spares equal id g.viewer_key g.expires_at c
      → IsSound s
      → Holds id r g s
      → Holds id r g (step equal s c)
  unfolding step issue find extend revoke_viewer size
  step-Holds equal s (issues j secret k ttl_ms t t') (ne, early) v h =
      let pruned = prune-Holds s t early v h in
      add_grant-Holds (prune s t) _ ((prune-IsSound s t v).placed id r pruned.there).0 ne pruned
  step-Holds equal s (finds j k t) early v h = find_found-Holds equal s j k t _ early v h refl
  step-Holds equal s (extends j ttl_ms t) ne v h = extend_found-Holds s j ttl_ms t _ ne v h refl
  step-Holds equal s (revokes j) ne v h = revoke-Holds s j v ne h
  step-Holds equal s (revokes_viewer k) spared v h =
      revoke_all_of-Holds (λ x. equal x.viewer_key k) s spared v h
  step-Holds equal s revokes_all bad v h = absurd bad
  step-Holds equal s (sizes t) early v h = prune-Holds s t early v h

  pub run-Holds :
      (equal : Bytes → Bytes → Bool) (s : GrantStore) (cs : List Call)
      → AllSpare equal id g.viewer_key g.expires_at s cs
      → IsSound s
      → Holds id r g s
      → Holds id r g (run equal s cs)
  unfolding run
  run-Holds equal s [] spare v h = h
  run-Holds equal s (c ∷ cs) (spare, new, rest) v h =
      run-Holds equal (step equal s c) cs rest (step-IsSound equal s c v new)
        (step-Holds equal s c spare v h)
