-- ===== src/Trusted/Refinement.antt =====
-- The store of trusted devices keeps its promise.
use hop_desk.JsMap
use hop_desk.JsMap.{JsMap}
use hop_desk.JsMap.Laws.{
  IsMap, get-set, set-IsMap, get-delete, delete-IsMap, get-keep, keep-IsMap, only,
}
use hop_desk.Bytes.{Bytes}
use hop_desk.Keys.{Primitives}
use hop_desk.Handshake.{b64}
use hop_desk.Trusted.{
  TrustedDevice, TrustedDevices, TrustOp, adds, asks, renews, removes, prunes, new_trusted, renew,
  remove_device, prune, add_device, trusts, step, run, trust_ttl_ms, has_key, trusts_found, is_live,
  remove_found, renew_found, written,
}
use hop_desk.Common.{
  Bool, List, Option, String, [], ap, eq_iff, false, if_cases, if_false, if_true, if◌then◌else◌,
  leb, none, refl, some, str_eq, subst, subst⁻¹, suc, ℕ, ◌+◌, ◌∷◌, ◌≡◌, Bool-cases, if_both, inl,
  inr, not, true, ◌==◌,
}
use hop_desk.Trusted.Promise.{
  Trust, nobody, put, live, renewed, promised_of, promised, promise_step, promise_run,
}

module _ (p : Primitives) (round : (b : Bytes) → b64 p (p.base64 b) ≡ some b) where
  abbrev Fits : Option TrustedDevice → Option (Bytes × ℕ) → Type 0
  Fits none none = Unit
  Fits none (some v) = ⊥
  Fits (some d) none = ⊥
  Fits (some d) (some (key, expiry)) = (b64 p d.key ≡ some key) × (d.expires_at ≡ expiry)

  record IsKept (s : TrustedDevices) (f : Trust) : Type 0 where
    ttl : s.ttl_ms ≡ trust_ttl_ms
    is_map : IsMap s.devices
    fits : (j : String) → Fits (JsMap.get j s.devices) (f j)

  module _ (s : TrustedDevices) (f : Trust) (h : IsKept s f) where
    set-IsKept :
        (id : String) (d : TrustedDevice) (v : Option (Bytes × ℕ)) (n : ℕ)
        → Fits (some d) v
        → IsKept (record s { devices = JsMap.set id d s.devices; flushes = n }) (put f id v)
    set-IsKept id d v n e = record {
      ttl = h.ttl;
      is_map = set-IsMap id d s.devices h.is_map;
      fits = λ j.
          subst⁻¹ (λ o. Fits o (put f id v j)) (get-set id j d s.devices)
            (if_cases (λ (o : Option TrustedDevice). Fits o (put f id v j)) (str_eq id j)
              (λ y. subst⁻¹ (Fits (some d)) (if_true (str_eq id j) v (f j) y) e)
              (λ n'.
                subst⁻¹ (Fits (JsMap.get j s.devices)) (if_false (str_eq id j) v (f j) n')
                  (h.fits j)));
    }

    delete-IsKept :
        (id : String) (n : ℕ)
        → IsKept (record s { devices = JsMap.delete id s.devices; flushes = n }) (put f id none)
    delete-IsKept id n = record {
      ttl = h.ttl;
      is_map = delete-IsMap id s.devices h.is_map;
      fits = λ j.
          subst⁻¹ (λ o. Fits o (put f id none j)) (get-delete id j s.devices h.is_map)
            (if_cases (λ (o : Option TrustedDevice). Fits o (put f id none j)) (str_eq id j)
              (λ y. subst⁻¹ (Fits none) (if_true (str_eq id j) none (f j) y) tt)
              (λ n'.
                subst⁻¹ (Fits (JsMap.get j s.devices)) (if_false (str_eq id j) none (f j) n')
                  (h.fits j)));
    }

    same-IsKept :
        (id : String) (v : Option (Bytes × ℕ))
        → Fits (JsMap.get id s.devices) v
        → IsKept s (put f id v)
    same-IsKept id v e = record {
      ttl = h.ttl;
      is_map = h.is_map;
      fits = λ j.
          if_cases (Fits (JsMap.get j s.devices)) (str_eq id j)
            (λ y. subst (λ k. Fits (JsMap.get k s.devices) v) ((eq_iff id j).0 y) e)
            (λ n. h.fits j);
    }

    asked_when :
        (b : Bool) (id : String) (key k : Bytes) (d : TrustedDevice)
        → JsMap.get id s.devices ≡ some d
        → b64 p d.key ≡ some k
        → let r : TrustedDevices × Bool =
            if b
            then (written s (JsMap.delete id s.devices), false)
            else (s, has_key (b64 p d.key) key) in
          let v : Option (Bytes × ℕ) = if b then none else some (k, d.expires_at) in
          IsKept r.0 (put f id v) × (r.1 ≡ promised_of v key)
    asked_when true id key k d e w = (delete-IsKept id (suc s.flushes), refl)
    asked_when false id key k d e w = (
      same-IsKept id (some (k, d.expires_at))
          (subst⁻¹ (λ o. Fits o (some (k, d.expires_at))) e (w, refl)),
      ap (λ x. has_key x key) w,
    )

    asked-IsKept :
        (id : String) (key : Bytes) (t : ℕ) (o : Option TrustedDevice) (v : Option (Bytes × ℕ))
        → JsMap.get id s.devices ≡ o
        → Fits o v
        → IsKept (trusts_found p s id key t o).0 (put f id (live t v))
          × ((trusts_found p s id key t o).1 ≡ promised_of (live t v) key)
    asked-IsKept id key t none none e w =
        (same-IsKept id none (subst⁻¹ (λ o. Fits o none) e tt), refl)
    asked-IsKept id key t (some d) (some (k, expiry)) e w =
        subst
          (λ n.
            IsKept (trusts_found p s id key t (some d)).0 (put f id (live t (some (k, n))))
            × ((trusts_found p s id key t (some d)).1 ≡ promised_of (live t (some (k, n))) key))
          w.1 (asked_when (leb d.expires_at t) id key k d e w.0)
    asked-IsKept id key t none (some v) e w = absurd w
    asked-IsKept id key t (some d) none e w = absurd w

    renewed-IsKept :
        (id : String) (t t' : ℕ) (o : Option TrustedDevice) (v : Option (Bytes × ℕ))
        → JsMap.get id s.devices ≡ o
        → Fits o v
        → IsKept (renew_found s id t t' o) (put f id (renewed (t' + trust_ttl_ms) v))
    renewed-IsKept id t t' none none e w = same-IsKept id none (subst⁻¹ (λ o. Fits o none) e tt)
    renewed-IsKept id t t' (some d) (some (k, expiry)) e w =
        set-IsKept id _ (some (k, t' + trust_ttl_ms)) (suc s.flushes) (w.0, ap (λ n. t' + n) h.ttl)
    renewed-IsKept id t t' none (some v) e w = absurd w
    renewed-IsKept id t t' (some d) none e w = absurd w

    removed-IsKept :
        (id : String) (o : Option TrustedDevice)
        → JsMap.get id s.devices ≡ o
        → IsKept (remove_found s id o).0 (put f id none)
    removed-IsKept id none e = same-IsKept id none (subst⁻¹ (λ o. Fits o none) e tt)
    removed-IsKept id (some d) e = delete-IsKept id (suc s.flushes)

    kept_live :
        (t : ℕ) (o : Option TrustedDevice) (v : Option (Bytes × ℕ))
        → Fits o v
        → Fits (only (is_live t) o) (live t v)
    kept_live t none none w = tt
    kept_live t (some d) (some (k, expiry)) w =
        subst
          (λ n.
            Fits (if not (leb d.expires_at t) then some d else none)
              (if leb n t then none else some (k, n)))
          w.1
          (elim (Bool-cases (leb d.expires_at t)) [
            | inl y ↦
                subst⁻¹
                  (λ b.
                    Fits (if not b then some d else none)
                      (if b then none else some (k, d.expires_at)))
                  y tt
            | inr n ↦
                subst⁻¹
                  (λ b.
                    Fits (if not b then some d else none)
                      (if b then none else some (k, d.expires_at)))
                  n (w.0, refl)
          ])
    kept_live t none (some v) w = absurd w
    kept_live t (some d) none w = absurd w

    pruned-IsKept :
        (t n : ℕ)
        → IsKept
            (record s { devices = JsMap.keep (λ id d. is_live t d) s.devices; flushes = n })
            (λ j. live t (f j))
    pruned-IsKept t n = record {
      ttl = h.ttl;
      is_map = keep-IsMap _ s.devices h.is_map;
      fits = λ j.
          subst⁻¹ (λ o. Fits o (live t (f j))) (get-keep (λ id d. is_live t d) j s.devices h.is_map)
            (kept_live t _ _ (h.fits j));
    }

  step-IsKept :
      (s : TrustedDevices) (f : Trust) (o : TrustOp)
      → IsKept s f
      → IsKept (step p s o) (promise_step f o)
  unfolding step add_device trusts renew remove_device prune
  step-IsKept s f (adds id key name t t' t'') h =
      set-IsKept s f h id _ (some (key, t'' + trust_ttl_ms)) (suc s.flushes)
        (round key, ap (λ n. t'' + n) h.ttl)
  step-IsKept s f (asks id key t) h = (asked-IsKept s f h id key t _ _ refl (h.fits id)).0
  step-IsKept s f (renews id t t') h = renewed-IsKept s f h id t t' _ _ refl (h.fits id)
  step-IsKept s f (removes id) h = removed-IsKept s f h id _ refl
  step-IsKept s f (prunes t) h =
      if_both (λ (x : TrustedDevices). IsKept x (promise_step f (prunes t)))
        (JsMap.size (JsMap.keep (λ id d. is_live t d) s.devices) == JsMap.size s.devices)
        (pruned-IsKept s f h t s.flushes) (pruned-IsKept s f h t (suc s.flushes))

  run-IsKept :
      (os : List TrustOp) (s : TrustedDevices) (f : Trust)
      → IsKept s f
      → IsKept (run p s os) (promise_run f os)
  unfolding run promise_run
  run-IsKept [] s f h = h
  run-IsKept (o ∷ os) s f h = run-IsKept os _ _ (step-IsKept s f o h)

  new_trusted-IsKept : IsKept new_trusted nobody
  unfolding new_trusted JsMap.get
  new_trusted-IsKept = record { ttl = refl; is_map = tt; fits = λ j. tt }

  -- Where base64 reads back, after any history of calls the store trusts a name and a key exactly
  -- when the abstract one does, which knows of each name a key and an expiry and nothing else.
  pub trusts-promised :
      (os : List TrustOp) (id : String) (key : Bytes) (t : ℕ)
      → (trusts p (run p new_trusted os) id key t).1 ≡ promised (promise_run nobody os) id key t
  unfolding trusts
  trusts-promised os id key t =
      let h = run-IsKept os new_trusted nobody new_trusted-IsKept in
      (asked-IsKept _ _ h id key t _ _ refl (h.fits id)).1
