-- ===== src/Session/Flow.antt =====
-- The update loop asks for one update at a time. `asked` counts the requests to the server and
-- `answered` the updates that ended; a screen that was not painted yet holds the next request back.
use hop_desk.Session.{Session, Effect}
use hop_desk.Session.Effect.{requests}
use hop_desk.Common.{
  Bool, List, [], false, some, suc, true, ℕ, ◌+◌, ◌∷◌, ◌≡◌, Option, ap, arith, if_both, if_cases,
  if◌then◌else◌, leb, length, ltb, none, refl, subst⁻¹, ◌&&◌, ◌-◌, ◌∙◌,
}
use hop_desk.Session.Loop.{
  request_from, request_next, request_of, await_render, finish_update, latency_interval_ms,
  measured, render_complete, show_update, without,
}
use hop_desk.Session.Steps.{sends}

unfoldable pub asked : List Effect → ℕ
asked [] = 0
asked (requests c r ∷ es) = suc (asked es)
asked (e ∷ es) = asked es

abbrev pub held : Bool → ℕ
held true = 1
held false = 0

-- One request more, or none and a screen that is held back.
pub record Owes (n : ℕ) (c : ℕ) (s : Session) : Type 0 where
  pub current : s.client ≡ some c
  pub going : s.stopping ≡ false
  pub sum : asked s.log + held s.awaiting_render ≡ n

module _ (c : ℕ) where
  request_from-Owes :
      (n : ℕ) (s : Session) (t : ℕ) → Owes n c s → Owes (suc n) c (request_from s c t)
  unfolding request_from asked
  request_from-Owes n s t h =
      if_both (Owes (suc n) c) s.need_full_update
        (record { current = h.current; going = h.going; sum = omega (arith, h.sum) })
        (if_both (Owes (suc n) c) (leb latency_interval_ms (t - s.last_probe_at))
          (record { current = h.current; going = h.going; sum = omega (arith, h.sum) })
          (record { current = h.current; going = h.going; sum = omega (arith, h.sum) }))

  pub request_next-Owes :
      (n : ℕ) (s : Session) (t : ℕ) → Owes n c s → Owes (suc n) c (request_next s t)
  unfolding request_next request_of
  request_next-Owes n s t h =
      subst⁻¹ (λ o. Owes (suc n) c (request_of s o t)) h.current
        (subst⁻¹ (λ b. Owes (suc n) c (if b then s else request_from s c t)) h.going
          (request_from-Owes n s t h))

  pub render_complete-Owes :
      (n : ℕ) (s : Session) (t : ℕ) → Owes (suc n) c s → Owes (suc n) c (render_complete s t)
  unfolding render_complete
  render_complete-Owes n s t h =
      if_cases (Owes (suc n) c) s.awaiting_render
        (λ e.
          request_next-Owes n
            (record s {
              awaiting_render = false;
              render_armed = without s.render_timer s.render_armed;
              render_timer = none;
            })
            t
            (record {
              current = h.current;
              going = h.going;
              sum = omega (arith, h.sum, ap held e);
            }))
        (λ e. h)

  show_update-Owes :
      (n : ℕ) (s : Session) (info : Bool) → Owes n c s → Owes n c (show_update s info)
  unfolding show_update asked
  show_update-Owes n s info h =
      if_both (Owes n c) (ltb 0 (length s.pending_rects) && info)
        (record { current = h.current; going = h.going; sum = h.sum })
        (record { current = h.current; going = h.going; sum = h.sum })

  show_update-awaiting :
      (s : Session) (info : Bool) → (show_update s info).awaiting_render ≡ s.awaiting_render
  unfolding show_update
  show_update-awaiting s info =
      if_both (λ (x : Session). x.awaiting_render ≡ s.awaiting_render)
        (ltb 0 (length s.pending_rects) && info) refl refl

  await_render-Owes :
      (n : ℕ) (s : Session)
      → s.awaiting_render ≡ false
      → Owes n c s
      → Owes (suc n) c (await_render s)
  unfolding await_render
  await_render-Owes n s a h = record {
    current = h.current;
    going = h.going;
    sum = omega (arith, h.sum, ap held a);
  }

  pub finish_update-Owes :
      (n : ℕ) (s : Session) (info : Bool) (t : ℕ)
      → s.awaiting_render ≡ false
      → Owes n c s
      → Owes (suc n) c (finish_update s info t)
  unfolding finish_update
  finish_update-Owes n s info t a h =
      let shown : Owes n c (show_update s info) = show_update-Owes n s info h in
      if_both (Owes (suc n) c) (s.flow_control && ltb 0 (length s.pending_rects))
        (await_render-Owes n (show_update s info) (show_update-awaiting s info ∙ a) shown)
        (request_next-Owes n (show_update s info) t shown)

  pub measured-Owes :
      (n : ℕ) (s : Session) (o : Option ℕ) (t : ℕ) → Owes n c s → Owes n c (measured s o t)
  measured-Owes n s none t h = h
  measured-Owes n s (some sent) t h = record { current = h.current; going = h.going; sum = h.sum }

  pub measured-awaiting :
      (s : Session) (o : Option ℕ) (t : ℕ) → (measured s o t).awaiting_render ≡ s.awaiting_render
  measured-awaiting s none t = refl
  measured-awaiting s (some sent) t = refl

  pub sends-Owes :
      (n : ℕ) (s : Session) (o : Option ℕ) (e : ℕ → Effect)
      → ((d : ℕ) → asked (e d ∷ s.log) ≡ asked s.log)
      → Owes n c s
      → Owes n c (sends s o e)
  sends-Owes n s none e k h = h
  sends-Owes n s (some d) e k h = record {
    current = h.current;
    going = h.going;
    sum = omega (arith, h.sum, k d);
  }
