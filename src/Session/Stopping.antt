-- ===== src/Session/Stopping.antt =====
-- A session that was stopped stays quiet: no client, no connection, no request, no retry.
use hop_desk.Session.{Session, Effect, SessionState, disconnected, connected}
use hop_desk.Session.Effect.{
  connects, disconnects, requests, shows, paints, waits, sends_key, sends_pointer, sends_clipboard,
  asks_size,
}
use hop_desk.Session.Steps.Event.{
  starts, stops, timer_fires, connects_ok, fails, rect, update_ends, resizes, render_completes,
  render_timer_fires, sets_flow_control, repaints, key, pointer, clipboard, desktop_size,
}
use hop_desk.Common.{
  Bool, List, Option, String, [], false, if◌then◌else◌, none, true, ℕ, ◌∷◌, ◌≡◌, if_both, refl,
  some, subst⁻¹, inl, inr, ◌⊎◌,
}
use hop_desk.Session.Steps.{
  Event, drop_client, on_failed, stop, attempt, attempt_now, is_armed, on_connected, on_dropped,
  on_render_timer, on_timer, request_desktop_size, run, send_clipboard, send_key, send_pointer,
  step, adopt, disconnect, is_over, sends,
}
use hop_desk.Session.Loop.{
  is_current, render_complete, request_next, request_of, set_state, stop_loop, without,
  finish_update, is_that, measure, on_rect, on_update_end, repaint, request_update,
  set_flow_control,
}

-- What goes over the network or prepares to.
abbrev pub is_active : Effect → Bool
is_active (connects c) = true
is_active (disconnects c) = false
is_active (requests c r) = true
is_active (shows state) = false
is_active (paints n) = false
is_active (waits delay) = true
is_active (sends_key c k d) = true
is_active (sends_pointer c x y m) = true
is_active (sends_clipboard c t) = true
is_active (asks_size c w h) = true

unfoldable pub active : List Effect → List Effect
active [] = []
active (e ∷ es) = let rest = active es in if is_active e then e ∷ rest else rest

abbrev pub starts_not : Event → Bool
starts_not (starts n) = false
starts_not e = true

abbrev pub NeverStarts : List Event → Type 0
NeverStarts [] = Unit
NeverStarts (e ∷ es) = (starts_not e ≡ true) × NeverStarts es

-- Nothing goes on: there is no client, and no retry that would be made when its timer fires.
pub record IsQuiet (past : List Effect) (s : Session) : Type 0 where
  pub at_rest : (s.stopping ≡ true) ⊎ (s.armed ≡ [])
  pub no_client : s.client ≡ none
  pub silent : active s.log ≡ past

module _ (past : List Effect) where
  request_next-IsQuiet : (s : Session) (t : ℕ) → IsQuiet past s → IsQuiet past (request_next s t)
  unfolding request_next request_of
  request_next-IsQuiet s t h = subst⁻¹ (λ o. IsQuiet past (request_of s o t)) h.no_client h

  render_complete-IsQuiet :
      (s : Session) (t : ℕ) → IsQuiet past s → IsQuiet past (render_complete s t)
  unfolding render_complete
  render_complete-IsQuiet s t h =
      if_both (IsQuiet past) s.awaiting_render
        (request_next-IsQuiet
          (record s {
            awaiting_render = false;
            render_armed = without s.render_timer s.render_armed;
            render_timer = none;
          })
          t (record { at_rest = h.at_rest; no_client = h.no_client; silent = h.silent }))
        h

  disconnect-IsQuiet : (c : Option ℕ) (s : Session) → IsQuiet past s → IsQuiet past (disconnect c s)
  unfolding active
  disconnect-IsQuiet none s h = h
  disconnect-IsQuiet (some c) s h = record {
    at_rest = h.at_rest;
    no_client = h.no_client;
    silent = h.silent;
  }

  pub drop_client-IsQuiet :
      (s : Session)
      → (s.stopping ≡ true) ⊎ (s.armed ≡ [])
      → active s.log ≡ past
      → IsQuiet past (drop_client s)
  unfolding drop_client stop_loop
  drop_client-IsQuiet s e a =
      disconnect-IsQuiet s.client (record (stop_loop s) { client = none })
        (record { at_rest = e; no_client = refl; silent = a })

  pub set_state-IsQuiet :
      (s : Session) (state : SessionState) (error : Option String)
      → IsQuiet past s
      → IsQuiet past (set_state s state error)
  unfolding set_state active
  set_state-IsQuiet s state error h = record {
    at_rest = h.at_rest;
    no_client = h.no_client;
    silent = h.silent;
  }

  stop-IsQuiet : (s : Session) → active s.log ≡ past → IsQuiet past (stop s)
  unfolding stop
  stop-IsQuiet s a =
      let halted : Session = record s {
        stopping = true;
        armed = without s.timer s.armed;
        timer = none;
      } in
      let closed : IsQuiet past (drop_client halted) = drop_client-IsQuiet halted (inl refl) a in
      if_both (IsQuiet past) (is_over s.stats.state) closed
        (set_state-IsQuiet (drop_client halted) disconnected none closed)

  on_failed-IsQuiet :
      (s : Session) (c : ℕ) (reason : String) (n : ℕ)
      → IsQuiet past s
      → IsQuiet past (on_failed s c reason n)
  unfolding on_failed is_current
  on_failed-IsQuiet s c reason n h =
      subst⁻¹ (λ o. IsQuiet past (if is_that o c then on_dropped s reason n else s)) h.no_client h

  -- A timer fires when the session was stopped, or it is none of those that are armed.
  on_timer-IsQuiet : (s : Session) (i n : ℕ) → IsQuiet past s → IsQuiet past (on_timer s i n)
  unfolding on_timer attempt is_armed without
  on_timer-IsQuiet s i n h = fired h.at_rest
    where
      fired : (s.stopping ≡ true) ⊎ (s.armed ≡ []) → IsQuiet past (on_timer s i n)
      fired (inl e) =
          if_both (IsQuiet past) (is_armed i s.armed)
            (subst⁻¹
              (λ b. IsQuiet past (
                let f = record s { armed = without (some i) s.armed } in
                if b then f else attempt_now f n))
              e (record { at_rest = inl e; no_client = h.no_client; silent = h.silent }))
            h
      fired (inr e) =
          subst⁻¹
            (λ (ts : List ℕ). IsQuiet past (
              if is_armed i ts
              then attempt (record s { armed = without (some i) s.armed }) n
              else s))
            e h

  sends-IsQuiet :
      (s : Session) (e : ℕ → Effect) → IsQuiet past s → IsQuiet past (sends s s.client e)
  sends-IsQuiet s e h = subst⁻¹ (λ o. IsQuiet past (sends s o e)) h.no_client h

  on_connected-IsQuiet : (s : Session) (t : ℕ) → IsQuiet past s → IsQuiet past (on_connected s t)
  unfolding on_connected adopt
  on_connected-IsQuiet s t h = request_next-IsQuiet (set_state (adopt s t) connected none) t (
      set_state-IsQuiet (adopt s t) connected none
        (record { at_rest = h.at_rest; no_client = h.no_client; silent = h.silent }))

  step-IsQuiet :
      (s : Session) (e : Event) → starts_not e ≡ true → IsQuiet past s → IsQuiet past (step s e)
  unfolding step on_rect on_update_end is_current on_render_timer request_update set_flow_control
      send_key send_pointer send_clipboard request_desktop_size
  step-IsQuiet s (starts n) e h = cc
  step-IsQuiet s stops e h = stop-IsQuiet s h.silent
  step-IsQuiet s (timer_fires i n) e h = on_timer-IsQuiet s i n h
  step-IsQuiet s (connects_ok c t) e h = on_connected-IsQuiet s t h
  step-IsQuiet s (fails c reason n) e h = on_failed-IsQuiet s c reason n h
  step-IsQuiet s (rect bytes) e h = record {
    at_rest = h.at_rest;
    no_client = h.no_client;
    silent = h.silent;
  }
  step-IsQuiet s (update_ends c info t) e h =
      subst⁻¹ (λ o. IsQuiet past (if is_that o c then finish_update (measure s t) info t else s))
        h.no_client h
  step-IsQuiet s resizes e h = record {
    at_rest = h.at_rest;
    no_client = h.no_client;
    silent = h.silent;
  }
  step-IsQuiet s (render_completes t) e h = render_complete-IsQuiet s t h
  step-IsQuiet s (render_timer_fires i t) e h =
      if_both (IsQuiet past) (is_armed i s.render_armed)
        (render_complete-IsQuiet (record s { render_armed = without (some i) s.render_armed }) t
          (record { at_rest = h.at_rest; no_client = h.no_client; silent = h.silent }))
        h
  step-IsQuiet s (sets_flow_control enabled t) e h =
      let changed : IsQuiet past (record s { flow_control = enabled }) = record {
        at_rest = h.at_rest;
        no_client = h.no_client;
        silent = h.silent;
      } in
      if_both (IsQuiet past) enabled changed
        (render_complete-IsQuiet (record s { flow_control = enabled }) t changed)
  step-IsQuiet s (repaints is_incremental) e h =
      let marked : IsQuiet past (record s { need_full_update = true }) = record {
        at_rest = h.at_rest;
        no_client = h.no_client;
        silent = h.silent;
      } in
      if_both (IsQuiet past) is_incremental h (
        if_both (IsQuiet past) s.awaiting_render marked (
          subst⁻¹ (λ o. IsQuiet past (repaint (record s { need_full_update = true }) o)) h.no_client
            marked))
  step-IsQuiet s (key keysym down) e h =
      if_both (IsQuiet past) s.connection.view_only h
        (sends-IsQuiet s (λ c. sends_key c keysym down) h)
  step-IsQuiet s (pointer x y mask) e h =
      if_both (IsQuiet past) s.connection.view_only h
        (sends-IsQuiet s (λ c. sends_pointer c x y mask) h)
  step-IsQuiet s (clipboard text) e h =
      if_both (IsQuiet past) s.connection.share_clipboard
        (sends-IsQuiet s (λ c. sends_clipboard c text) h) h
  step-IsQuiet s (desktop_size width height) e h =
      if_both (IsQuiet past) s.connection.view_only h
        (sends-IsQuiet s (λ c. asks_size c width height) h)

  pub run-IsQuiet :
      (s : Session) (es : List Event) → NeverStarts es → IsQuiet past s → IsQuiet past (run s es)
  unfolding run
  run-IsQuiet s [] e h = h
  run-IsQuiet s (x ∷ es) e h = run-IsQuiet (step s x) es e.1 (step-IsQuiet s x e.0 h)

-- After a stop, whatever happens but a start, the session has no client, and nothing new was
-- connected, requested, sent or put off to a retry.
pub stop_silences :
    (s : Session) (es : List Event)
    → NeverStarts es
    → ((run (stop s) es).client ≡ none) × (active (run (stop s) es).log ≡ active s.log)
stop_silences s es e =
    let h = run-IsQuiet (active s.log) (stop s) es e (stop-IsQuiet (active s.log) s refl) in
    (h.no_client, h.silent)
