-- ===== src/Session/Progress.antt =====
-- What of a session decides on its attempts to connect, and that the update loop and the user's
-- input leave it alone.
use hop_desk.Session.Steps.Event.{
  starts, stops, timer_fires, connects_ok, fails, rect, update_ends, resizes, render_completes,
  render_timer_fires, sets_flow_control, repaints, key, pointer, clipboard, desktop_size,
}
use hop_desk.Session.{Session, Effect, SessionState, ReconnectPolicy}
use hop_desk.Session.Effect.{connects, sends_key, sends_pointer, sends_clipboard, asks_size}
use hop_desk.Common.{
  Bool, List, Option, String, [], ap, false, if_both, leb, none, refl, some, suc, ℕ, ◌-◌, ◌∷◌, ◌≡◌,
  length, ltb, true, ◌&&◌, ◌∙◌,
}
use hop_desk.Session.Steps.{
  disconnect, drop_client, sends, Event, is_armed, on_render_timer, request_desktop_size,
  send_clipboard, send_key, send_pointer, step,
}
use hop_desk.Session.Loop.{
  finish_update, latency_interval_ms, measured, render_complete, repaint, request_from,
  request_next, request_of, set_state, stop_loop, without, await_render, is_current, measure,
  on_rect, on_update_end, request_update, set_flow_control, show_update,
}

unfoldable pub connections : List Effect → ℕ
connections [] = 0
connections (connects c ∷ es) = suc (connections es)
connections (e ∷ es) = connections es

pub record Progress : Type 0 where
  pub policy : ReconnectPolicy
  pub attempt : ℕ
  pub connected_at : Option ℕ
  pub armed : List ℕ
  pub stopping : Bool
  pub client : Option ℕ
  pub made : ℕ

abbrev pub progress : Session → Progress
progress s = record {
  policy = s.policy;
  attempt = s.stats.attempt;
  connected_at = s.stats.connected_at;
  armed = s.armed;
  stopping = s.stopping;
  client = s.client;
  made = connections s.log;
}

module _ (s : Session) where
  pub progress-set_state :
      (state : SessionState) (error : Option String)
      → progress (set_state s state error) ≡ progress s
  unfolding set_state connections
  progress-set_state state error = refl

  progress-request_of : (o : Option ℕ) (t : ℕ) → progress (request_of s o t) ≡ progress s
  unfolding request_of request_from connections
  progress-request_of none t = refl
  progress-request_of (some c) t =
      let P : Session → Type 0 = λ x. progress x ≡ progress s in
      if_both P s.stopping refl (
        if_both P s.need_full_update refl
          (if_both P (leb latency_interval_ms (t - s.last_probe_at)) refl refl))

  pub progress-request_next : (t : ℕ) → progress (request_next s t) ≡ progress s
  unfolding request_next
  progress-request_next t = progress-request_of s.client t

  pub progress-disconnect : (c : Option ℕ) → progress (disconnect c s) ≡ progress s
  unfolding connections
  progress-disconnect none = refl
  progress-disconnect (some c) = refl

  progress-measured : (o : Option ℕ) (t : ℕ) → progress (measured s o t) ≡ progress s
  progress-measured none t = refl
  progress-measured (some sent) t = refl

  pub progress-sends :
      (o : Option ℕ) (e : ℕ → Effect)
      → ((c : ℕ) → connections (e c ∷ s.log) ≡ connections s.log)
      → progress (sends s o e) ≡ progress s
  progress-sends none e h = refl
  progress-sends (some c) e h = ap (λ n. record (progress s) { made = n }) (h c)

  progress-repaint : (o : Option ℕ) → progress (repaint s o) ≡ progress s
  unfolding connections
  progress-repaint none = refl
  progress-repaint (some c) = refl

pub progress-drop_client :
    (s : Session) → progress (drop_client s) ≡ record (progress s) { client = none }
unfolding drop_client stop_loop
progress-drop_client s = progress-disconnect (record (stop_loop s) { client = none }) s.client

progress-render_complete : (s : Session) (t : ℕ) → progress (render_complete s t) ≡ progress s
unfolding render_complete
progress-render_complete s t =
    if_both (λ x. progress x ≡ progress s) s.awaiting_render
      (progress-request_next
        (record s {
          awaiting_render = false;
          render_armed = without s.render_timer s.render_armed;
          render_timer = none;
        })
        t)
      refl

progress-show_update : (s : Session) (info : Bool) → progress (show_update s info) ≡ progress s
unfolding show_update connections
progress-show_update s info =
    if_both (λ x. progress x ≡ progress s) (ltb 0 (length s.pending_rects) && info) refl refl

progress-finish_update :
    (s : Session) (info : Bool) (t : ℕ) → progress (finish_update s info t) ≡ progress s
unfolding finish_update await_render
progress-finish_update s info t =
    if_both (λ x. progress x ≡ progress s) (s.flow_control && ltb 0 (length s.pending_rects))
      (progress-show_update s info)
      (progress-request_next (show_update s info) t ∙ progress-show_update s info)

progress-on_update_end :
    (s : Session) (c : ℕ) (info : Bool) (t : ℕ) → progress (on_update_end s c info t) ≡ progress s
unfolding on_update_end measure
progress-on_update_end s c info t =
    if_both (λ x. progress x ≡ progress s) (is_current s c)
      (progress-finish_update (measured s s.probe_sent_at t) info t
        ∙ progress-measured s s.probe_sent_at t)
      refl

progress-on_render_timer : (s : Session) (i t : ℕ) → progress (on_render_timer s i t) ≡ progress s
unfolding on_render_timer
progress-on_render_timer s i t =
    if_both (λ x. progress x ≡ progress s) (is_armed i s.render_armed)
      (progress-render_complete (record s { render_armed = without (some i) s.render_armed }) t)
      refl

progress-set_flow_control :
    (s : Session) (enabled : Bool) (t : ℕ) → progress (set_flow_control s enabled t) ≡ progress s
unfolding set_flow_control
progress-set_flow_control s enabled t =
    if_both (λ x. progress x ≡ progress s) enabled refl
      (progress-render_complete (record s { flow_control = enabled }) t)

progress-request_update :
    (s : Session) (is_incremental : Bool) → progress (request_update s is_incremental) ≡ progress s
unfolding request_update
progress-request_update s is_incremental =
    if_both (λ x. progress x ≡ progress s) is_incremental refl
      (if_both (λ x. progress x ≡ progress s) s.awaiting_render refl
        (progress-repaint (record s { need_full_update = true }) s.client))

-- The events of the update loop and the user's input.
abbrev pub is_loop : Event → Bool
is_loop (starts n) = false
is_loop stops = false
is_loop (timer_fires i n) = false
is_loop (connects_ok c t) = false
is_loop (fails c reason n) = false
is_loop e = true

pub progress-step : (s : Session) (e : Event) → is_loop e ≡ true → progress (step s e) ≡ progress s
unfolding step on_rect send_key send_pointer send_clipboard request_desktop_size connections
progress-step s (starts n) h = cc
progress-step s stops h = cc
progress-step s (timer_fires i n) h = cc
progress-step s (connects_ok c t) h = cc
progress-step s (fails c reason n) h = cc
progress-step s (rect bytes) h = refl
progress-step s (update_ends c info t) h = progress-on_update_end s c info t
progress-step s resizes h = refl
progress-step s (render_completes t) h = progress-render_complete s t
progress-step s (render_timer_fires i t) h = progress-on_render_timer s i t
progress-step s (sets_flow_control enabled t) h = progress-set_flow_control s enabled t
progress-step s (repaints is_incremental) h = progress-request_update s is_incremental
progress-step s (key keysym down) h =
    if_both (λ x. progress x ≡ progress s) s.connection.view_only refl
      (progress-sends s s.client (λ c. sends_key c keysym down) (λ c. refl))
progress-step s (pointer x y mask) h =
    if_both (λ x. progress x ≡ progress s) s.connection.view_only refl
      (progress-sends s s.client (λ c. sends_pointer c x y mask) (λ c. refl))
progress-step s (clipboard text) h =
    if_both (λ x. progress x ≡ progress s) s.connection.share_clipboard
      (progress-sends s s.client (λ c. sends_clipboard c text) (λ c. refl)) refl
progress-step s (desktop_size width height) h =
    if_both (λ x. progress x ≡ progress s) s.connection.view_only refl
      (progress-sends s s.client (λ c. asks_size c width height) (λ c. refl))
