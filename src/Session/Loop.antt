-- ===== src/Session/Loop.antt =====
-- packages/core/src/session.ts: the update loop of `Session`. `t` is the clock.
use hop_desk.Session.{Session, SessionState, Effect}
use hop_desk.Session.Effect.{requests, paints, shows}
use hop_desk.Session.Request.{full, probe, incremental}
use hop_desk.Common.{
  Bool, List, Option, String, [], false, if◌then◌else◌, leb, length, ltb, none, some, suc, true, ℕ,
  ◌&&◌, ◌++◌, ◌+◌, ◌-◌, ◌==◌, ◌∷◌,
}

abbrev pub add : Session → Effect → Session
add s e = record s { log = e ∷ s.log }

abbrev pub latency_interval_ms : ℕ
latency_interval_ms = 5000

abbrev pub or_else : Option String → Option String → Option String
or_else none old = old
or_else (some e) old = some e

-- `setState(state, error)`; `none` where the error is undefined.
unfoldable pub set_state : Session → SessionState → Option String → Session
set_state s state error =
    let stats = s.stats in
    add
      (record s {
        stats = record stats { state = state; last_error = or_else error stats.last_error };
      })
      (shows state)

-- `clearTimeout` of a timer that may be there.
unfoldable pub without : Option ℕ → List ℕ → List ℕ
without none ts = ts
without (some i) [] = []
without (some i) (t ∷ ts) = let rest = without (some i) ts in if i == t then rest else t ∷ rest

unfoldable pub request_from : Session → ℕ → ℕ → Session
request_from s c t =
    if s.need_full_update
    then add (record s { need_full_update = false }) (requests c full)
    else if leb latency_interval_ms (t - s.last_probe_at)
    then add (record s { last_probe_at = t; probe_sent_at = some t }) (requests c probe)
    else add s (requests c incremental)

unfoldable pub request_of : Session → Option ℕ → ℕ → Session
request_of s none t = s
request_of s (some c) t = if s.stopping then s else request_from s c t

unfoldable pub request_next : Session → ℕ → Session
request_next s t = request_of s s.client t

unfoldable pub render_complete : Session → ℕ → Session
render_complete s t =
    if s.awaiting_render
    then request_next
        (record s {
          awaiting_render = false;
          render_armed = without s.render_timer s.render_armed;
          render_timer = none;
        })
        t
    else s

unfoldable pub set_flow_control : Session → Bool → ℕ → Session
set_flow_control s enabled t =
    let changed = record s { flow_control = enabled } in
    if enabled then changed else render_complete changed t

abbrev pub measured : Session → Option ℕ → ℕ → Session
measured s none t = s
measured s (some sent) t =
    let stats = s.stats in
    record s { stats = record stats { latency_ms = some (t - sent) }; probe_sent_at = none }

-- The latency, if the update that ended answered a probe.
unfoldable pub measure : Session → ℕ → Session
measure s t = measured s s.probe_sent_at t

unfoldable pub show_update : Session → Bool → Session
show_update s info =
    let stats = s.stats in
    let count = length s.pending_rects in
    let emptied = record s { pending_rects = [] } in
    if ltb 0 count && info
    then add
        (record emptied { stats = record stats { frames_received = suc stats.frames_received } })
        (paints count)
    else emptied

unfoldable pub await_render : Session → Session
await_render s = record s {
  awaiting_render = true;
  render_timer = some s.next_timer;
  render_armed = s.next_timer ∷ s.render_armed;
  next_timer = suc s.next_timer;
}

-- An update of the client in use has ended. `info` is whether the client knows the server's screen.
unfoldable pub finish_update : Session → Bool → ℕ → Session
finish_update s info t =
    let shown = show_update s info in
    if s.flow_control && ltb 0 (length s.pending_rects)
    then await_render shown
    else request_next shown t

abbrev pub is_that : Option ℕ → ℕ → Bool
is_that none c = false
is_that (some d) c = d == c

-- `this.client === client`
unfoldable pub is_current : Session → ℕ → Bool
is_current s c = is_that s.client c

unfoldable pub on_update_end : Session → ℕ → Bool → ℕ → Session
on_update_end s c info t = if is_current s c then finish_update (measure s t) info t else s

unfoldable pub stop_loop : Session → Session
stop_loop s = record s {
  render_armed = without s.render_timer s.render_armed;
  render_timer = none;
  awaiting_render = false;
  probe_sent_at = none;
  pending_rects = [];
}

abbrev or_zero : Option ℕ → ℕ
or_zero none = 0
or_zero (some n) = n

-- The listener of `rect`.
unfoldable pub on_rect : Session → Option ℕ → Session
on_rect s bytes =
    let stats = s.stats in
    record s {
      stats = record stats { bytes_received = stats.bytes_received + or_zero bytes };
      pending_rects = s.pending_rects ++ bytes ∷ [];
    }

abbrev pub repaint : Session → Option ℕ → Session
repaint s none = s
repaint s (some c) = add s (requests c full)

-- `requestUpdate(incremental)`, for a repaint.
unfoldable pub request_update : Session → Bool → Session
request_update s is_incremental =
    if is_incremental
    then s
    else let marked = record s { need_full_update = true } in
      if s.awaiting_render then marked else repaint marked marked.client
