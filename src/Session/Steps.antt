-- ===== src/Session/Steps.antt =====
-- packages/core/src/session.ts: the lifecycle of `Session`, and all that can happen to it as events.
-- `n` is a draw of `Math.random()` for the delay of a retry, `t` the clock.
use Prim.Native.String.{◌++◌}
use hop_desk.Failures.{classify_vnc_error, explain_vnc_error, is_terminal}
use hop_desk.Session.{Connection, Session, SessionState, ReconnectPolicy, Effect}
use hop_desk.Session.SessionState.{idle, connecting, connected, reconnecting, disconnected, failed}
use hop_desk.Session.Effect.{
  connects, disconnects, waits, sends_key, sends_pointer, sends_clipboard, asks_size,
}
use hop_desk.Text.{decimal}
use hop_desk.Common.{
  Bool, List, Option, String, [], false, if◌then◌else◌, leb, none, not, some, suc, true, ℕ, ◌==◌,
  ◌||◌, ◌∷◌,
}
use hop_desk.Session.Loop.{
  add, is_current, on_rect, on_update_end, render_complete, request_next, request_update,
  set_flow_control, set_state, stop_loop, without,
}
use hop_desk.Session.Backoff.{backoff_delay}

abbrev pub disconnect : Option ℕ → Session → Session
disconnect none s = s
disconnect (some c) s = add s (disconnects c)

abbrev pub or_default : Option ℕ → ℕ → ℕ
or_default none d = d
or_default (some n) d = n

-- The attempts allowed: more after a success.
abbrev pub limit_for : ReconnectPolicy → Option ℕ → ℕ
limit_for policy none = or_default policy.initial_attempts policy.max_attempts
limit_for policy (some t) = policy.max_attempts

unfoldable pub limit : Session → ℕ
limit s = limit_for s.policy s.stats.connected_at

-- The attempt of `onDropped` to retry, after the client is gone.
unfoldable pub retry : Session → String → ℕ → Session
retry s reason n =
    let stats = s.stats in
    let classified = record s {
      stats = record stats { error = some (classify_vnc_error reason s.connection.target) };
    } in
    let explained = explain_vnc_error reason s.connection.target in
    let terminal = is_terminal explained in
    if not s.policy.enabled || terminal || leb (limit s) s.stats.attempt
    then set_state classified failed (
        some (
          if terminal
          then explained
          else explained
            ++ " (gave up after "
            ++ decimal s.stats.attempt
            ++ (if s.stats.attempt == 1 then " attempt)" else " attempts)")))
    else let delay = backoff_delay s.policy s.stats.attempt n in
      let waiting = set_state classified reconnecting (some explained) in
      record waiting {
        timer = some s.next_timer;
        armed = s.next_timer ∷ s.armed;
        next_timer = suc s.next_timer;
        log = waits delay ∷ waiting.log;
      }

unfoldable pub drop_client : Session → Session
drop_client s = let c = s.client in disconnect c (record (stop_loop s) { client = none })

unfoldable pub on_dropped : Session → String → ℕ → Session
on_dropped s reason n =
    let closed = drop_client s in
    if s.stopping then set_state closed disconnected none else retry closed reason n

unfoldable pub own_engine : Connection → String
own_engine c = c.protocol ++ " sessions are launched through their own engine"

-- `attempt()`, up to the connection of the client, which is then in progress.
unfoldable pub attempt_now : Session → ℕ → Session
attempt_now s n =
    let stats = s.stats in
    let counted = record s { stats = record stats { attempt = suc stats.attempt } } in
    let shown =
      set_state counted (if suc stats.attempt == 1 then connecting else reconnecting) none in
    if s.connection.is_vnc
    then add (record shown { client = some s.next_client; next_client = suc s.next_client })
        (connects s.next_client)
    else on_dropped shown (own_engine s.connection) n

unfoldable pub attempt : Session → ℕ → Session
attempt s n = if s.stopping then s else attempt_now s n

unfoldable pub start : Session → ℕ → Session
start s n =
    let stats = s.stats in
    attempt (record s { stopping = false; stats = record stats { attempt = 0 } }) n

-- `attempt()`, after the client of an attempt has connected.
unfoldable pub adopt : Session → ℕ → Session
adopt s t =
    let stats = s.stats in
    record s {
      stats = record stats { attempt = 0; connected_at = some t; last_error = none; error = none };
      pending_rects = [];
      need_full_update = true;
      probe_sent_at = none;
      awaiting_render = false;
    }

unfoldable pub on_connected : Session → ℕ → Session
on_connected s t = request_next (set_state (adopt s t) connected none) t

-- A failure of the client `c`: its event, or its promise refused.
unfoldable pub on_failed : Session → ℕ → String → ℕ → Session
on_failed s c reason n = if is_current s c then on_dropped s reason n else s

abbrev pub is_over : SessionState → Bool
is_over idle = true
is_over disconnected = true
is_over failed = true
is_over connecting = false
is_over connected = false
is_over reconnecting = false

unfoldable pub stop : Session → Session
stop s =
    let halted = record s { stopping = true; armed = without s.timer s.armed; timer = none } in
    let closed = drop_client halted in
    if is_over s.stats.state then closed else set_state closed disconnected none

unfoldable pub is_armed : ℕ → List ℕ → Bool
is_armed i [] = false
is_armed i (t ∷ ts) = i == t || is_armed i ts

unfoldable pub on_timer : Session → ℕ → ℕ → Session
on_timer s i n =
    let fired = record s { armed = without (some i) s.armed } in
    if is_armed i s.armed then attempt fired n else s

unfoldable pub on_render_timer : Session → ℕ → ℕ → Session
on_render_timer s i t =
    let fired = record s { render_armed = without (some i) s.render_armed } in
    if is_armed i s.render_armed then render_complete fired t else s

-- What goes to the client if there is one.
abbrev pub sends : Session → Option ℕ → (ℕ → Effect) → Session
sends s none e = s
sends s (some c) e = add s (e c)

unfoldable pub send_key : Session → ℕ → Bool → Session
send_key s keysym down =
    if s.connection.view_only then s else sends s s.client (λ c. sends_key c keysym down)

unfoldable pub send_pointer : Session → (x y mask : ℕ) → Session
send_pointer s x y mask =
    if s.connection.view_only then s else sends s s.client (λ c. sends_pointer c x y mask)

unfoldable pub send_clipboard : Session → String → Session
send_clipboard s text =
    if s.connection.share_clipboard then sends s s.client (λ c. sends_clipboard c text) else s

unfoldable pub request_desktop_size : Session → (width height : ℕ) → Session
request_desktop_size s width height =
    if s.connection.view_only then s else sends s s.client (λ c. asks_size c width height)

pub data Event : Type 0 where
  starts : (n : ℕ) → Event
  stops : Event
  timer_fires : (timer n : ℕ) → Event
  connects_ok : (client t : ℕ) → Event
  fails : (client : ℕ) (reason : String) (n : ℕ) → Event
  rect : (bytes : Option ℕ) → Event
  update_ends : (client : ℕ) (info : Bool) (t : ℕ) → Event
  resizes : Event
  render_completes : (t : ℕ) → Event
  render_timer_fires : (timer t : ℕ) → Event
  sets_flow_control : (enabled : Bool) (t : ℕ) → Event
  repaints : (is_incremental : Bool) → Event
  key : (keysym : ℕ) (down : Bool) → Event
  pointer : (x y mask : ℕ) → Event
  clipboard : (text : String) → Event
  desktop_size : (width height : ℕ) → Event

-- The promise of a client that connected goes on whatever client is in use by then.
unfoldable pub step : Session → Event → Session
step s (starts n) = start s n
step s stops = stop s
step s (timer_fires i n) = on_timer s i n
step s (connects_ok c t) = on_connected s t
step s (fails c reason n) = on_failed s c reason n
step s (rect bytes) = on_rect s bytes
step s (update_ends c info t) = on_update_end s c info t
step s resizes = record s { need_full_update = true }
step s (render_completes t) = render_complete s t
step s (render_timer_fires i t) = on_render_timer s i t
step s (sets_flow_control enabled t) = set_flow_control s enabled t
step s (repaints is_incremental) = request_update s is_incremental
step s (key keysym down) = send_key s keysym down
step s (pointer x y mask) = send_pointer s x y mask
step s (clipboard text) = send_clipboard s text
step s (desktop_size width height) = request_desktop_size s width height

unfoldable pub run : Session → List Event → Session
run s [] = s
run s (e ∷ es) = run (step s e) es
