-- ===== src/Session.antt =====
-- packages/core/src/session.ts: `Session`, the data. A session talks to one client of the VNC
-- protocol at a time; clients and timers have numbers. What it does to the world is a log, the
-- latest effect first. Listeners, promises and timers call it as the events of Steps.antt.
pub mod Backoff
pub mod Loop
pub mod Steps
pub mod Stopping
pub mod Progress
pub mod Budget
pub mod Retries
pub mod Final
pub mod Flow
pub mod Requests
mod Tests
use hop_desk.Failures.{FriendlyError, Target}
use hop_desk.Common.{Bool, List, Option, String, [], false, none, true, ℕ}

pub data SessionState : Type 0 where
  idle connecting connected reconnecting disconnected failed : SessionState

pub record SessionStats : Type 0 where
  pub state : SessionState
  pub latency_ms : Option ℕ
  pub attempt : ℕ
  pub connected_at : Option ℕ
  pub bytes_received : ℕ
  pub frames_received : ℕ
  pub last_error : Option String
  pub error : Option FriendlyError

pub record ReconnectPolicy : Type 0 where
  pub enabled : Bool
  pub max_attempts : ℕ
  pub base_delay_ms : ℕ
  pub max_delay_ms : ℕ
  pub initial_attempts : Option ℕ

abbrev pub default_reconnect : ReconnectPolicy
default_reconnect = record {
  enabled = true;
  max_attempts = 8;
  base_delay_ms = 1000;
  max_delay_ms = 30_000;
  initial_attempts = none;
}

-- What the session reads of its connection. `protocol` is in capitals, as a message shows it.
pub record Connection : Type 0 where
  pub is_vnc : Bool
  pub protocol : String
  pub target : Target
  pub view_only : Bool
  pub share_clipboard : Bool

-- The three requests of the update loop: all of the screen, the probe of one pixel, what changed.
pub data Request : Type 0 where
  full probe incremental : Request

pub data Effect : Type 0 where
  connects disconnects : (client : ℕ) → Effect
  requests : (client : ℕ) (request : Request) → Effect
  shows : (state : SessionState) → Effect
  paints : (rects : ℕ) → Effect
  waits : (delay : ℕ) → Effect
  sends_key : (client keysym : ℕ) (down : Bool) → Effect
  sends_pointer : (client x y mask : ℕ) → Effect
  sends_clipboard : (client : ℕ) (text : String) → Effect
  asks_size : (client width height : ℕ) → Effect

-- `armed` and `render_armed` are the timers that will still fire. `pending_rects` holds the number
-- of bytes of each rectangle that has data.
pub record Session : Type 0 where
  pub connection : Connection
  pub policy : ReconnectPolicy
  pub stats : SessionStats
  pub client : Option ℕ
  pub next_client : ℕ
  pub timer : Option ℕ
  pub armed : List ℕ
  pub stopping : Bool
  pub pending_rects : List (Option ℕ)
  pub need_full_update : Bool
  pub last_probe_at : ℕ
  pub probe_sent_at : Option ℕ
  pub flow_control : Bool
  pub awaiting_render : Bool
  pub render_timer : Option ℕ
  pub render_armed : List ℕ
  pub next_timer : ℕ
  pub log : List Effect

abbrev pub no_stats : SessionStats
no_stats = record {
  state = idle;
  latency_ms = none;
  attempt = 0;
  connected_at = none;
  bytes_received = 0;
  frames_received = 0;
  last_error = none;
  error = none;
}

unfoldable pub new_session : Connection → ReconnectPolicy → Session
new_session connection policy = record {
  connection = connection;
  policy = policy;
  stats = no_stats;
  client = none;
  next_client = 0;
  timer = none;
  armed = [];
  stopping = false;
  pending_rects = [];
  need_full_update = true;
  last_probe_at = 0;
  probe_sent_at = none;
  flow_control = false;
  awaiting_render = false;
  render_timer = none;
  render_armed = [];
  next_timer = 0;
  log = [];
}
