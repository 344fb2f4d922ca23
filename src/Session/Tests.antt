-- ===== src/Session/Tests.antt =====
-- The session on concrete runs.
use hop_desk.Session.{Session, Connection, default_reconnect, new_session, reconnecting}
use hop_desk.Session.SessionState.{connected, failed}
use hop_desk.Session.Steps.Event.{
  timer_fires, connects_ok, fails, rect, update_ends, render_completes, sets_flow_control, repaints,
}
use hop_desk.Session.Progress.{connections}
use hop_desk.Session.Flow.{asked, held}
use hop_desk.Session.Requests.{one_request, answered}
use hop_desk.Session.Retries.{retry_budget}
use hop_desk.Session.Final.{password_final}
use hop_desk.Session.Stopping.{stop_silences, active}
use hop_desk.Session.Backoff.{backoff_delay, doubled, jittered}
use hop_desk.Common.{[], arith, false, none, refl, some, true, ◌+◌, ◌∷◌, ◌≡◌, ◌≤◌}
use hop_desk.Session.Steps.{
  adopt, attempt, attempt_now, drop_client, is_armed, limit, on_connected, on_dropped, on_failed,
  on_timer, retry, run, start, step, stop, starts,
}
use hop_desk.Session.Loop.{
  await_render, finish_update, is_current, measure, on_rect, on_update_end, render_complete,
  request_from, request_next, request_of, request_update, set_flow_control, set_state, show_update,
  stop_loop, without,
}
use hop_desk.Failures.{
  classify_vnc_error, explain_vnc_error, handshake_failure, is_terminal, security_failure, where_to,
}
use hop_desk.Text.{
  contains, contains_any, contains_then, decimal, decimal_on, digit, ends_line, lower, on_line,
  rest_after,
}

abbrev office : Connection
office = record {
  is_vnc = true;
  protocol = "VNC";
  target = record { host = "10.0.0.5"; port = 5900 };
  view_only = false;
  share_clipboard = true;
}

-- Connecting for the first time.
abbrev opened : Session
opened = start (new_session office default_reconnect) 0

-- Connected, dropped, and waiting for a retry.
abbrev dropped : Session
dropped = run opened (connects_ok 0 1000 ∷ fails 0 "read ECONNRESET" 0 ∷ [])

session : Unit {0}
unfolding run step start attempt attempt_now set_state new_session on_connected adopt request_next
    request_of request_from on_failed is_current on_dropped drop_client stop_loop without retry
    limit backoff_delay jittered doubled on_timer is_armed render_complete set_flow_control
    on_update_end measure finish_update show_update await_render request_update on_rect
    explain_vnc_error classify_vnc_error is_terminal security_failure handshake_failure contains_any
    contains contains_then rest_after on_line lower where_to decimal decimal_on digit ends_line
    asked connections active answered stop
session = tt

retries_after_a_drop : dropped.armed ≡ 0 ∷ []
unfolding session
retries_after_a_drop = refl

-- A wrong password is not tried again.
gives_up : (run opened (fails 0 "Authentication failed" 0 ∷ [])).stats.state ≡ failed
unfolding session
gives_up = refl

-- A client that connects and fails before its promise goes on: the session shows that it is
-- connected, with no client, while it waits for a retry.
shows_connected :
    let s = run opened (fails 0 "Unexpected message type 150" 0 ∷ connects_ok 0 1000 ∷ []) in
    (s.stats.state ≡ connected) × (s.client ≡ none) × (s.armed ≡ 0 ∷ [])
unfolding session
shows_connected = (refl, refl, refl)

-- A repaint asked for by the user makes a second request.
two_requests : asked (run opened (connects_ok 0 1000 ∷ repaints false ∷ [])).log ≡ 2
unfolding session
two_requests = refl

stop_silences_example :
    ((run (stop dropped) (timer_fires 0 0 ∷ connects_ok 0 2000 ∷ [])).client ≡ none)
    × (active (run (stop dropped) (timer_fires 0 0 ∷ connects_ok 0 2000 ∷ [])).log
        ≡ active dropped.log)
stop_silences_example =
    stop_silences dropped (timer_fires 0 0 ∷ connects_ok 0 2000 ∷ []) (refl, (refl, tt))

retry_budget_example :
    connections (run opened (fails 0 "read ECONNRESET" 0 ∷ timer_fires 0 0 ∷ [])).log ≤ 8
retry_budget_example =
    retry_budget office default_reconnect 0 (fails 0 "read ECONNRESET" 0 ∷ timer_fires 0 0 ∷ [])
      (refl, (refl, tt))

one_request_example :
    let r = run (on_connected opened 1000) (
      sets_flow_control true 1000
      ∷ rect (some 64)
      ∷ update_ends 0 true 1010
      ∷ render_completes 1020
      ∷ []) in
    asked r.log + held r.awaiting_render ≡ 2
unfolding session
one_request_example =
    one_request 0 opened 1000
      (sets_flow_control true 1000
        ∷ rect (some 64)
        ∷ update_ends 0 true 1010
        ∷ render_completes 1020
        ∷ [])
      refl refl
      (refl, omega arith, (refl, omega arith, (refl, omega arith, (refl, omega arith, tt))))

password_final_example :
    let after = on_failed opened 0 "Authentication failed: 1" 0 in
    let es = timer_fires 0 0 ∷ connects_ok 0 1000 ∷ repaints false ∷ [] in
    (after.stats.state ≡ failed)
    × ((run after es).client ≡ none)
    × (active (run after es).log ≡ active opened.log)
unfolding session
password_final_example =
    password_final opened 0 "Authentication failed: 1" 0
      (timer_fires 0 0 ∷ connects_ok 0 1000 ∷ repaints false ∷ []) refl refl refl refl
      (refl, (refl, (refl, tt)))

-- A second start while a retry waits leaves its timer armed: a wrong password fails the session, and
-- the timer then connects once more.
starts_twice :
    let s = run dropped (starts 0 ∷ fails 1 "Authentication failed" 0 ∷ timer_fires 0 0 ∷ []) in
    (s.stats.state ≡ reconnecting) × (s.client ≡ some 2) × (connections s.log ≡ 3)
unfolding session
starts_twice = (refl, refl, refl)
