-- ===== src/Session/Requests.antt =====
-- One request at a time, over all that the update loop meets while a client is connected.
use hop_desk.Session.{Session}
use hop_desk.Session.SessionState.{connected}
use hop_desk.Session.Effect.{sends_key, sends_pointer, sends_clipboard, asks_size}
use hop_desk.Session.Steps.Event.{
  starts, stops, timer_fires, connects_ok, fails, rect, update_ends, resizes, render_completes,
  render_timer_fires, sets_flow_control, repaints, key, pointer, clipboard, desktop_size,
}
use hop_desk.Session.Flow.{
  Owes, asked, held, finish_update-Owes, measured-Owes, measured-awaiting, render_complete-Owes,
  request_next-Owes, sends-Owes,
}
use hop_desk.Common.{
  Bool, List, [], false, if◌then◌else◌, some, suc, true, ℕ, ◌+◌, ◌==◌, ◌∷◌, ◌≡◌, ◌≤◌, arith,
  if_both, none, refl, subst⁻¹, ◌∙◌,
}
use hop_desk.Session.Steps.{
  Event, step, adopt, is_armed, on_connected, on_render_timer, request_desktop_size, run,
  send_clipboard, send_key, send_pointer,
}
use hop_desk.Session.Loop.{
  is_current, is_that, measure, on_update_end, finish_update, measured, on_rect, request_update,
  set_flow_control, set_state, without,
}

-- The loop's events and the user's input, but for the repaint that the user asks for.
abbrev is_flow : Event → Bool
is_flow (starts n) = false
is_flow stops = false
is_flow (timer_fires i n) = false
is_flow (connects_ok c t) = false
is_flow (fails c reason n) = false
is_flow (repaints false) = false
is_flow e = true

-- The answers to the client `c`, once an event has happened.
abbrev answer : ℕ → ℕ → Event → ℕ
answer c n (update_ends d info t) = if c == d then suc n else n
answer c n e = n

unfoldable pub answered : ℕ → ℕ → List Event → ℕ
answered c n [] = n
answered c n (e ∷ es) = answered c (answer c n e) es

-- A run of such events in which the server never answers more than it was asked; the first `n`
-- answers are those to the requests before.
abbrev IsServed : ℕ → ℕ → Session → List Event → Type 0
IsServed c n s [] = Unit
IsServed c n s (e ∷ es) =
    (is_flow e ≡ true) × (answer c n e ≤ asked s.log) × IsServed c (answer c n e) (step s e) es

idle_screen : (n a : ℕ) (b : Bool) → a + held b ≡ suc n → suc n ≤ a → b ≡ false
idle_screen n a true e l = absurd (omega arith)
idle_screen n a false e l = refl

module _ (c : ℕ) where
  update-Owes :
      (n : ℕ) (s : Session) (info : Bool) (t : ℕ) (b : Bool)
      → (if b then suc n else n) ≤ asked s.log
      → Owes (suc n) c s
      → Owes (suc (if b then suc n else n)) c (if b then finish_update (measure s t) info t else s)
  unfolding measure
  update-Owes n s info t true l h =
      finish_update-Owes c (suc n) (measured s s.probe_sent_at t) info t
        (measured-awaiting c s s.probe_sent_at t
          ∙ idle_screen n (asked s.log) s.awaiting_render h.sum l)
        (measured-Owes c (suc n) s s.probe_sent_at t h)
  update-Owes n s info t false l h = h

  on_update_end-Owes :
      (n d : ℕ) (s : Session) (info : Bool) (t : ℕ)
      → (if c == d then suc n else n) ≤ asked s.log
      → Owes (suc n) c s
      → Owes (suc (if c == d then suc n else n)) c (on_update_end s d info t)
  unfolding on_update_end is_current
  on_update_end-Owes n d s info t l h =
      subst⁻¹
        (λ o.
          Owes (suc (if c == d then suc n else n)) c
            (if is_that o d then finish_update (measure s t) info t else s))
        h.current (update-Owes n s info t (c == d) l h)

  step-Owes :
      (n : ℕ) (s : Session) (e : Event)
      → is_flow e ≡ true
      → answer c n e ≤ asked s.log
      → Owes (suc n) c s
      → Owes (suc (answer c n e)) c (step s e)
  unfolding step on_rect on_render_timer set_flow_control request_update send_key send_pointer
      send_clipboard request_desktop_size asked
  step-Owes n s (starts m) f l h = cc
  step-Owes n s stops f l h = cc
  step-Owes n s (timer_fires i m) f l h = cc
  step-Owes n s (connects_ok d t) f l h = cc
  step-Owes n s (fails d reason m) f l h = cc
  step-Owes n s (rect bytes) f l h = record { current = h.current; going = h.going; sum = h.sum }
  step-Owes n s (update_ends d info t) f l h = on_update_end-Owes n d s info t l h
  step-Owes n s resizes f l h = record { current = h.current; going = h.going; sum = h.sum }
  step-Owes n s (render_completes t) f l h = render_complete-Owes c n s t h
  step-Owes n s (render_timer_fires i t) f l h =
      if_both (Owes (suc n) c) (is_armed i s.render_armed)
        (render_complete-Owes c n (record s { render_armed = without (some i) s.render_armed }) t
          (record { current = h.current; going = h.going; sum = h.sum }))
        h
  step-Owes n s (sets_flow_control enabled t) f l h =
      let changed : Owes (suc n) c (record s { flow_control = enabled }) = record {
        current = h.current;
        going = h.going;
        sum = h.sum;
      } in
      if_both (Owes (suc n) c) enabled changed
        (render_complete-Owes c n (record s { flow_control = enabled }) t changed)
  step-Owes n s (repaints true) f l h = h
  step-Owes n s (repaints false) f l h = cc
  step-Owes n s (key keysym down) f l h =
      if_both (Owes (suc n) c) s.connection.view_only h
        (sends-Owes c (suc n) s s.client (λ d. sends_key d keysym down) (λ d. refl) h)
  step-Owes n s (pointer x y mask) f l h =
      if_both (Owes (suc n) c) s.connection.view_only h
        (sends-Owes c (suc n) s s.client (λ d. sends_pointer d x y mask) (λ d. refl) h)
  step-Owes n s (clipboard text) f l h =
      if_both (Owes (suc n) c) s.connection.share_clipboard
        (sends-Owes c (suc n) s s.client (λ d. sends_clipboard d text) (λ d. refl) h) h
  step-Owes n s (desktop_size width height) f l h =
      if_both (Owes (suc n) c) s.connection.view_only h
        (sends-Owes c (suc n) s s.client (λ d. asks_size d width height) (λ d. refl) h)

  run-Owes :
      (n : ℕ) (s : Session) (es : List Event)
      → IsServed c n s es
      → Owes (suc n) c s
      → Owes (suc (answered c n es)) c (run s es)
  unfolding run answered
  run-Owes n s [] f h = h
  run-Owes n s (e ∷ es) (f, l, fs) h =
      run-Owes (answer c n e) (step s e) es fs (step-Owes n s e f l h)

-- From when a client connects, while it stays in use, the user asks for no repaint and the server
-- answers no more than it was asked: the requests are one more than the answers, or as many while
-- a screen waits to be painted.
pub one_request :
    (c : ℕ) (s : Session) (t : ℕ) (es : List Event)
    → s.client ≡ some c
    → s.stopping ≡ false
    → IsServed c (asked s.log) (on_connected s t) es
    → let r = run (on_connected s t) es in
      asked r.log + held r.awaiting_render ≡ suc (answered c (asked s.log) es)
unfolding on_connected adopt set_state asked
one_request c s t es e g f =
    let start : Owes (suc (asked s.log)) c (on_connected s t) =
      request_next-Owes c (asked s.log) (set_state (adopt s t) connected none) t
        (record { current = e; going = g; sum = omega arith }) in
    (run-Owes c (asked s.log) (on_connected s t) es f start).sum
