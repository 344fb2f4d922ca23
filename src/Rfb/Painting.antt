-- ===== src/Rfb/Painting.antt =====
-- What holds of a client whatever the server sends and whatever is called.
use hop_desk.Rfb.{RfbClient, Runtime, Turn, new_client, sends}
use hop_desk.Rfb.Keeping.{AllSized, Keeps-note, Prepared, Sound, Told, View, view}
use hop_desk.Common.{
  Bool, List, Option, String, [], arith, if_cases, is_some, length, none, refl, some, subst, suc,
  true, ◌∷◌, ◌≡◌,
}
use hop_desk.Rfb.Rounds.{Ends, drain-Ends, on_data-Sound}
use hop_desk.Rfb.Connect.{
  RfbCall, asks_size, errs, gets, keys, offers, on_timeout, points, requests, run, settles, shuts,
  step, stops, times_out,
}
use hop_desk.Rfb.Calling.{
  disconnect-Keeps, fail-Keeps, on_close-Keeps, on_timeout-Keeps, request_desktop_size-Keeps,
  request_update-Keeps, send_clipboard-Keeps,
}
use hop_desk.Rfb.Messages.{drain}
use hop_desk.Rfb.Output.{fail, send_key, send_pointer}

step-Sound :
    (runtime : Runtime) (call : RfbCall) (c : RfbClient)
    → Sound (view c)
    → Sound (view (step runtime call c))
unfolding step send_key send_pointer
step-Sound runtime (gets chunk) c s = on_data-Sound runtime chunk c s
step-Sound runtime errs c s = (fail-Keeps c).sound s
step-Sound runtime shuts c s = (on_close-Keeps c).sound s
step-Sound runtime times_out c s = (on_timeout-Keeps c).sound s
step-Sound runtime stops c s = (disconnect-Keeps c).sound s
step-Sound runtime (requests incremental area) c s =
    (request_update-Keeps incremental area c).sound s
step-Sound runtime (keys keysym down) c s = (Keeps-note (sends _) c tt).sound s
step-Sound runtime (points x y mask) c s = (Keeps-note (sends _) c tt).sound s
step-Sound runtime (offers text) c s = (send_clipboard-Keeps runtime text c).sound s
step-Sound runtime (asks_size width height) c s =
    (request_desktop_size-Keeps width height c).sound s

run-Sound :
    (runtime : Runtime) (calls : List RfbCall) (c : RfbClient)
    → Sound (view c)
    → Sound (view (run runtime calls c))
unfolding run
run-Sound runtime [] c s = s
run-Sound runtime (call ∷ calls) c s =
    run-Sound runtime calls (step runtime call c) (step-Sound runtime call c s)

fail-closed : (c : RfbClient) → (fail c).closed ≡ true
unfolding fail
fail-closed c = if_cases (λ (d : RfbClient). d.closed ≡ true) c.closed (λ h. h) (λ h. refl)

module _ (runtime : Runtime) (calls : List RfbCall) (shared : Bool) (password : Option String) where
  abbrev client_after : RfbClient
  client_after = run runtime calls (new_client shared password)

  client_after-Sound : Sound (view client_after)
  unfolding new_client
  client_after-Sound = run-Sound runtime calls (new_client shared password) (tt, tt, tt, tt)

  -- Whatever a server sends to a new client, in whatever chunks, and whatever is called between them:
  -- each picture that the client reports for a rectangle, raw, RRE or Hextile, has four bytes for
  -- each of the rectangle's pixels.
  pub run-AllSized : AllSized (run runtime calls (new_client shared password)).log
  run-AllSized = client_after-Sound.0

  -- Whatever a server sends to a new client, and whatever is called, after each chunk and call: a
  -- client that waits for a challenge has a password that is not empty, and one that reads messages
  -- knows the screen.
  pub run-Prepared :
      let c = run runtime calls (new_client shared password) in Prepared c.state c.password c.info
  run-Prepared = client_after-Sound.2

  -- Whatever has happened to a new client: once the timer of `connect` fires, its promise is settled.
  pub on_timeout-settles :
      is_some (settles (on_timeout (run runtime calls (new_client shared password))).log) ≡ true
  unfolding on_timeout
  on_timeout-settles =
      if_cases (λ (c : RfbClient). is_some (settles c.log) ≡ true)
        (is_some (settles client_after.log)) (λ h. h)
        (λ h.
          subst (λ (over : Bool). Told over (fail client_after).log) (fail-closed client_after)
            ((fail-Keeps client_after).sound client_after-Sound).3)

-- A loop that ends has a result.
ended :
    (runtime : Runtime) (v : View) (o : Option Turn) → Ends runtime v o → (t : Turn) × (o ≡ some t)
ended runtime v none k = absurd k
ended runtime v (some t) k = (t, refl)

-- Reading what is in the buffer comes to an end: in any state, whatever the buffer holds, the rounds
-- of `drain` are at most one more than the bytes of the buffer, so it never runs out of rounds.
pub drain_ends :
    (runtime : Runtime) (c : RfbClient)
    → (t : Turn) × (drain runtime (suc (length c.buffer)) c ≡ some t)
drain_ends runtime c =
    ended runtime (view c) (drain runtime (suc (length c.buffer)) c)
      (drain-Ends runtime (suc (length c.buffer)) c (omega arith))
