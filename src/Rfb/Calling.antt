-- ===== src/Rfb/Calling.antt =====
-- What the client sends, the clipboard, and the ends of a client keep what Keeping says.
use hop_desk.Bytes.{Bytes, drop, to_be}
use hop_desk.Rfb.{
  RfbClient, Area, RemoteScreen, RfbEvent, Runtime, ServerInfo, bit, closes, connects, copies,
  fails, note, paints, resize_rejected, resizes, sends, shows_clipboard, shows_screens, u32,
  update_ends,
}
use hop_desk.Rfb.Keeping.{AllSized-snoc, IsSized, Keeps, Keeps-note, Keeps-same, if-Keeps, view}
use hop_desk.Common.{
  Bool, List, Option, String, [], arith, if_both, if◌then◌else◌, is_some, length, ltb, none, refl,
  some, true, ℕ, ◌&&◌, ◌++◌, ◌+◌, ◌||◌, ◌∷◌, ◌≡◌,
}
use hop_desk.Rfb.Clipboard.{
  clip_max_bytes, inflated, provide_clipboard, provide_pending, read_extended_clipboard,
  send_client_cut_text, send_clipboard, send_clipboard_with, send_extended_clipboard,
}
use hop_desk.Rfb.Output.{
  desktop_size_with, disconnect, fail, on_close, request_desktop_size, request_update, request_with,
}
use hop_desk.Rfb.Connect.{on_timeout, settles}

-- An event that settles the promise of `connect` closes the client.
snoc_settles :
    (es : List RfbEvent) (e : RfbEvent)
    → is_some (settles (e ∷ [])) ≡ true
    → is_some (settles (es ++ e ∷ [])) ≡ true
unfolding settles
snoc_settles [] e h = h
snoc_settles (connects info ∷ es) e h = refl
snoc_settles (fails ∷ es) e h = refl
snoc_settles (closes reason ∷ es) e h = refl
snoc_settles (sends b ∷ es) e h = snoc_settles es e h
snoc_settles (paints r p ∷ es) e h = snoc_settles es e h
snoc_settles (copies r x y ∷ es) e h = snoc_settles es e h
snoc_settles (update_ends ∷ es) e h = snoc_settles es e h
snoc_settles (resizes x y ∷ es) e h = snoc_settles es e h
snoc_settles (shows_clipboard t ∷ es) e h = snoc_settles es e h
snoc_settles (shows_screens s ∷ es) e h = snoc_settles es e h
snoc_settles (resize_rejected s ∷ es) e h = snoc_settles es e h

close-Keeps :
    (e : RfbEvent) (c : RfbClient)
    → IsSized e
    → is_some (settles (e ∷ [])) ≡ true
    → Keeps (view c) (view (if c.closed then c else note e (record c { closed = true })))
close-Keeps e c sized h =
    if-Keeps c.closed c (note e (record c { closed = true })) (Keeps-same (view c)) (record {
      shorter = omega arith;
      sound = λ s. (AllSized-snoc c.log e s.0 sized, s.1, s.2, snoc_settles c.log e h);
    })

pub fail-Keeps : (c : RfbClient) → Keeps (view c) (view (fail c))
unfolding fail settles
fail-Keeps c = close-Keeps fails c tt refl

pub disconnect-Keeps : (c : RfbClient) → Keeps (view c) (view (disconnect c))
unfolding disconnect settles
disconnect-Keeps c = close-Keeps (closes "Disconnected") c tt refl

pub on_close-Keeps : (c : RfbClient) → Keeps (view c) (view (on_close c))
unfolding on_close settles
on_close-Keeps c = close-Keeps (closes "Connection closed") c tt refl

pub on_timeout-Keeps : (c : RfbClient) → Keeps (view c) (view (on_timeout c))
unfolding on_timeout
on_timeout-Keeps c =
    if-Keeps (is_some (settles c.log)) c (fail c) (Keeps-same (view c)) (fail-Keeps c)

pub request_update-Keeps :
    (incremental : Bool) (area : Option Area) (c : RfbClient)
    → Keeps (view c) (view (request_update incremental area c))
unfolding request_update
request_update-Keeps incremental area c = requested c.info
  where
    requested :
        (info : Option ServerInfo) → Keeps (view c) (view (request_with incremental area info c))
    requested none = Keeps-same (view c)
    requested (some info) = Keeps-note (sends _) c tt

pub request_desktop_size-Keeps :
    (width height : ℕ) (c : RfbClient)
    → Keeps (view c) (view (request_desktop_size width height c).0)
unfolding request_desktop_size
request_desktop_size-Keeps width height c = sized c.screens
  where
    sized :
        (screens : Option (List RemoteScreen))
        → Keeps (view c) (view (desktop_size_with width height screens c).0)
    sized none = Keeps-same (view c)
    sized (some screens) =
        if_both (λ (x : RfbClient × Bool). Keeps (view c) (view x.0)) (ltb width 1 || ltb height 1)
          (Keeps-same (view c)) (Keeps-note (sends _) c tt)

module _ (runtime : Runtime) where
  cut_text-Keeps : (b : Bytes) (c : RfbClient) → Keeps (view c) (view (send_client_cut_text b c))
  unfolding send_client_cut_text
  cut_text-Keeps b c = Keeps-note (sends _) c tt

  extended-Keeps :
      (flags : ℕ) (c : RfbClient) → Keeps (view c) (view (send_extended_clipboard flags c))
  unfolding send_extended_clipboard
  extended-Keeps flags c = cut_text-Keeps (to_be 4 flags) c

  pub provide_clipboard-Keeps :
      (c : RfbClient) → Keeps (view c) (view (provide_clipboard runtime c))
  unfolding provide_clipboard
  provide_clipboard-Keeps c = provided c.clip_pending
    where
      provided : (o : Option String) → Keeps (view c) (view (provide_pending runtime o c))
      provided none = Keeps-same (view c)
      provided (some text) =
          if-Keeps (ltb clip_max_bytes (length (runtime.utf8 _))) c _ (Keeps-same (view c))
            (cut_text-Keeps _ c)

  inflated-Keeps : (o : Option Bytes) (c : RfbClient) → Keeps (view c) (view (inflated runtime o c))
  inflated-Keeps none c = Keeps-same (view c)
  inflated-Keeps (some raw) c =
      if-Keeps (ltb (length raw) 4) c _ (Keeps-same (view c)) (Keeps-note (shows_clipboard _) c tt)

  pub read_extended_clipboard-Keeps :
      (payload : Bytes) (c : RfbClient)
      → Keeps (view c) (view (read_extended_clipboard runtime payload c))
  unfolding read_extended_clipboard
  read_extended_clipboard-Keeps payload c =
      let same = Keeps-same (view c) in
      let flags = u32 payload 0 in
      if-Keeps (ltb (length payload) 4) c _ same (
        if-Keeps (bit 24 flags) _ _ (cut_text-Keeps _ _) (
          if-Keeps (bit 25 flags) _ _ (if-Keeps (bit 0 flags) _ c (provide_clipboard-Keeps c) same)
            (if-Keeps (bit 26 flags) _ _ (extended-Keeps _ c) (
              if-Keeps (bit 27 flags) _ _ (if-Keeps (bit 0 flags) _ c (extended-Keeps _ c) same) (
                if-Keeps (bit 28 flags && bit 0 flags) _ c
                  (inflated-Keeps (runtime.inflate (drop 4 payload) (clip_max_bytes + 4)) c)
                  same)))))

  pub send_clipboard-Keeps :
      (text : String) (c : RfbClient) → Keeps (view c) (view (send_clipboard runtime text c).0)
  unfolding send_clipboard
  send_clipboard-Keeps text c = offered c.clip_actions
    where
      pending : RfbClient
      pending = record c { clip_pending = some text }

      offered :
          (actions : Option ℕ)
          → Keeps (view c) (view (send_clipboard_with runtime text actions c).0)
      offered none = Keeps-note (sends _) c tt
      offered (some actions) = if-Keeps (bit 27 actions) _ _ (extended-Keeps _ pending) (
          if-Keeps (bit 28 actions) _ pending (provide_clipboard-Keeps pending)
            (Keeps-same (view pending)))
