-- ===== src/Rfb/Rounds.antt =====
-- Every round keeps what Keeping says, and the rounds that a chunk of data sets off come to an end.
use hop_desk.Rfb.Finishing.{count_down-Keeps}
use hop_desk.Bytes.{Bytes, drop}
use hop_desk.Rfb.{
  RfbClient, RfbState, Runtime, Turn, auth, dropped, goes, init, ready, result, security,
  security33, shows_clipboard, throws, u16, u32, u8, version,
}
use hop_desk.Rfb.Keeping.{
  After, Keeps, Keeps-drop, Keeps-note, Keeps-same, dropped-After, if-After, if-Keeps, threw, view,
  went, when_there-After, with_block-After, Keeps-trans, Sound, View, then-After,
}
use hop_desk.Common.{
  Option, arith, false, length, ltb, none, some, suc, zero, ℕ, ◌+◌, ◌<◌, ◌==◌, ◌||◌, Bool, refl,
  true, ◌++◌, ◌≡◌,
}
use hop_desk.Rfb.Messages.{
  after_round, begin_update, drain, is_negative, message_of, read_cut_text, read_in, read_message,
  show_cut_text, text_size, on_data, settled,
}
use hop_desk.Rfb.Clipboard.{clip_max_bytes}
use hop_desk.Rfb.Handshaking.{
  read_auth_challenge-After, read_security-After, read_security33-After, read_security_result-After,
  read_server_init-After, read_version-After,
}
use hop_desk.Rfb.Drawing.{read_rect-After}
use hop_desk.Rfb.Calling.{fail-Keeps, read_extended_clipboard-Keeps}

begin_update-Keeps : (head : Bytes) (c : RfbClient) → Keeps (view c) (view (begin_update head c))
unfolding begin_update
begin_update-Keeps head c =
    count_down-Keeps
      (record c { rects_left = u16 head 2; had_content = false; announced_layout = false })

module _ (runtime : Runtime) where
  read_cut_text-After : (c : RfbClient) → After (view c) (read_cut_text runtime c)
  unfolding read_cut_text show_cut_text
  read_cut_text-After c =
      let len = u32 c.buffer 4 in
      let n = 8 + text_size len in
      when_there-After 8 c (
        if-After (ltb clip_max_bytes (text_size len)) (threw (Keeps-same (view c))) (
          with_block-After n c _ (λ b e le. dropped-After n c (
            went (
              if-Keeps (is_negative len) _ _
                (read_extended_clipboard-Keeps runtime (drop 8 b) (dropped n c))
                (Keeps-note (shows_clipboard _) (dropped n c) tt))))))

  read_message-After : (c : RfbClient) → After (view c) (read_message runtime c)
  unfolding read_message message_of
  read_message-After c =
      let type = u8 c.buffer 0 in
      if-After (ltb 0 c.rects_left) (read_rect-After c) (
        when_there-After 1 c (
          if-After (type == 0)
            (with_block-After 4 c _
              (λ b len le. dropped-After 4 c (went (begin_update-Keeps b (dropped 4 c)))))
            (if-After (type == 2 || type == 150)
              (with_block-After 1 c _ (λ b len le. went (Keeps-drop 1 c)))
              (if-After (type == 3) (read_cut_text-After c) (threw (Keeps-same (view c)))))))

  pub read_in-After : (s : RfbState) (c : RfbClient) → After (view c) (read_in runtime s c)
  unfolding read_in
  read_in-After version c = read_version-After c
  read_in-After security c = read_security-After c
  read_in-After security33 c = read_security33-After c
  read_in-After auth c = read_auth_challenge-After runtime c
  read_in-After result c = read_security_result-After c
  read_in-After init c = read_server_init-After runtime c
  read_in-After ready c = read_message-After c

  -- A loop that has rounds enough ends, and what it ends with keeps what the rounds keep.
  abbrev pub Ends : View → Option Turn → Type 0
  Ends v none = ⊥
  Ends v (some t) = After v t

  Ends-trans : {u v : View} (o : Option Turn) → Keeps u v → Ends v o → Ends u o
  Ends-trans none k l = l
  Ends-trans (some t) k l = then-After k l

  pub drain-Ends : (n : ℕ) (c : RfbClient) → length c.buffer < n → Ends (view c) (drain runtime n c)
  unfolding drain
  drain-Ends zero c lt = ground arith
  drain-Ends (suc n) c lt =
      round (read_in runtime c.state c) (read_in-After c.state c) (λ d. drain-Ends n d)
    where
      stop :
          (d : RfbClient) (b : Bool)
          → (length d.buffer == length c.buffer) ≡ b
          → Keeps (view c) (view d)
          → (length d.buffer < length c.buffer → Ends (view d) (drain runtime n d))
          → Ends (view c) (elim b [ true ↦ some (goes d) | false ↦ drain runtime n d ])
      stop d true e k again = went k
      stop d false e k again =
          let less = k.shorter in Ends-trans (drain runtime n d) k (again (ground arith))

      round :
          (t : Turn)
          → After (view c) t
          → ((d : RfbClient) → length d.buffer < n → Ends (view d) (drain runtime n d))
          → Ends (view c) (after_round runtime t (length c.buffer) (drain runtime n))
      round (throws d) k again = k
      round (goes d) k again =
          stop d (length d.buffer == length c.buffer) refl k.keeps
            (λ less. again d (omega (arith, less, lt)))

  settled-Keeps :
      (o : Option Turn) (c : RfbClient)
      → Ends (view c) o
      → Keeps (view c) (view (settled runtime o c))
  settled-Keeps none c k = absurd k
  settled-Keeps (some (goes d)) c k = k.keeps
  settled-Keeps (some (throws d)) c k = Keeps-trans k.keeps (fail-Keeps d)

  pub on_data-Sound :
      (chunk : Bytes) (c : RfbClient) → Sound (view c) → Sound (view (on_data runtime chunk c))
  unfolding on_data
  on_data-Sound chunk c s =
      let c' : RfbClient = record c { buffer = c.buffer ++ chunk } in
      (settled-Keeps (drain runtime (suc (length c'.buffer)) c') c'
          (drain-Ends (suc (length c'.buffer)) c' (omega arith))).sound
        s
