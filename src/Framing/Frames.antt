-- ===== src/Framing/Frames.antt =====
-- What one link sends another delivers, however the stream divides it.
use mathlib.Core.List.{append_assoc, append-nil}
use hop_desk.Bytes.{
  Bytes, take, drop, to_be, of_be, of_be-to_be, length-to_be, take-append, drop-append, take_all,
  drop_all,
}
use hop_desk.Framing.{
  Codec, FramedLink, deliver, enough, frame, hand_over, read_body, read_header, receive, rounds,
  send, send_all, receive_all, send_rest,
}
use hop_desk.Framing.Rounds.{not_less, round_headed}
use hop_desk.Framing.Chunks.{concat, rounds_more, rounds_stop, receive_all-concat, receive-append}
use hop_desk.Common.{
  Bool, List, [], ap, arith, false, if_false, length, ltb, none, not, refl, some, suc, true, ℕ,
  ◌++◌, ◌<◌, ◌^◌, ◌∙◌, ◌∷◌, ◌≡◌, ◌≤◌, Bool-cases, inl, inr, Option, if_true, if◌then◌else◌, subst,
  sym,
}
use hop_desk.Framing.Outcomes.{read_header_long, read_length_ok, round_short}

-- Text and JSON read back what they wrote.
pub record IsCodec {M : Type 0} (codec : Codec M) : Type 0 where
  pub decodes : (m : M) → codec.decode (codec.encode m) ≡ some m

none-some : {A : Type 0} {a : A} → none ≡ some a → ⊥
none-some e = cc

le_of_not : (m n : ℕ) → ltb m n ≡ false → n ≤ m
le_of_not m n h = ground arith

abbrev or_link : {A : Type 0} → A → Option A → A
or_link d none = d
or_link d (some l) = l

module _ {M : Type 0} (codec : Codec M) where
  unfoldable pub frames : List M → Bytes
  frames [] = []
  frames (m ∷ ms) = frame codec m ++ frames ms

  -- The link between two frames, when a handler is set.
  pub record IsIdle (f : M → Bool) (l : FramedLink M) : Type 0 where
    pub is_open : l.closed ≡ false
    pub nothing : l.buffered ≡ []
    pub unread : l.expected ≡ none
    pub handled : l.handler ≡ some f

  abbrev pub given : FramedLink M → List M → FramedLink M
  given l ms = record l { buffered = []; expected = none; delivered = l.delivered ++ ms }

  module _ (is_codec : IsCodec codec) (f : M → Bool) (stays : (m : M) → f m ≡ false)
      (l : FramedLink M) (h : IsIdle f l) (m : M) where
    abbrev body : Bytes
    body = codec.encode m

    abbrev full : FramedLink M
    full = record l { buffered = frame codec m }

    abbrev waiting : ℕ → Bytes → FramedLink M
    waiting n rest = record l { buffered = rest; expected = some n }

    header_take : take 4 (frame codec m) ≡ to_be 4 (length body)
    unfolding frame
    header_take = take-append (to_be 4 (length body)) body 4 (length-to_be 4 (length body))

    header_drop : drop 4 (frame codec m) ≡ body
    unfolding frame
    header_drop = drop-append (to_be 4 (length body)) body 4 (length-to_be 4 (length body))

    header_length : length body < 2 ^ 32 → of_be (take 4 (frame codec m)) ≡ length body
    header_length s = ap of_be header_take ∙ of_be-to_be 4 (length body) (omega (arith, s))

    long_enough : ltb (length (frame codec m)) 4 ≡ false
    unfolding frame
    long_enough =
        not_less (to_be 4 (length body)) body 4 (omega (arith, length-to_be 4 (length body)))

    read_header-full :
        length body < 2 ^ 32
        → length body ≤ l.max_frame
        → read_header full full.expected ≡ waiting (length body) body
    read_header-full s k =
        read_header_long codec full h.unread long_enough
        ∙ read_length_ok codec full
            (ap (λ n. ltb l.max_frame n) (header_length s) ∙ ground (arith, k))
        ∙ ap (λ n. waiting n (drop 4 (frame codec m))) (header_length s)
        ∙ ap (waiting (length body)) header_drop

    read_body_full :
        read_body codec (waiting (length body) body) (length body) ≡ (given l (m ∷ []), true)
    unfolding read_body deliver
    read_body_full =
        let pair : FramedLink M → FramedLink M × Bool = λ d. (d, not d.closed) in
        if_false (ltb (length body) (length body)) (waiting (length body) body, false) _
          (ground arith)
        ∙ ap
            (λ rest. pair (
              deliver (record l { buffered = rest; expected = none })
                (codec.decode (take (length body) body))))
            (drop_all body)
        ∙ ap (λ bs. pair (deliver (record l { buffered = []; expected = none }) (codec.decode bs)))
            (take_all body)
        ∙ ap (λ o. pair (deliver (record l { buffered = []; expected = none }) o))
            (is_codec.decodes m)
        ∙ ap (λ o. pair (hand_over (record l { buffered = []; expected = none }) m o)) h.handled
        ∙ ap pair (if_false _ _ _ (stays m))
        ∙ ap (λ b. (given l (m ∷ []), not b)) h.is_open

    receive-frame :
        length body < 2 ^ 32
        → length body ≤ l.max_frame
        → receive codec l (frame codec m) ≡ given l (m ∷ [])
    unfolding receive
    receive-frame s k =
        if_false _ _ _ h.is_open
        ∙ ap
            (λ bs.
              (let x = record l { buffered = bs ++ frame codec m } in
                rounds codec (enough codec x) x))
            h.nothing
        ∙ rounds_more codec (suc (length (frame codec m))) full (given l (m ∷ [])) (
            round_headed codec full (waiting (length body) body) (length body)
              (read_header-full s k) h.is_open refl
            ∙ read_body_full)
        ∙ rounds_stop codec (length (frame codec m)) (given l (m ∷ [])) (given l (m ∷ []))
            (round_short codec (given l (m ∷ [])) h.is_open refl refl)

  abbrev Fits : ℕ → List M → Type 0
  Fits n [] = Unit
  Fits n (m ∷ ms) = (length (codec.encode m) ≤ n) × Fits n ms

  -- What is sent: every message fits, and its frame is written.
  abbrev Sent : FramedLink M → List M → FramedLink M → Type 0
  Sent s ms s' = (s'.written ≡ s.written ++ frames ms) × Fits s.max_frame ms

  send-fits :
      (s : FramedLink M) (m : M) (ms : List M) (s' : FramedLink M)
      → s.closed ≡ false
      → send_all codec s (m ∷ ms) ≡ some s'
      → (length (codec.encode m) ≤ s.max_frame)
        × (send_all codec (record s { written = s.written ++ frame codec m }) ms ≡ some s')
  unfolding send_all send
  send-fits s m ms s' o e =
      let large = ltb s.max_frame (length (codec.encode m)) in
      let one = record s { written = s.written ++ frame codec m } in
      let rest : Option (FramedLink M) → Option (FramedLink M) =
        λ x. send_rest codec x (λ z. send_all codec z ms) in
      let reached = if_false s.closed (some s) (if large then none else some one) o in
      elim (Bool-cases large) [
        | inl x ↦ absurd (none-some (sym (ap rest (reached ∙ if_true large none (some one) x)) ∙ e))
        | inr x ↦ (
          le_of_not s.max_frame (length (codec.encode m)) x,
          sym (ap rest (reached ∙ if_false large none (some one) x)) ∙ e,
        )
      ]

  send_all-Sent :
      (s : FramedLink M) (ms : List M) (s' : FramedLink M)
      → s.closed ≡ false
      → send_all codec s ms ≡ some s'
      → Sent s ms s'
  unfolding send_all frames
  send_all-Sent s [] s' o e =
      (ap (λ x. (or_link s x).written) (sym e) ∙ sym (append-nil s.written), tt)
  send_all-Sent s (m ∷ ms) s' o e =
      let k = send-fits s m ms s' o e in
      let rest = send_all-Sent (record s { written = s.written ++ frame codec m }) ms s' o k.1 in
      (rest.0 ∙ append_assoc s.written (frame codec m) (frames ms), (k.0, rest.1))

  -- The link between frames, with what it delivered.
  abbrev at : FramedLink M → List M → FramedLink M
  at l d = record l { buffered = []; expected = none; delivered = d }

  module _ (is_codec : IsCodec codec) (f : M → Bool) (stays : (m : M) → f m ≡ false) where
    receive-nothing :
        (l : FramedLink M) (d : List M) → IsIdle f l → receive codec (at l d) [] ≡ at l d
    unfolding receive
    receive-nothing l d h =
        if_false _ _ _ h.is_open
        ∙ rounds_stop codec 1 (at l d) (at l d) (round_short codec (at l d) h.is_open refl refl)

    receive-frames :
        (l : FramedLink M) (ms d : List M)
        → IsIdle f l
        → l.max_frame < 2 ^ 32
        → Fits l.max_frame ms
        → receive codec (at l d) (frames ms) ≡ at l (d ++ ms)
    unfolding frames
    receive-frames l [] d h k x = receive-nothing l d h ∙ ap (at l) (sym (append-nil d))
    receive-frames l (m ∷ ms) d h k (x, xs) =
        let idle : IsIdle f (at l d) = record {
          is_open = h.is_open;
          nothing = refl;
          unread = refl;
          handled = h.handled;
        } in
        sym (receive-append codec (at l d) (frame codec m) (frames ms))
        ∙ ap (λ y. receive codec y (frames ms))
            (receive-frame is_codec f stays (at l d) idle m (omega (arith, x, k)) x)
        ∙ receive-frames l ms (d ++ m ∷ []) h k xs
        ∙ ap (at l) (append_assoc d (m ∷ []) ms)

    -- The bytes of messages that one open link sent, in any chunks, have an open link between frames,
    -- with the same limit and a handler that does not close it, deliver these messages in order.
    pub send_all-receive :
        (s s' l : FramedLink M) (ms : List M) (c : Bytes) (cs : List Bytes)
        → s.closed ≡ false
        → s.written ≡ []
        → send_all codec s ms ≡ some s'
        → s'.written ≡ c ++ concat cs
        → IsIdle f l
        → l.max_frame < 2 ^ 32
        → s.max_frame ≡ l.max_frame
        → receive_all codec (receive codec l c) cs
          ≡ record l { buffered = []; expected = none; delivered = l.delivered ++ ms }
    send_all-receive s s' l ms c cs o w e b h k same =
        let sent = send_all-Sent s ms s' o e in
        let idle : l ≡ at l l.delivered =
          λ i. record l { buffered = h.nothing i; expected = h.unread i } in
        receive_all-concat codec l c cs
        ∙ ap (receive codec l) (sym b ∙ sent.0 ∙ ap (λ x. x ++ frames ms) w)
        ∙ ap (λ x. receive codec x (frames ms)) idle
        ∙ receive-frames l ms l.delivered h k (subst (λ n. Fits n ms) same sent.1)
