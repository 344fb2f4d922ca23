-- ===== src/Framing/Outcomes.antt =====
-- What any round comes to, and so the whole loop: with bytes enough behind or not.
use hop_desk.Bytes.{Bytes, take, of_be}
use hop_desk.Framing.{Codec, FramedLink, close, read_expected, read_header, read_length, round}
use hop_desk.Framing.LinkError.{too_large}
use hop_desk.Framing.Rounds.{
  Outcome, waits, ends, goes, extend, close-extend, close_closes, headed, leb_of_not,
  length-of_header, not_less, read_body-Outcome, read_length-extend, round_expected, round_headed,
  work,
}
use hop_desk.Common.{
  Bool, Bool-cases, Option-cases, ap, arith, false, if_false, if_true, if◌then◌else◌, inl, inr,
  length, ltb, none, refl, some, true, ℕ, ◌∙◌, ◌≡◌, ◌≤◌,
}

module _ {M : Type 0} (codec : Codec M) where
  Outcome-map :
      {r r' : FramedLink M × Bool} {more more' : Bytes → FramedLink M × Bool} {n n' : ℕ}
      → r ≡ r'
      → ((b : Bytes) → more b ≡ more' b)
      → n' ≤ n
      → Outcome codec r' more' n'
      → Outcome codec r more n
  Outcome-map e f l (waits w x o h g) = waits w (e ∙ x) o (omega (arith, h, l)) (λ b. f b ∙ g b)
  Outcome-map e f l (ends c x o g) = ends c (e ∙ x) o (λ b. f b ∙ g b)
  Outcome-map e f l (goes s x o h g) = goes s (e ∙ x) o (omega (arith, h, l)) (λ b. f b ∙ g b)

  pub read_header_long :
      (l : FramedLink M)
      → l.expected ≡ none
      → ltb (length l.buffered) 4 ≡ false
      → read_header l l.expected ≡ read_length l
  read_header_long l e h =
      ap (read_header l) e ∙ if_false (ltb (length l.buffered) 4) l (read_length l) h

  round_closed :
      (l c : FramedLink M)
      → read_header l l.expected ≡ c
      → c.closed ≡ true
      → round codec l ≡ (c, false)
  unfolding round
  round_closed l c e x =
      ap (λ (g : FramedLink M). if g.closed then (g, false) else read_expected codec g g.expected) e
      ∙ if_true c.closed (c, false) (read_expected codec c c.expected) x

  pub round_short :
      (l : FramedLink M)
      → l.closed ≡ false
      → l.expected ≡ none
      → ltb (length l.buffered) 4 ≡ true
      → round codec l ≡ (l, false)
  unfolding round
  round_short l o e h =
      ap (λ (g : FramedLink M). if g.closed then (g, false) else read_expected codec g g.expected)
        (ap (read_header l) e ∙ if_true (ltb (length l.buffered) 4) l (read_length l) h)
      ∙ if_false l.closed (l, false) (read_expected codec l l.expected) o
      ∙ ap (read_expected codec l) e

  pub read_length_ok :
      (l : FramedLink M)
      → ltb l.max_frame (of_be (take 4 l.buffered)) ≡ false
      → read_length l ≡ headed codec l
  unfolding read_length
  read_length_ok l h = if_false _ _ _ h

  read_length_large :
      (l : FramedLink M)
      → ltb l.max_frame (of_be (take 4 l.buffered)) ≡ true
      → read_length l ≡ close (headed codec l) (some (too_large (of_be (take 4 l.buffered))))
  unfolding read_length
  read_length_large l h = if_true _ _ _ h

  long_header :
      (l : FramedLink M) (b : Bytes)
      → l.expected ≡ none
      → ltb (length l.buffered) 4 ≡ false
      → read_header (extend l b) l.expected ≡ read_length (extend l b)
  long_header l b e h =
      read_header_long (extend l b) e (not_less l.buffered b 4 (leb_of_not l.buffered 4 h))

  -- The round of an open link that has read no length, by the bytes that are there.
  unread-Outcome :
      (l : FramedLink M)
      → l.closed ≡ false
      → l.expected ≡ none
      → Outcome codec (round codec l) (λ b. round codec (extend l b)) (work l)
  unread-Outcome l o e = elim (Bool-cases (ltb (length l.buffered) 4)) [
    | inl t ↦ waits l (round_short l o e t) o (omega arith) (λ b. refl)
    | inr t ↦ elim (Bool-cases (ltb l.max_frame (of_be (take 4 l.buffered)))) [
      | inl x ↦
          let n = of_be (take 4 l.buffered) in
          let c = close (headed codec l) (some (too_large n)) in
          let shut = close_closes (headed codec l) (some (too_large n)) in
          ends c (round_closed l c (read_header_long l e t ∙ read_length_large l x) shut) shut (λ b.
            round_closed (extend l b) c
              (long_header l b e t
                ∙ read_length-extend codec l b (leb_of_not l.buffered 4 t)
                ∙ if_true _ _ _ x
                ∙ close-extend (headed codec l) (some (too_large n)) b o)
              shut)
      | inr x ↦
          let n = of_be (take 4 l.buffered) in
          Outcome-map
            (round_headed codec l (headed codec l) n (read_header_long l e t ∙ read_length_ok l x) o
              refl)
            (λ b.
              round_headed codec (extend l b) (extend (headed codec l) b) n
                (long_header l b e t
                  ∙ read_length-extend codec l b (leb_of_not l.buffered 4 t)
                  ∙ if_false _ _ _ x)
                o refl)
            (omega (arith, length-of_header codec l t))
            (read_body-Outcome codec (headed codec l) n o refl)
    ]
  ]

  pub round-Outcome :
      (l : FramedLink M)
      → l.closed ≡ false
      → Outcome codec (round codec l) (λ b. round codec (extend l b)) (work l)
  round-Outcome l o = elim (Option-cases l.expected) [
    | inl e ↦ unread-Outcome l o e
    | inr (n, e) ↦
        Outcome-map (round_expected codec l n o e) (λ b. round_expected codec (extend l b) n o e)
          (omega arith) (read_body-Outcome codec l n o e)
  ]
