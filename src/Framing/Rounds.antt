-- ===== src/Framing/Rounds.antt =====
-- One round of the loop, with more bytes behind those that are there: it waits at the same place,
-- closes the link for the same reason, or goes on with the same message and the bytes after it.
use hop_desk.Bytes.{Bytes, take, drop, take_short, drop_short, length-drop, of_be}
use hop_desk.Framing.{
  Codec, FramedLink, LinkError, close, deliver, hand_over, read_body, round, read_expected,
  read_header, read_length,
}
use hop_desk.Framing.LinkError.{too_large, not_json}
use hop_desk.Common.{
  Bool, Option, false, false≢true, if_cases, if_false, length, none, refl, some, sym, true, ℕ, ◌++◌,
  ◌+◌, ◌∙◌, ◌≡◌, Bool-cases, [], if_pair, if_true, inl, inr, ltb, suc, ◌∷◌, ◌≤◌, ap, arith, if_both,
  if◌then◌else◌, length-append, not, ◌⊎◌,
}

abbrev pub due : Option ℕ → ℕ
due none = 0
due (some n) = 1

pub not_less : (xs ys : Bytes) (n : ℕ) → n ≤ length xs → ltb (length (xs ++ ys)) n ≡ false
not_less xs ys n h = ground (arith, length-append xs ys)

pub leb_of_not : (xs : Bytes) (n : ℕ) → ltb (length xs) n ≡ false → n ≤ length xs
leb_of_not xs n h = ground arith

module _ {M : Type 0} where
  abbrev pub extend : FramedLink M → Bytes → FramedLink M
  extend l b = record l { buffered = l.buffered ++ b }

  -- What a round makes smaller.
  abbrev pub work : FramedLink M → ℕ
  work l = length l.buffered + due l.expected

  -- A closed link has no bytes, so more of them make no difference.
  abbrev Extends : FramedLink M → FramedLink M → Bytes → Type 0
  Extends x y b = ((x.closed ≡ true) → y ≡ x) × ((x.closed ≡ false) → y ≡ extend x b)

  pub close-extend :
      (l : FramedLink M) (e : Option LinkError) (b : Bytes)
      → l.closed ≡ false
      → close (extend l b) e ≡ close l e
  unfolding close
  close-extend l e b o = if_false l.closed _ _ o ∙ sym (if_false l.closed _ _ o)

  pub close_closes : (l : FramedLink M) (e : Option LinkError) → (close l e).closed ≡ true
  unfolding close
  close_closes l e = if_cases (λ (x : FramedLink M). x.closed ≡ true) l.closed (λ c. c) (λ c. refl)

  hand_over-extend :
      (l : FramedLink M) (m : M) (h : Option (M → Bool)) (b : Bytes)
      → l.closed ≡ false
      → Extends (hand_over l m h) (hand_over (extend l b) m h) b
  hand_over-extend l m none b o = (λ c. absurd (false≢true (sym o ∙ c)), λ c. refl)
  hand_over-extend l m (some f) b o =
      if_pair (λ x y. Extends x y b) (f m)
        (
          λ c. close-extend (record l { delivered = l.delivered ++ m ∷ [] }) none b o,
          λ c. absurd (
              false≢true
                (sym c ∙ close_closes (record l { delivered = l.delivered ++ m ∷ [] }) none)),
        )
        (λ c. absurd (false≢true (sym o ∙ c)), λ c. refl)

  deliver-extend :
      (l : FramedLink M) (m : Option M) (b : Bytes)
      → l.closed ≡ false
      → Extends (deliver l m) (deliver (extend l b) m) b
  unfolding deliver
  deliver-extend l none b o = (
    λ c. close-extend l (some not_json) b o,
    λ c. absurd (false≢true (sym c ∙ close_closes l (some not_json))),
  )
  deliver-extend l (some m) b o = hand_over-extend l m l.handler b o

  abbrev Keeps : FramedLink M → FramedLink M → Type 0
  Keeps l d = d.closed ≡ false → (d.buffered ≡ l.buffered) × (d.expected ≡ l.expected)

  close-Keeps : (x l : FramedLink M) (e : Option LinkError) → Keeps l (close x e)
  close-Keeps x l e c = absurd (false≢true (sym c ∙ close_closes x e))

  hand_over-Keeps : (l : FramedLink M) (m : M) (h : Option (M → Bool)) → Keeps l (hand_over l m h)
  hand_over-Keeps l m none = λ c. (refl, refl)
  hand_over-Keeps l m (some f) =
      if_both (Keeps l) (f m) (close-Keeps (record l { delivered = l.delivered ++ m ∷ [] }) l none)
        (λ c. (refl, refl))

  deliver-Keeps : (l : FramedLink M) (m : Option M) → Keeps l (deliver l m)
  unfolding deliver
  deliver-Keeps l none = close-Keeps l l (some not_json)
  deliver-Keeps l (some m) = hand_over-Keeps l m l.handler

module _ {M : Type 0} (codec : Codec M) where
  -- What a round comes to, with any bytes behind: it waits, it ends with a closed link, or it goes on.
  pub data Outcome (r : FramedLink M × Bool) (more : Bytes → FramedLink M × Bool) (before : ℕ)
      : Type 0 where
    waits :
        (w : FramedLink M)
        → r ≡ (w, false)
        → w.closed ≡ false
        → work w ≤ before
        → ((b : Bytes) → more b ≡ round codec (extend w b))
        → Outcome r more before
    ends :
        (c : FramedLink M)
        → r ≡ (c, false)
        → c.closed ≡ true
        → ((b : Bytes) → more b ≡ (c, false))
        → Outcome r more before
    goes :
        (s : FramedLink M)
        → r ≡ (s, true)
        → s.closed ≡ false
        → suc (work s) ≤ before
        → ((b : Bytes) → more b ≡ (extend s b, true))
        → Outcome r more before

  pub round_headed :
      (l h : FramedLink M) (n : ℕ)
      → read_header l l.expected ≡ h
      → h.closed ≡ false
      → h.expected ≡ some n
      → round codec l ≡ read_body codec h n
  unfolding round
  round_headed l h n e o x =
      ap (λ (g : FramedLink M). if g.closed then (g, false) else read_expected codec g g.expected) e
      ∙ if_false h.closed (h, false) (read_expected codec h h.expected) o
      ∙ ap (read_expected codec h) x

  pub round_expected :
      (l : FramedLink M) (n : ℕ)
      → l.closed ≡ false
      → l.expected ≡ some n
      → round codec l ≡ read_body codec l n
  round_expected l n o e = round_headed l l n (ap (read_header l) e) o e

  -- What is left of the link when a body of `n` bytes was taken.
  abbrev after : FramedLink M → ℕ → FramedLink M
  after l n = record l { buffered = drop n l.buffered; expected = none }

  read_long :
      (l : FramedLink M) (n : ℕ) (b : Bytes)
      → n ≤ length l.buffered
      → read_body codec (extend l b) n ≡ (
          let d = deliver (extend (after l n) b) (codec.decode (take n l.buffered)) in
          (d, not d.closed))
  unfolding read_body
  read_long l n b h =
      let pair : Bytes → Bytes → FramedLink M × Bool = λ rest body.
        (let d = deliver (record l { buffered = rest; expected = none }) (codec.decode body) in
          (d, not d.closed)) in
      if_false (ltb (length (l.buffered ++ b)) n) (extend l b, false)
        (pair (drop n (l.buffered ++ b)) (take n (l.buffered ++ b))) (not_less l.buffered b n h)
      ∙ ap (λ rest. pair rest (take n (l.buffered ++ b))) (drop_short l.buffered b n h)
      ∙ ap (λ body. pair (drop n l.buffered ++ b) body) (take_short l.buffered b n h)

  delivered-Outcome :
      (l : FramedLink M) (n : ℕ)
      → l.closed ≡ false
      → l.expected ≡ some n
      → n ≤ length l.buffered
      → (let d = deliver (after l n) (codec.decode (take n l.buffered)) in
          read_body codec l n ≡ (d, not d.closed)
          → (d.closed ≡ true) ⊎ (d.closed ≡ false)
          → Outcome (read_body codec l n) (λ b. read_body codec (extend l b) n) (work l))
  delivered-Outcome l n o e h r (inl c) =
      let d = deliver (after l n) (codec.decode (take n l.buffered)) in
      let same : (b : Bytes)
          → deliver (extend (after l n) b) (codec.decode (take n l.buffered)) ≡ d =
        λ b. (deliver-extend (after l n) (codec.decode (take n l.buffered)) b o).0 c in
      ends d (r ∙ ap (λ k. (d, not k)) c) c (λ b.
        read_long l n b h
        ∙ ap (λ (x : FramedLink M). (x, not x.closed)) (same b)
        ∙ ap (λ k. (d, not k)) c)
  delivered-Outcome l n o e h r (inr c) =
      let d = deliver (after l n) (codec.decode (take n l.buffered)) in
      let same : (b : Bytes)
          → deliver (extend (after l n) b) (codec.decode (take n l.buffered)) ≡ extend d b =
        λ b. (deliver-extend (after l n) (codec.decode (take n l.buffered)) b o).1 c in
      let kept = deliver-Keeps (after l n) (codec.decode (take n l.buffered)) c in
      goes d (r ∙ ap (λ k. (d, not k)) c) c
        (omega (arith, ap length kept.0, ap due kept.1, length-drop l.buffered n, ap due e))
        (λ b.
          read_long l n b h
          ∙ ap (λ (x : FramedLink M). (x, not x.closed)) (same b)
          ∙ ap (λ k. (extend d b, not k)) c)

  pub read_body-Outcome :
      (l : FramedLink M) (n : ℕ)
      → l.closed ≡ false
      → l.expected ≡ some n
      → Outcome (read_body codec l n) (λ b. read_body codec (extend l b) n) (work l)
  unfolding read_body
  read_body-Outcome l n o e =
      let d = deliver (after l n) (codec.decode (take n l.buffered)) in
      elim (Bool-cases (ltb (length l.buffered) n)) [
        | inl t ↦
            waits l (if_true _ _ _ t) o (omega arith) (λ b. sym (round_expected (extend l b) n o e))
        | inr t ↦
            delivered-Outcome l n o e (leb_of_not l.buffered n t) (if_false _ _ (d, not d.closed) t)
              (Bool-cases d.closed)
      ]

  pub length-of_header :
      (l : FramedLink M)
      → ltb (length l.buffered) 4 ≡ false
      → length (drop 4 l.buffered) + 4 ≡ length l.buffered
  length-of_header l h = omega (arith, length-drop l.buffered 4, leb_of_not l.buffered 4 h)

  -- The link once the length of the next body is read.
  abbrev pub headed : FramedLink M → FramedLink M
  headed l = record l { buffered = drop 4 l.buffered; expected = some (of_be (take 4 l.buffered)) }

  pub read_length-extend :
      (l : FramedLink M) (b : Bytes)
      → 4 ≤ length l.buffered
      → read_length (extend l b) ≡ (
          if ltb l.max_frame (of_be (take 4 l.buffered))
          then close (extend (headed l) b) (some (too_large (of_be (take 4 l.buffered))))
          else extend (headed l) b)
  unfolding read_length
  read_length-extend l b h =
      let made : Bytes → Bytes → FramedLink M = λ rest four.
        (let n = of_be four in
          let x = record l { buffered = rest; expected = some n } in
          if ltb l.max_frame n then close x (some (too_large n)) else x) in
      ap (λ rest. made rest (take 4 (l.buffered ++ b))) (drop_short l.buffered b 4 h)
      ∙ ap (λ four. made (drop 4 l.buffered ++ b) four) (take_short l.buffered b 4 h)
