-- ===== src/Framing/Chunks.antt =====
-- How the stream divides its bytes makes no difference to the link.
use mathlib.Core.List.{append_assoc, append-nil}
use hop_desk.Bytes.{Bytes}
use hop_desk.Framing.{Codec, FramedLink, round, rounds, enough, receive, receive_all}
use hop_desk.Framing.Rounds.{waits, ends, goes, extend, work, due}
use hop_desk.Framing.Outcomes.{round-Outcome}
use hop_desk.Common.{
  Bool, List, [], ap, arith, false, if◌then◌else◌, length, length-append, suc, sym, true, zero, ℕ,
  ◌++◌, ◌+◌, ◌<◌, ◌∙◌, ◌∷◌, ◌≡◌, Bool-cases, Option-cases, false≢true, if_false, if_true, inl, inr,
  subst⁻¹,
}

abbrev pub concat : List Bytes → Bytes
concat [] = []
concat (c ∷ cs) = c ++ concat cs

module _ {M : Type 0} (codec : Codec M) where
  pub rounds_stop :
      (f : ℕ) (l s : FramedLink M) → round codec l ≡ (s, false) → rounds codec (suc f) l ≡ s
  unfolding rounds
  rounds_stop f l s e = ap (λ (r : FramedLink M × Bool). if r.1 then rounds codec f r.0 else r.0) e

  pub rounds_more :
      (f : ℕ) (l s : FramedLink M)
      → round codec l ≡ (s, true)
      → rounds codec (suc f) l ≡ rounds codec f s
  unfolding rounds
  rounds_more f l s e = ap (λ (r : FramedLink M × Bool). if r.1 then rounds codec f r.0 else r.0) e

  rounds-same_round :
      (f : ℕ) (l s : FramedLink M)
      → round codec l ≡ round codec s
      → rounds codec (suc f) l ≡ rounds codec (suc f) s
  unfolding rounds
  rounds-same_round f l s e =
      ap (λ (r : FramedLink M × Bool). if r.1 then rounds codec f r.0 else r.0) e

  -- Fuel above the work that is left makes no difference.
  pub rounds_enough :
      (f g : ℕ) (l : FramedLink M)
      → l.closed ≡ false
      → work l < f
      → work l < g
      → rounds codec f l ≡ rounds codec g l
  rounds_enough zero g l o h k = absurd (omega (arith, h))
  rounds_enough (suc f) zero l o h k = absurd (omega (arith, k))
  rounds_enough (suc f) (suc g) l o h k = elim (round-Outcome codec l o) [
    | waits w e c q m ↦ rounds_stop f l w e ∙ sym (rounds_stop g l w e)
    | ends c e x m ↦ rounds_stop f l c e ∙ sym (rounds_stop g l c e)
    | goes s e c w m ↦
        rounds_more f l s e
        ∙ rounds_enough f g s c (omega (arith, w, h)) (omega (arith, w, k))
        ∙ sym (rounds_more g l s e)
  ]

  work-extend : (l : FramedLink M) (b : Bytes) → work (extend l b) ≡ work l + length b
  work-extend l b = omega (arith, length-append l.buffered b)

  -- The loop over all the bytes, and the loop over the first and then the rest.
  abbrev Splits : FramedLink M → FramedLink M → Bytes → ℕ → Type 0
  Splits l r b k =
      ((r.closed ≡ true) → rounds codec k (extend l b) ≡ r)
      × ((r.closed ≡ false)
          → (j : ℕ) → work (extend r b) < j
          → rounds codec k (extend l b) ≡ rounds codec j (extend r b))

  rounds-Splits :
      (f k : ℕ) (l : FramedLink M) (b : Bytes)
      → l.closed ≡ false
      → work l < f
      → work (extend l b) < k
      → Splits l (rounds codec f l) b k
  rounds-Splits zero k l b o h x = absurd (omega (arith, h))
  rounds-Splits (suc f) zero l b o h x = absurd (omega (arith, x))
  rounds-Splits (suc f) (suc k) l b o h x = elim (round-Outcome codec l o) [
    | waits w e c q m ↦
        subst⁻¹ (λ r. Splits l r b (suc k)) (rounds_stop f l w e)
          (
            λ y. absurd (false≢true (sym c ∙ y)),
            λ _ j y.
                rounds-same_round k (extend l b) (extend w b) (m b)
                ∙ rounds_enough (suc k) j (extend w b) c
                    (omega (arith, x, q, work-extend l b, work-extend w b)) y,
          )
    | ends c e y m ↦
        subst⁻¹ (λ r. Splits l r b (suc k)) (rounds_stop f l c e)
          (λ _. rounds_stop k (extend l b) c (m b), λ z. absurd (false≢true (sym z ∙ y)))
    | goes s e c w m ↦
        let more = rounds_more k (extend l b) (extend s b) (m b) in
        let rest =
          rounds-Splits f k s b c (omega (arith, h, w))
            (omega (arith, x, w, work-extend l b, work-extend s b)) in
        subst⁻¹ (λ r. Splits l r b (suc k)) (rounds_more f l s e)
          (λ y. more ∙ rest.0 y, λ y j z. more ∙ rest.1 y j z)
  ]

  work-enough : (l : FramedLink M) → work l < enough codec l
  work-enough l = elim (Option-cases l.expected) [
    | inl e ↦ omega (arith, ap due e)
    | inr (n, e) ↦ omega (arith, ap due e)
  ]

  receive_closed : (l : FramedLink M) (b : Bytes) → l.closed ≡ true → receive codec l b ≡ l
  unfolding receive
  receive_closed l b c = if_true _ _ _ c

  receive_open :
      (l : FramedLink M) (b : Bytes)
      → l.closed ≡ false
      → receive codec l b ≡ rounds codec (enough codec (extend l b)) (extend l b)
  unfolding receive
  receive_open l b o = if_false _ _ _ o

  pub receive-append :
      (l : FramedLink M) (a b : Bytes)
      → receive codec (receive codec l a) b ≡ receive codec l (a ++ b)
  receive-append l a b = elim (Bool-cases l.closed) [
    | inl c ↦
        ap (λ x. receive codec x b) (receive_closed l a c)
        ∙ receive_closed l b c
        ∙ sym (receive_closed l (a ++ b) c)
    | inr o ↦
        let x = extend l a in
        let y = rounds codec (enough codec x) x in
        let first : receive codec l a ≡ y = receive_open l a o in
        let whole : receive codec l (a ++ b)
            ≡ rounds codec (enough codec (extend x b)) (extend x b) =
          receive_open l (a ++ b) o
          ∙ ap (λ bs. (let z = record l { buffered = bs } in rounds codec (enough codec z) z))
              (sym (append_assoc l.buffered a b)) in
        let both =
          rounds-Splits (enough codec x) (enough codec (extend x b)) x b o (work-enough x)
            (work-enough (extend x b)) in
        ap (λ z. receive codec z b) first ∙ elim (Bool-cases y.closed) [
          | inl c ↦ receive_closed y b c ∙ sym (both.0 c) ∙ sym whole
          | inr c ↦
              receive_open y b c
              ∙ sym (both.1 c (enough codec (extend y b)) (work-enough (extend y b)))
              ∙ sym whole
        ]
  ]

  -- A link that receives bytes in chunks is as if it had received them all at once.
  pub receive_all-concat :
      (l : FramedLink M) (c : Bytes) (cs : List Bytes)
      → receive_all codec (receive codec l c) cs ≡ receive codec l (c ++ concat cs)
  unfolding receive_all
  receive_all-concat l c [] = ap (receive codec l) (sym (append-nil c))
  receive_all-concat l c (d ∷ ds) =
      ap (λ x. receive_all codec x ds) (receive-append l c d)
      ∙ receive_all-concat l (c ++ d) ds
      ∙ ap (receive codec l) (append_assoc c d (concat ds))
