-- ===== src/Channel/Replays.antt =====
-- What a channel receives: a frame that fails changes nothing, and no frame is accepted twice.
use hop_desk.Bytes.{Bytes, take, of_be}
use hop_desk.Channel.{
  SealedChannel, Crypto, Result, open_frame, open_all, received, deciphered, max_counter,
}
use hop_desk.Channel.Result.{throws, returns}
use hop_desk.Common.{
  Bool, List, Option, [], ap, arith, false, false≢true, if_both, if_cases, inl, inr, leb, leb→lt,
  length, ltb, none, or_false, refl, some, sym, true, ◌<◌, ◌==◌, ◌||◌, ◌∙◌, ◌∷◌, ◌≡◌, ◌≤◌, ◌⊎◌,
}

abbrev pub is_returned : {A : Type 0} → Result A → Bool
is_returned (throws message) = false
is_returned (returns result) = true

module _ (crypto : Crypto) where
  -- The channel after a frame, if it was accepted and if it was not.
  abbrev IsOpened : SealedChannel → Bytes → SealedChannel × Result Bytes → Type 0
  IsOpened c frame r =
      ((is_returned r.1 ≡ false) × (r.0 ≡ c))
      ⊎ ((c.highest_received < of_be (take 8 frame))
          × (of_be (take 8 frame) < max_counter)
          × (r.0 ≡ record c { highest_received = of_be (take 8 frame) })
          × (p : Bytes) × (deciphered crypto c frame ≡ some p)
          × (r.1 ≡ returns p))

  received-IsOpened :
      (c : SealedChannel) (frame : Bytes) (o : Option Bytes)
      → deciphered crypto c frame ≡ o
      → c.highest_received < of_be (take 8 frame)
      → of_be (take 8 frame) < max_counter
      → IsOpened c frame (received crypto c (of_be (take 8 frame)) o)
  received-IsOpened c frame none e h l = inl (refl, refl)
  received-IsOpened c frame (some p) e h l = inr (h, l, refl, p, e, refl)

  -- A frame is refused and changes nothing, or its counter is above all that were accepted and
  -- below the limit, its text was deciphered, and the counter is the new bound.
  pub open_frame_cases :
      (c : SealedChannel) (frame : Bytes) → IsOpened c frame (open_frame crypto c frame)
  unfolding open_frame
  open_frame_cases c frame =
      let counter = of_be (take 8 frame) in
      let P : SealedChannel × Result Bytes → Type 0 = IsOpened c frame in
      if_both P (ltb (length frame) 24) (inl (refl, refl)) (
        if_cases P (counter == 0 || leb max_counter counter) (λ e. inl (refl, refl))
          (λ e1.
            if_cases P (leb counter c.highest_received) (λ e. inl (refl, refl))
              (λ e2.
                received-IsOpened c frame (deciphered crypto c frame) refl
                  (leb→lt counter c.highest_received e2)
                  (leb→lt max_counter counter
                    (or_false (counter == 0) (leb max_counter counter) e1).1))))

  highest_le :
      (c : SealedChannel) (f : Bytes)
      → c.highest_received ≤ (open_frame crypto c f).0.highest_received
  highest_le c f = elim (open_frame_cases c f) [
    | inl (e, same) ↦ omega (arith, ap (λ (x : SealedChannel). x.highest_received) same)
    | inr o ↦ omega (arith, o.0, ap (λ (x : SealedChannel). x.highest_received) o.2)
  ]

  highest_all :
      (c : SealedChannel) (fs : List Bytes)
      → c.highest_received ≤ (open_all crypto c fs).highest_received
  unfolding open_all
  highest_all c [] = omega arith
  highest_all c (f ∷ fs) = omega (arith, highest_le c f, highest_all (open_frame crypto c f).0 fs)

  accepted_bound :
      (c : SealedChannel) (f : Bytes)
      → is_returned (open_frame crypto c f).1 ≡ true
      → (c.highest_received < of_be (take 8 f))
        × ((open_frame crypto c f).0.highest_received ≡ of_be (take 8 f))
  accepted_bound c f a = elim (open_frame_cases c f) [
    | inl (e, same) ↦ absurd (false≢true (sym e ∙ a))
    | inr o ↦ (o.0, ap (λ (x : SealedChannel). x.highest_received) o.2)
  ]

  -- A frame that was accepted, and every frame with its counter or a lower one, is refused after
  -- any other frames, and leaves the channel as it is.
  pub accept_once :
      (c : SealedChannel) (f g : Bytes) (fs : List Bytes)
      → is_returned (open_frame crypto c f).1 ≡ true
      → of_be (take 8 g) ≤ of_be (take 8 f)
      → let later = open_all crypto (open_frame crypto c f).0 fs in
        (is_returned (open_frame crypto later g).1 ≡ false)
        × ((open_frame crypto later g).0 ≡ later)
  accept_once c f g fs a l =
      let opened = (open_frame crypto c f).0 in
      let later = open_all crypto opened fs in
      let bound = accepted_bound c f a in
      let up = highest_all opened fs in
      elim (open_frame_cases later g) [
        | inl r ↦ r
        | inr o ↦ absurd (omega (arith, o.0, bound.1, up, l))
      ]
