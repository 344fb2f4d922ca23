-- ===== src/Text/Words.antt =====
-- The tests of Text.antt: a longer word stands in a text only where a shorter one does, and what a
-- text contains its extensions contain.
use Prim.Native.Char.{Char, code}
use Prim.Native.String.{◌++◌}
use Prim.Native.String.append
use hop_desk.Text.{rest_after, begins, contains, contains_any}
use hop_desk.Common.{
  String, refl, true, ℕ, ◌≡◌, Bool, Option, false, false≢true, if◌then◌else◌, inl, inr, is_some,
  none, or_cases, or_left, or_right, subst, subst⁻¹, ◌==◌, List, [], ap, or_false, ◌||◌, ◌∙◌, ◌∷◌,
}

abbrev pub append_words : List String → List String → List String
append_words [] vs = vs
append_words (w ∷ ws) vs = w ∷ append_words ws vs

module _ (fold : ℕ → ℕ) where
  begins-contains : (w s : String) → begins fold w s ≡ true → contains fold w s ≡ true
  unfolding contains
  begins-contains w String.[] h = h
  begins-contains w (String.◌∷◌ d s) h =
      or_left (begins fold w (String.◌∷◌ d s)) (contains fold w s) h

  later :
      (w : String) (d : Char) (s : String)
      → contains fold w s ≡ true
      → contains fold w (String.◌∷◌ d s) ≡ true
  unfolding contains
  later w d s h = or_right (begins fold w (String.◌∷◌ d s)) (contains fold w s) h

  here : (b : Bool) (o : Option String) → is_some (if b then o else none) ≡ true → is_some o ≡ true
  here true o h = h
  here false o h = absurd (false≢true h)

  match_more :
      (b : Bool) (o p : Option String)
      → is_some (if b then o else none) ≡ true
      → (is_some o ≡ true → is_some p ≡ true)
      → is_some (if b then p else none) ≡ true
  match_more true o p h f = f h
  match_more false o p h f = h

  begins_tail :
      (c : Char) (w : String) (d : Char) (s : String)
      → begins fold (String.◌∷◌ c w) (String.◌∷◌ d s) ≡ true
      → begins fold w s ≡ true
  unfolding rest_after
  begins_tail c w d s h = here (code c == fold (code d)) (rest_after fold w s) h

  -- A word without its first letter.
  pub contains_tail :
      (c : Char) (w s : String) → contains fold (String.◌∷◌ c w) s ≡ true → contains fold w s ≡ true
  unfolding contains rest_after
  contains_tail c w String.[] h = absurd (false≢true h)
  contains_tail c w (String.◌∷◌ d s) h =
      elim (or_cases (begins fold (String.◌∷◌ c w) (String.◌∷◌ d s))
        (contains fold (String.◌∷◌ c w) s) h) [
          | inl e ↦ later w d s (begins-contains w s (begins_tail c w d s e))
          | inr e ↦ later w d s (contains_tail c w s e)
        ]

  -- The end of a word.
  pub contains-suffix :
      (v w s : String) → contains fold (v ++ w) s ≡ true → contains fold w s ≡ true
  contains-suffix String.[] w s h = subst (λ x. contains fold x s ≡ true) (append.nil w) h
  contains-suffix (String.◌∷◌ c v) w s h =
      contains-suffix v w s
        (contains_tail c (v ++ w) s (subst (λ x. contains fold x s ≡ true) (append.cons c v w) h))

  begins-prefix : (w v s : String) → begins fold (w ++ v) s ≡ true → begins fold w s ≡ true
  unfolding rest_after
  begins-prefix String.[] v s h = refl
  begins-prefix (String.◌∷◌ c w) v String.[] h =
      absurd (false≢true (subst (λ x. begins fold x String.[] ≡ true) (append.cons c w v) h))
  begins-prefix (String.◌∷◌ c w) v (String.◌∷◌ d s) h =
      match_more (code c == fold (code d)) (rest_after fold (w ++ v) s) (rest_after fold w s)
        (subst (λ x. begins fold x (String.◌∷◌ d s) ≡ true) (append.cons c w v) h)
        (begins-prefix w v s)

  -- The beginning of a word.
  pub contains-prefix :
      (w v s : String) → contains fold (w ++ v) s ≡ true → contains fold w s ≡ true
  unfolding contains
  contains-prefix w v String.[] h = begins-prefix w v String.[] h
  contains-prefix w v (String.◌∷◌ d s) h =
      elim (or_cases (begins fold (w ++ v) (String.◌∷◌ d s)) (contains fold (w ++ v) s) h) [
        | inl e ↦ begins-contains w (String.◌∷◌ d s) (begins-prefix w v (String.◌∷◌ d s) e)
        | inr e ↦ later w d s (contains-prefix w v s e)
      ]

  begins-append : (w s t : String) → begins fold w s ≡ true → begins fold w (s ++ t) ≡ true
  unfolding rest_after
  begins-append String.[] s t h = refl
  begins-append (String.◌∷◌ c w) String.[] t h = absurd (false≢true h)
  begins-append (String.◌∷◌ c w) (String.◌∷◌ d s) t h =
      subst⁻¹ (λ x. begins fold (String.◌∷◌ c w) x ≡ true) (append.cons d s t)
        (match_more (code c == fold (code d)) (rest_after fold w s) (rest_after fold w (s ++ t)) h
          (begins-append w s t))

  -- What contains a word does so with any text after it.
  pub contains-append :
      (w s t : String) → contains fold w s ≡ true → contains fold w (s ++ t) ≡ true
  unfolding contains
  contains-append w String.[] t h =
      begins-contains w (String.[] ++ t) (begins-append w String.[] t h)
  contains-append w (String.◌∷◌ d s) t h =
      subst⁻¹ (λ x. contains fold w x ≡ true) (append.cons d s t)
        (elim (or_cases (begins fold w (String.◌∷◌ d s)) (contains fold w s) h) [
          | inl e ↦ begins-contains w (String.◌∷◌ d (s ++ t)) (
              subst (λ x. begins fold w x ≡ true) (append.cons d s t)
                (begins-append w (String.◌∷◌ d s) t e))
          | inr e ↦ later w d (s ++ t) (contains-append w s t e)
        ])

  -- No word of a list is there, and so none of its beginning.
  pub contains_any-append :
      (ws vs : List String) (s : String)
      → contains_any fold (append_words ws vs) s ≡ false
      → contains_any fold ws s ≡ false
  unfolding contains_any
  contains_any-append [] vs s h = refl
  contains_any-append (w ∷ ws) vs s h =
      let rest = or_false (contains fold w s) (contains_any fold (append_words ws vs) s) h in
      ap (λ a. a || contains_any fold ws s) rest.0 ∙ contains_any-append ws vs s rest.1
