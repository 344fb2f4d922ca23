-- ===== src/Keys/Agreement.antt =====
-- Two sides with one secret agree: SPAKE2, and the exchange of ephemeral keys.
use hop_desk.Bytes.{Bytes, to_be}
use hop_desk.Encoding.{equal_bytes}
use hop_desk.Keys.{Primitives}
use hop_desk.Keys.Spake.{
  Spake, SpakeResult, SpakeOptions, SpakeRole, role_a, role_b, decode_peer_share, first_byte,
  derive, finish, finish_decoded, finish_with, new_spake, nonzero, secret_point, transcript_of,
  verify_peer, blind, in_range,
}
use hop_desk.Common.{
  [], false, length, refl, some, true, ℕ, ◌∷◌, ◌≡◌, ==_iff, ap, arith, both_true, if_false, if_true,
  if◌then◌else◌, none, ◌==◌, ◌∙◌, if_some, subst, ◌&&◌, ltb, sym,
}

-- The laws of the curve's group that the agreement needs, and that a point other than zero is read
-- back from its 65 bytes, of which the first is 4.
pub record IsCurve (p : Primitives) : Type 0 where
  pub cancels : (a b : p.Point) → p.minus (p.plus a b) a ≡ b
  pub commutes :
      (m n : ℕ)
      → p.multiply (p.multiply p.base_point m) n ≡ p.multiply (p.multiply p.base_point n) m
  pub reads : (a : p.Point) → p.is_zero a ≡ false → p.of_bytes (p.point_bytes a) ≡ some a
  pub size : (a : p.Point) → p.is_zero a ≡ false → length (p.point_bytes a) ≡ 65
  pub head : (a : p.Point) → p.is_zero a ≡ false → first_byte p (p.point_bytes a) ≡ 4

pub equal_bytes_self : (b : Bytes) → equal_bytes b b ≡ true
unfolding equal_bytes
equal_bytes_self [] = refl
equal_bytes_self (x ∷ xs) = ground (arith, equal_bytes_self xs)

module _ (p : Primitives) (curve : IsCurve p) where
  decode-share :
      (a : p.Point) → p.is_zero a ≡ false → decode_peer_share p (p.point_bytes a) ≡ some a
  unfolding decode_peer_share
  decode-share a z =
      if_true _ _ none (
        both_true (length (p.point_bytes a) == 65) (first_byte p (p.point_bytes a) == 4)
          ((==_iff (length (p.point_bytes a)) 65).1 (curve.size a z))
          ((==_iff (first_byte p (p.point_bytes a)) 4).1 (curve.head a z)))
      ∙ ap (nonzero p) (curve.reads a z)
      ∙ if_false (p.is_zero a) none (some a) z

  module _ (id_a id_b aad : Bytes) (w x y : ℕ) where
    abbrev share_point : p.Point → ℕ → p.Point
    share_point q k = p.plus (p.multiply q w) (p.multiply p.base_point k)

    abbrev share_a : Bytes
    share_a = p.point_bytes (share_point p.point_m x)

    abbrev share_b : Bytes
    share_b = p.point_bytes (share_point p.point_n y)

    -- The object of a role with its share.
    abbrev pub side : SpakeRole → (k : ℕ) (share : Bytes) → Spake
    side role k share = record {
      opts = record { role = role; id_a = id_a; id_b = id_b; w = w };
      scalar = k;
      share = share;
      finished = false;
    }

    abbrev pub result : SpakeRole → p.Point → SpakeResult
    result role k =
        derive p role (transcript_of p id_a id_b share_a share_b (p.point_bytes k) (to_be 32 w)) aad

    abbrev common : p.Point
    common = p.multiply (p.multiply p.base_point x) y

    secret_a : secret_point p (side role_a x share_a) (share_point p.point_n y) ≡ common
    unfolding secret_point
    secret_a =
        ap (λ q. p.multiply q x)
          (curve.cancels (p.multiply p.point_n w) (p.multiply p.base_point y))
        ∙ curve.commutes y x

    secret_b : secret_point p (side role_b y share_b) (share_point p.point_m x) ≡ common
    unfolding secret_point
    secret_b =
        ap (λ q. p.multiply q y)
          (curve.cancels (p.multiply p.point_m w) (p.multiply p.base_point x))

    finish_a :
        p.is_zero (share_point p.point_n y) ≡ false
        → p.is_zero common ≡ false
        → (finish p (side role_a x share_a) share_b aad).1 ≡ some (result role_a common)
    unfolding finish finish_with
    finish_a zb z =
        ap (finish_decoded p (side role_a x share_a) share_b aad)
          (decode-share (share_point p.point_n y) zb)
        ∙ ap (λ k. if p.is_zero k then none else some (result role_a k)) secret_a
        ∙ if_false (p.is_zero common) none (some (result role_a common)) z

    finish_b :
        p.is_zero (share_point p.point_m x) ≡ false
        → p.is_zero common ≡ false
        → (finish p (side role_b y share_b) share_a aad).1 ≡ some (result role_b common)
    unfolding finish finish_with
    finish_b za z =
        ap (finish_decoded p (side role_b y share_b) share_a aad)
          (decode-share (share_point p.point_m x) za)
        ∙ ap (λ k. if p.is_zero k then none else some (result role_b k)) secret_b
        ∙ if_false (p.is_zero common) none (some (result role_b common)) z

  -- What the two roles make of one transcript.
  pub derive_agrees :
      (t aad : Bytes)
      → let a = derive p role_a t aad in
        let b = derive p role_b t aad in
        (a.ke ≡ b.ke)
        × (verify_peer a b.confirmation ≡ true)
        × (verify_peer b a.confirmation ≡ true)
  unfolding derive verify_peer
  derive_agrees t aad = (refl, equal_bytes_self _, equal_bytes_self _)

  new_spake-same :
      (o : SpakeOptions) (k : ℕ) (s : Spake)
      → new_spake p o k ≡ some s
      → record {
        opts = o;
        scalar = k;
        share =
            p.point_bytes (p.plus (p.multiply (blind p o.role) o.w) (p.multiply p.base_point k));
        finished = false;
      }
        ≡ s
  unfolding new_spake
  new_spake-same o k s e = (if_some (in_range p o.w && in_range p k) _ s e).1

  pub new_spake-length :
      (o : SpakeOptions) (k : ℕ) (s : Spake)
      → new_spake p o k ≡ some s
      → p.is_zero (p.plus (p.multiply (blind p o.role) o.w) (p.multiply p.base_point k)) ≡ false
      → ltb 0 (length s.share) ≡ true
  new_spake-length o k s e z =
      ap (λ (x : Spake). ltb 0 (length x.share)) (sym (new_spake-same o k s e))
      ∙ ap (λ n. ltb 0 n) (curve.size _ z)

  -- In a group where subtraction cancels and the multiples of the base point commute, two sides
  -- with one secret and the same names and data, whose shares and whose product are not zero, both
  -- finish, have one key, and take each other's confirmation.
  pub finish_agrees :
      (id_a id_b aad : Bytes) (w x y : ℕ) (a b : Spake)
      → new_spake p (record { role = role_a; id_a = id_a; id_b = id_b; w = w }) x ≡ some a
      → new_spake p (record { role = role_b; id_a = id_a; id_b = id_b; w = w }) y ≡ some b
      → p.is_zero (p.plus (p.multiply p.point_m w) (p.multiply p.base_point x)) ≡ false
      → p.is_zero (p.plus (p.multiply p.point_n w) (p.multiply p.base_point y)) ≡ false
      → p.is_zero (p.multiply (p.multiply p.base_point x) y) ≡ false
      → (ra : SpakeResult) × (rb : SpakeResult) × ((finish p a b.share aad).1 ≡ some ra)
        × ((finish p b a.share aad).1 ≡ some rb)
        × (ra.ke ≡ rb.ke)
        × (verify_peer ra rb.confirmation ≡ true)
        × (verify_peer rb ra.confirmation ≡ true)
  finish_agrees id_a id_b aad w x y a b ea eb za zb z =
      let ka = p.multiply (p.multiply p.base_point x) y in
      let ra = result id_a id_b aad w x y role_a ka in
      let rb = result id_a id_b aad w x y role_b ka in
      let ia : side id_a id_b aad w x y role_a x (share_a id_a id_b aad w x y) ≡ a =
        new_spake-same (record { role = role_a; id_a = id_a; id_b = id_b; w = w }) x a ea in
      let ib : side id_a id_b aad w x y role_b y (share_b id_a id_b aad w x y) ≡ b =
        new_spake-same (record { role = role_b; id_a = id_a; id_b = id_b; w = w }) y b eb in
      let agreed =
        derive_agrees
          (transcript_of p id_a id_b (share_a id_a id_b aad w x y) (share_b id_a id_b aad w x y)
            (p.point_bytes ka) (to_be 32 w))
          aad in
      (
        ra,
        rb,
        subst (λ (s : Spake). (finish p s b.share aad).1 ≡ some ra) ia
            (subst
              (λ (s : Spake).
                (finish p (side id_a id_b aad w x y role_a x (share_a id_a id_b aad w x y)) s.share
                  aad).1
                ≡ some ra)
              ib (finish_a id_a id_b aad w x y zb z)),
        subst (λ (s : Spake). (finish p s a.share aad).1 ≡ some rb) ib
            (subst
              (λ (s : Spake).
                (finish p (side id_a id_b aad w x y role_b y (share_b id_a id_b aad w x y)) s.share
                  aad).1
                ≡ some rb)
              ia (finish_b id_a id_b aad w x y za z)),
        agreed.0,
        agreed.1,
        agreed.2,
      )
