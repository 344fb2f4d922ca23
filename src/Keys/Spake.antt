-- ===== src/Keys/Spake.antt =====
-- packages/crypto/src/spake2.ts: `Spake2`. The ephemeral scalar is an argument, where the source
-- draws one; numbers stand for its big integers.
use hop_desk.Bytes.{Bytes, take, drop, to_be}
use hop_desk.Encoding.{u64le, equal_bytes}
use hop_desk.Keys.{Primitives}
use hop_desk.Common.{
  Bool, Option, [], false, if◌then◌else◌, length, ltb, none, some, true, ℕ, ◌&&◌, ◌++◌, ◌==◌, ◌∷◌,
}

pub data SpakeRole : Type 0 where
  role_a role_b : SpakeRole

pub record SpakeOptions : Type 0 where
  pub role : SpakeRole
  pub id_a : Bytes
  pub id_b : Bytes
  pub w : ℕ

pub record Spake : Type 0 where
  pub opts : SpakeOptions
  pub scalar : ℕ
  pub share : Bytes
  pub finished : Bool

pub record SpakeResult : Type 0 where
  pub ke : Bytes
  pub confirmation : Bytes
  pub theirs : Bytes
  pub transcript : Bytes

-- `verifyPeer(mac)`
unfoldable pub verify_peer : SpakeResult → Bytes → Bool
verify_peer r mac = equal_bytes mac r.theirs

abbrev pub prefixed : Bytes → Bytes
prefixed b = u64le (length b) ++ b

module _ (p : Primitives) where
  abbrev pub blind : SpakeRole → p.Point
  blind role_a = p.point_m
  blind role_b = p.point_n

  abbrev pub unblind : SpakeRole → p.Point
  unblind role_a = p.point_n
  unblind role_b = p.point_m

  abbrev pub in_range : ℕ → Bool
  in_range k = ltb 0 k && ltb k p.order

  -- `none` where the constructor throws.
  unfoldable pub new_spake : SpakeOptions → (scalar : ℕ) → Option Spake
  new_spake opts scalar =
      if in_range opts.w && in_range scalar
      then some (record {
        opts = opts;
        scalar = scalar;
        share =
            p.point_bytes
              (p.plus (p.multiply (blind opts.role) opts.w) (p.multiply p.base_point scalar));
        finished = false;
      })
      else none

  abbrev pub nonzero : Option p.Point → Option p.Point
  nonzero none = none
  nonzero (some q) = if p.is_zero q then none else some q

  abbrev pub first_byte : Bytes → ℕ
  first_byte [] = 0
  first_byte (b ∷ bs) = b

  unfoldable pub decode_peer_share : Bytes → Option p.Point
  decode_peer_share bytes =
      if length bytes == 65 && first_byte bytes == 4 then nonzero (p.of_bytes bytes) else none

  -- `hkdf` for 32 bytes, and no salt is the empty one.
  unfoldable pub spake_key_schedule : (transcript aad : Bytes) → Bytes × Bytes × Bytes
  spake_key_schedule transcript aad =
      let digest = p.sha256 transcript in
      let keys =
        p.crypto.hkdf (take 16 (drop 16 digest)) [] (p.crypto.utf8 "ConfirmationKeys" ++ aad) in
      (take 16 digest, take 16 keys, take 16 (drop 16 keys))

  unfoldable pub transcript_of : (id_a id_b p_a p_b k_bytes w_bytes : Bytes) → Bytes
  transcript_of id_a id_b p_a p_b k_bytes w_bytes =
      prefixed id_a
      ++ (prefixed id_b
          ++ (prefixed p_a ++ (prefixed p_b ++ (prefixed k_bytes ++ prefixed w_bytes))))

  -- The confirmations of both roles, and what a role makes of them.
  abbrev pub result_for : SpakeRole → (ke mac_a mac_b transcript : Bytes) → SpakeResult
  result_for role_a ke mac_a mac_b transcript = record {
    ke = ke;
    confirmation = mac_a;
    theirs = mac_b;
    transcript = transcript;
  }
  result_for role_b ke mac_a mac_b transcript = record {
    ke = ke;
    confirmation = mac_b;
    theirs = mac_a;
    transcript = transcript;
  }

  unfoldable pub derive : SpakeRole → (transcript aad : Bytes) → SpakeResult
  derive role transcript aad =
      let (ke, kc_a, kc_b) = spake_key_schedule transcript aad in
      result_for role ke (p.hmac kc_a transcript) (p.hmac kc_b transcript) transcript

  -- The transcript has the share of role A first.
  abbrev pub ordered : SpakeRole → (ours theirs : Bytes) → Bytes × Bytes
  ordered role_a ours theirs = (ours, theirs)
  ordered role_b ours theirs = (theirs, ours)

  unfoldable pub secret_point : Spake → p.Point → p.Point
  secret_point s peer =
      p.multiply (p.minus peer (p.multiply (unblind s.opts.role) s.opts.w)) s.scalar

  unfoldable pub finish_with : Spake → (peer_share aad : Bytes) → p.Point → Option SpakeResult
  finish_with s peer_share aad peer =
      let k = secret_point s peer in
      let shares = ordered s.opts.role s.share peer_share in
      if p.is_zero k
      then none
      else some (
          derive s.opts.role
            (transcript_of s.opts.id_a s.opts.id_b shares.0 shares.1 (p.point_bytes k)
              (to_be 32 s.opts.w))
            aad)

  abbrev pub finish_decoded : Spake → (peer_share aad : Bytes) → Option p.Point → Option SpakeResult
  finish_decoded s peer_share aad none = none
  finish_decoded s peer_share aad (some peer) = finish_with s peer_share aad peer

  -- `finish`, `none` where it throws, and the object after it.
  unfoldable pub finish : Spake → (peer_share aad : Bytes) → Spake × Option SpakeResult
  finish s peer_share aad = if s.finished then (s, none) else (
    record s { finished = true },
    finish_decoded s peer_share aad (decode_peer_share peer_share),
  )
