-- ===== src/Channel/Sealing.antt =====
-- What one channel seals the other opens.
use hop_desk.Bytes.{
  Bytes, take, drop, to_be, of_be, of_be-to_be, length-to_be, take-append, drop-append, drop_two,
}
use hop_desk.Channel.{
  SealedChannel, Crypto, Result, PeerRole, open_frame, seal, received, deciphered, frame_of,
  max_counter, nonce_for, channel_key, new_channel, other,
}
use hop_desk.Channel.PeerRole.{host, viewer}
use hop_desk.Channel.Result.{throws, returns}
use hop_desk.Common.{
  ap, arith, length, length-append, some, ℕ, ◌++◌, ◌+◌, ◌-◌, ◌<◌, ◌∙◌, ◌≡◌, ◌≤◌, if_cases, leb,
  leb→le, ltb, ltb→lt, suc, true, ◌==◌, ◌||◌, Option, String, if_both, not, refl, str_eq, sym,
}

-- AES-GCM: a tag has 16 bytes, and what was encrypted is deciphered.
pub record IsCipher (crypto : Crypto) : Type 0 where
  pub tag_bytes : (key nonce aad plain : Bytes) → length (crypto.encrypt key nonce aad plain).1 ≡ 16
  pub deciphers :
      (key nonce aad plain : Bytes)
      → let sealed = crypto.encrypt key nonce aad plain in
        crypto.decrypt key nonce aad sealed.0 sealed.1 ≡ some plain

-- One sends with the key, and under the label, that the other receives with, and has sent at least
-- what the other received.
pub record IsPaired (s r : SealedChannel) : Type 0 where
  pub key : s.send_key ≡ r.recv_key
  pub label : s.label_bytes ≡ r.label_bytes
  pub behind : r.highest_received ≤ s.sent

in_range : (n : ℕ) → 0 < n → n < max_counter → n == 0 || leb max_counter n ≡ true → ⊥
in_range n h l e = ground arith

module _ (crypto : Crypto) (cipher : IsCipher crypto) where
  module _ (k l : Bytes) (n : ℕ) (p : Bytes) where
    abbrev head : Bytes
    head = to_be 8 n

    abbrev sealed : Bytes × Bytes
    sealed = crypto.encrypt k (nonce_for n) (l ++ to_be 8 n) p

    frame-header : take 8 (frame_of crypto k l n p) ≡ head
    unfolding frame_of
    frame-header = take-append head (sealed.0 ++ sealed.1) 8 (length-to_be 8 n)

    frame-counter : n < max_counter → of_be (take 8 (frame_of crypto k l n p)) ≡ n
    frame-counter h = ap of_be frame-header ∙ of_be-to_be 8 n (omega (arith, h))

    length-frame : length (frame_of crypto k l n p) ≡ 24 + length sealed.0
    unfolding frame_of
    length-frame = omega (
      arith,
      length-append head (sealed.0 ++ sealed.1),
      length-append sealed.0 sealed.1,
      length-to_be 8 n,
      cipher.tag_bytes k (nonce_for n) (l ++ to_be 8 n) p,
    )

    frame-body :
        take (length (frame_of crypto k l n p) - 16 - 8) (drop 8 (frame_of crypto k l n p))
        ≡ sealed.0
    unfolding frame_of
    frame-body =
        ap (λ x. take (length (frame_of crypto k l n p) - 16 - 8) x)
          (drop-append head (sealed.0 ++ sealed.1) 8 (length-to_be 8 n))
        ∙ take-append sealed.0 sealed.1 (length (frame_of crypto k l n p) - 16 - 8)
            (omega (arith, length-frame))

    frame-tag : drop (length (frame_of crypto k l n p) - 16) (frame_of crypto k l n p) ≡ sealed.1
    unfolding frame_of
    frame-tag =
        drop_two head sealed.0 sealed.1 (length (frame_of crypto k l n p) - 16)
          (omega (arith, length-frame, length-to_be 8 n))

  deciphered-frame :
      (r : SealedChannel) (n : ℕ) (p : Bytes)
      → n < max_counter
      → deciphered crypto r (frame_of crypto r.recv_key r.label_bytes n p) ≡ some p
  unfolding deciphered
  deciphered-frame r n p h =
      let k = r.recv_key in
      let l = r.label_bytes in
      let f = frame_of crypto k l n p in
      let s = crypto.encrypt k (nonce_for n) (l ++ to_be 8 n) p in
      let d : Bytes → Bytes → Bytes → Option Bytes =
        λ header. crypto.decrypt k (nonce_for (of_be header)) (l ++ header) in
      let body = take (length f - 16 - 8) (drop 8 f) in
      let tag = drop (length f - 16) f in
      ap (λ x. d x body tag) (frame-header k l n p)
      ∙ ap (λ x. d (to_be 8 n) x tag) (frame-body k l n p)
      ∙ ap (λ x. d (to_be 8 n) s.0 x) (frame-tag k l n p)
      ∙ ap (λ m. crypto.decrypt k (nonce_for m) (l ++ to_be 8 n) s.0 s.1)
          (of_be-to_be 8 n (omega (arith, h)))
      ∙ cipher.deciphers k (nonce_for n) (l ++ to_be 8 n) p

  open_frame-frame :
      (r : SealedChannel) (n : ℕ) (p : Bytes)
      → n < max_counter
      → r.highest_received < n
      → open_frame crypto r (frame_of crypto r.recv_key r.label_bytes n p)
        ≡ (record r { highest_received = n }, returns p)
  unfolding open_frame
  open_frame-frame r n p h l =
      let f = frame_of crypto r.recv_key r.label_bytes n p in
      let counter : of_be (take 8 f) ≡ n = frame-counter r.recv_key r.label_bytes n p h in
      let P : SealedChannel × Result Bytes → Type 0 =
        λ x. x ≡ (record r { highest_received = n }, returns p) in
      if_cases P (ltb (length f) 24)
        (λ e.
          absurd (omega (arith, ltb→lt (length f) 24 e, length-frame r.recv_key r.label_bytes n p)))
        (λ _.
          if_cases P (of_be (take 8 f) == 0 || leb max_counter (of_be (take 8 f)))
            (λ e. absurd (
              in_range (of_be (take 8 f)) (omega (arith, counter, l)) (omega (arith, counter, h))
                e))
            (λ _.
              if_cases P (leb (of_be (take 8 f)) r.highest_received)
                (λ e.
                  absurd
                    (omega (arith, leb→le (of_be (take 8 f)) r.highest_received e, counter, l)))
                (λ _.
                  ap (received crypto r (of_be (take 8 f))) (deciphered-frame r n p h)
                  ∙ ap (λ m. (record r { highest_received = m }, returns p)) counter)))

  seal-frame :
      (s : SealedChannel) (p : Bytes)
      → s.sent + 1 < max_counter
      → seal crypto s p ≡ (
        record s { sent = suc s.sent },
        returns (frame_of crypto s.send_key s.label_bytes (suc s.sent) p),
      )
  unfolding seal
  seal-frame s p h =
      if_cases
        (λ x. x ≡ (
          record s { sent = suc s.sent },
          returns (frame_of crypto s.send_key s.label_bytes (suc s.sent) p),
        ))
        (leb max_counter (s.sent + 1))
        (λ e. absurd (omega (arith, leb→le max_counter (s.sent + 1) e, h))) (λ _. refl)

  -- If the cipher deciphers what it encrypted, then a frame sealed before the channel is exhausted
  -- is opened by the channel it is paired with, which gives the text, and the two stay paired
  -- whether the frame arrives or is lost.
  pub open_frame-seal :
      (s r : SealedChannel) (p : Bytes)
      → IsPaired s r
      → s.sent + 1 < max_counter
      → let f = frame_of crypto s.send_key s.label_bytes (suc s.sent) p in
        let s' = record s { sent = suc s.sent } in
        let r' = record r { highest_received = suc s.sent } in
        (seal crypto s p ≡ (s', returns f))
        × (open_frame crypto r f ≡ (r', returns p))
        × IsPaired s' r'
        × IsPaired s' r
  open_frame-seal s r p h l = (
    seal-frame s p l,
    ap (λ k. open_frame crypto r (frame_of crypto k s.label_bytes (suc s.sent) p)) h.key
        ∙ ap (λ b. open_frame crypto r (frame_of crypto r.recv_key b (suc s.sent) p)) h.label
        ∙ open_frame-frame r (suc s.sent) p (omega (arith, l)) (omega (arith, h.behind)),
    record { key = h.key; label = h.label; behind = omega arith },
    record { key = h.key; label = h.label; behind = omega (arith, h.behind) },
  )

abbrev value : SealedChannel → Result SealedChannel → SealedChannel
value d (throws message) = d
value d (returns c) = c

abbrev IsNew : (crypto : Crypto) → Bytes → String → PeerRole → Result SealedChannel → Type 0
IsNew crypto root label role x =
    (c : SealedChannel)
    → x ≡ returns c
    → (c.send_key ≡ channel_key crypto root label role)
      × (c.recv_key ≡ channel_key crypto root label (other role))
      × (c.label_bytes ≡ crypto.utf8 label)
      × (c.sent ≡ 0)
      × (c.highest_received ≡ 0)

new_channel-IsNew :
    (crypto : Crypto) (root : Bytes) (label : String) (role : PeerRole)
    → IsNew crypto root label role (new_channel crypto root label role)
unfolding new_channel
new_channel-IsNew crypto root label role =
    let P = IsNew crypto root label role in
    if_both P (not (length root == 32)) (λ c e. cc)
      (if_both P (str_eq label "" || ltb 64 (crypto.units label)) (λ c e. cc)
        (λ c e.
          let same = sym (ap (value c) e) in
          (
            ap (λ (x : SealedChannel). x.send_key) same,
            ap (λ (x : SealedChannel). x.recv_key) same,
            ap (λ (x : SealedChannel). x.label_bytes) same,
            ap (λ (x : SealedChannel). x.sent) same,
            ap (λ (x : SealedChannel). x.highest_received) same,
          )))

twice : (role : PeerRole) → other (other role) ≡ role
twice host = refl
twice viewer = refl

-- Two channels that are made of one root and one label for opposite roles are paired both ways.
pub new_channel-IsPaired :
    (crypto : Crypto) (root : Bytes) (label : String) (role : PeerRole) (a b : SealedChannel)
    → new_channel crypto root label role ≡ returns a
    → new_channel crypto root label (other role) ≡ returns b
    → IsPaired a b × IsPaired b a
new_channel-IsPaired crypto root label role a b ea eb =
    let x = new_channel-IsNew crypto root label role a ea in
    let y = new_channel-IsNew crypto root label (other role) b eb in
    (
      record {
        key = x.0 ∙ ap (channel_key crypto root label) (sym (twice role)) ∙ sym y.1;
        label = x.2 ∙ sym y.2;
        behind = omega (arith, x.3, y.4);
      },
      record { key = y.0 ∙ sym x.1; label = y.2 ∙ sym x.2; behind = omega (arith, x.4, y.3) },
    )
