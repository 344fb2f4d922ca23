-- ===== src/Handshake/Laws.antt =====
-- What the handshake relies on of the primitives, and the two checks of an honest side.
use hop_desk.Bytes.{Bytes}
use hop_desk.Encoding.{truthy, encode_fields}
use hop_desk.Encoding.Field.{bytes_field}
use hop_desk.Channel.{throws, returns, derive_session_root}
use hop_desk.Keys.{Primitives}
use hop_desk.Keys.Identity.{device_id_from_public_key, DeviceIdentity, sign, verify, utf8}
use hop_desk.Handshake.{
  ChallengeMessage, ConfirmMessage, Outcome, host_label, viewer_label, b64, signed_body, root_for,
  root_of, error_of,
}
use hop_desk.Handshake.Outcome.{accepts, rejects}
use hop_desk.Handshake.ErrorCode.{protocol}
use hop_desk.Handshake.Host.{HostAuthenticator, AuthenticatedViewer, Pending, settle_attempt}
use hop_desk.Handshake.Confirm.{
  confirm, viewer_with, with_confirmation, with_signature, confirms, root_with, viewer_body,
}
use hop_desk.Handshake.Viewer.{ViewerHandshake, AuthenticatedHost}
use hop_desk.Common.{
  ==_iff, List, Option, String, [], ap, false, if_false, if_true, length, ltb, map, refl, some,
  str_eq, subst⁻¹, true, ℕ, ◌==◌, ◌∙◌, ◌∷◌, ◌≡◌, eq_refl, none, not, some_injective, sym,
}
use hop_desk.Handshake.Answer.{
  check_signature, reply_with, by_secret, mismatches, on_challenge, with_host_id, with_host_key,
}

-- Base64 reads back, and shows what is not empty; a digest has 32 bytes, and what is derived of a
-- key has the length that is asked for.
pub record IsFaithful (p : Primitives) : Type 0 where
  pub round : (b : Bytes) → b64 p (p.base64 b) ≡ some b
  pub shows : (b : Bytes) → ltb 0 (length b) ≡ true → str_eq (p.base64 b) "" ≡ false
  pub digest : (b : Bytes) → length (p.sha256 b) ≡ 32
  pub expands : (secret salt info : Bytes) (n : ℕ) → length (p.hkdf_to secret salt info n) ≡ n

-- The signatures of an identity verify with its public key.
abbrev pub IsIdentity : Primitives → DeviceIdentity → Type 0
IsIdentity p identity =
    (label : String) (m : Bytes)
    → verify p identity.public_key label m (sign p identity label m) ≡ true

module _ (p : Primitives) (faithful : IsFaithful p) where
  derive_session_root-root :
      (ke hash : Bytes)
      → ltb (length ke) 16 ≡ false
      → length hash ≡ 32
      → derive_session_root p.crypto ke hash
        ≡ returns (p.crypto.hkdf ke hash (p.crypto.utf8 "hopdesk/session-root/v1"))
  unfolding derive_session_root
  derive_session_root-root ke hash e d =
      if_false (ltb (length ke) 16) (throws "Session secret too short") _ e
      ∙ if_true (length hash == 32) _ _ ((==_iff (length hash) 32).1 d)

  -- A secret of at least 16 bytes gives a root.
  pub root_for-root :
      (ke : Bytes) (parts : List Bytes)
      → ltb (length ke) 16 ≡ false
      → (root : Bytes) × (root_for p ke parts ≡ some root)
  unfolding root_for
  root_for-root ke parts e =
      let hash = p.sha256 (encode_fields (utf8 p) (map bytes_field parts)) in
      (
        p.crypto.hkdf ke hash (p.crypto.utf8 "hopdesk/session-root/v1"),
        ap root_of (derive_session_root-root ke hash e (faithful.digest _)),
      )

  -- The answer of an honest viewer, `a` its share and `b` the host's.
  abbrev pub answer : ViewerHandshake → (bound a b mac : Bytes) → ConfirmMessage
  answer v bound a b mac = record {
    confirm = p.base64 mac;
    signature = p.base64 (sign p v.opts.identity viewer_label (signed_body p bound a b mac));
  }

  abbrev pub host_of :
      ViewerHandshake → ChallengeMessage → (host_key root : Bytes) → AuthenticatedHost
  host_of v c host_key root = record {
    host_id = v.opts.host_id;
    host_key = host_key;
    host_name = c.host_name;
    root = root;
  }

  -- A viewer takes the signature of the host's identity.
  pub check_signature-honest :
      (v : ViewerHandshake) (c : ChallengeMessage) (identity : DeviceIdentity)
      (bound a b mac theirs ke root : Bytes)
      → IsIdentity p identity
      → c.signature ≡ p.base64 (sign p identity host_label (signed_body p bound a b theirs))
      → root_for p ke (bound ∷ a ∷ b ∷ mac ∷ theirs ∷ []) ≡ some root
      → check_signature p v c identity.public_key bound a b mac theirs ke (b64 p c.signature)
        ≡ accepts (answer v bound a b mac, host_of v c identity.public_key root)
  check_signature-honest v c identity bound a b mac theirs ke root i s r =
      let body = signed_body p bound a b theirs in
      let check : Option Bytes → Outcome (ConfirmMessage × AuthenticatedHost) =
        check_signature p v c identity.public_key bound a b mac theirs ke in
      ap (λ x. check (b64 p x)) s
      ∙ ap check (faithful.round (sign p identity host_label body))
      ∙ if_true (verify p identity.public_key host_label body (sign p identity host_label body)) _ _
          (i host_label body)
      ∙ ap (reply_with p v c identity.public_key (signed_body p bound a b mac) mac) r

  -- A host takes the confirmation that is due with the signature of the viewer's identity.
  pub confirm-honest :
      (h : HostAuthenticator) (s : Pending) (identity : DeviceIdentity) (mac root : Bytes)
      (t t' : ℕ)
      → IsIdentity p identity
      → s.done ≡ false
      → s.viewer_key ≡ identity.public_key
      → confirms s.proof mac ≡ true
      → root_with p s.proof mac ≡ some root
      → (viewer : AuthenticatedViewer) × ((confirm p h s
            (record {
              confirm = p.base64 mac;
              signature = p.base64 (sign p identity viewer_label (viewer_body p s.proof mac));
            })
            t
            t').2
          ≡ accepts viewer)
        × (viewer.root ≡ root)
  unfolding confirm
  confirm-honest h s identity mac root t t' i d k e r =
      let body = viewer_body p s.proof mac in
      let signature = sign p identity viewer_label body in
      let message : ConfirmMessage = record {
        confirm = p.base64 mac;
        signature = p.base64 signature;
      } in
      let tried : HostAuthenticator × Outcome AuthenticatedViewer =
        with_confirmation p h s message t t' (b64 p (p.base64 mac)) in
      let verified : verify p s.viewer_key viewer_label body signature ≡ true =
        subst⁻¹ (λ key. verify p key viewer_label body signature ≡ true) k (i viewer_label body) in
      (
        _,
        ap (λ (r : HostAuthenticator × Pending × Outcome AuthenticatedViewer). r.2)
              (if_false s.done (h, s, _) (tried.0, record s { done = true }, tried.1) d)
            ∙ ap (λ (r : HostAuthenticator × Outcome AuthenticatedViewer). r.1)
                (ap (with_confirmation p h s message t t') (faithful.round mac)
                  ∙ if_true (confirms s.proof mac) _ _ e
                  ∙ ap (with_signature p h s mac t t') (faithful.round signature)
                  ∙ if_true (verify p s.viewer_key viewer_label body signature) _ _ verified
                  ∙ ap (λ o. (settle_attempt h s.attempt true t t', viewer_with s o)) r),
        refl,
      )

  -- A field that an honest side has set reads as the bytes that it shows.
  pub truthy-shown :
      (b : Bytes) → ltb 0 (length b) ≡ true → truthy (some (p.base64 b)) ≡ some (p.base64 b)
  truthy-shown b l = if_false (str_eq (p.base64 b) "") none _ (faithful.shows b l)

  pub reads_shown :
      (b y : Bytes) (o : Option String) (x : String)
      → ltb 0 (length b) ≡ true
      → o ≡ some (p.base64 b)
      → truthy o ≡ some x
      → b64 p x ≡ some y
      → y ≡ b
  reads_shown b y o x l e h r =
      let same : x ≡ p.base64 b =
        some_injective x (p.base64 b) (sym h ∙ ap truthy e ∙ truthy-shown b l) in
      some_injective y b (sym r ∙ ap (b64 p) same ∙ faithful.round b)

  -- A viewer that has not finished takes the key of the host it looks for.
  pub on_challenge-checked :
      (v : ViewerHandshake) (c : ChallengeMessage) (key : Bytes)
      → v.finished ≡ false
      → c.host_key ≡ p.base64 key
      → device_id_from_public_key p key ≡ some v.opts.host_id
      → mismatches p v.opts.expected_host_key c.host_key ≡ false
      → (on_challenge p v c).1 ≡ by_secret p v c key v.secret
  unfolding on_challenge
  on_challenge-checked v c key f k d m =
      let r = with_host_key p v c (b64 p c.host_key) in
      ap (λ (x : ViewerHandshake × Outcome (ConfirmMessage × AuthenticatedHost)). x.1)
        (if_false v.finished (v, rejects (error_of protocol)) (record v { finished = true }, r) f)
      ∙ ap (with_host_key p v c) (ap (b64 p) k ∙ faithful.round key)
      ∙ ap (with_host_id p v c key) d
      ∙ if_false (not (str_eq v.opts.host_id v.opts.host_id)) _ _ (ap not (eq_refl v.opts.host_id))
      ∙ if_false (mismatches p v.opts.expected_host_key c.host_key) _ _ m
