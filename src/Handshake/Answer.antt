-- ===== src/Handshake/Answer.antt =====
-- packages/protocol/src/handshake.ts: `onChallenge` and `finishAccount` of `ViewerHandshake`. The
-- flag of the SPAKE2 object, which nothing reads again, stays as it was.
use hop_desk.Bytes.{Bytes}
use hop_desk.Encoding.{equal_bytes, truthy}
use hop_desk.Keys.{Primitives}
use hop_desk.Keys.Identity.{sign, verify, device_id_from_public_key}
use hop_desk.Keys.Spake.{Spake, SpakeResult, finish, verify_peer}
use hop_desk.Keys.Exchange.{EphemeralKeyPair, Exchanged, derive_exchange}
use hop_desk.Handshake.{
  ChallengeMessage, ConfirmMessage, Outcome, error_of, host_label, viewer_label, b64, binding,
  signed_body, root_for,
}
use hop_desk.Handshake.ErrorCode.{identity_mismatch, bad_auth, protocol}
use hop_desk.Handshake.Outcome.{rejects, accepts, raises}
use hop_desk.Handshake.Viewer.{ViewerHandshake, AuthenticatedHost, ViewerSecret}
use hop_desk.Handshake.Viewer.ViewerSecret.{by_spake, by_ephemeral}
use hop_desk.Common.{
  Bool, Option, String, [], false, if◌then◌else◌, none, not, some, str_eq, true, ◌∷◌,
}

module _ (p : Primitives) where
  abbrev pub reply_with :
      ViewerHandshake
      → ChallengeMessage
      → (host_key body mac : Bytes) → Option Bytes
      → Outcome (ConfirmMessage × AuthenticatedHost)
  reply_with v challenge host_key body mac none = raises
  reply_with v challenge host_key body mac (some root) = accepts (
    record {
      confirm = p.base64 mac;
      signature = p.base64 (sign p v.opts.identity viewer_label body);
    },
    record {
      host_id = v.opts.host_id;
      host_key = host_key;
      host_name = challenge.host_name;
      root = root;
    },
  )

  -- The check of the host's signature, and the answer: `a` is the viewer's share or key, `b` the
  -- host's, `theirs` the host's confirmation.
  abbrev pub check_signature :
      ViewerHandshake
      → ChallengeMessage
      → (host_key bind a b mac theirs ke : Bytes) → Option Bytes
      → Outcome (ConfirmMessage × AuthenticatedHost)
  check_signature v challenge host_key bind a b mac theirs ke none = raises
  check_signature v challenge host_key bind a b mac theirs ke (some signature) =
      if verify p host_key host_label (signed_body p bind a b theirs) signature
      then reply_with v challenge host_key (signed_body p bind a b mac) mac
          (root_for p ke (bind ∷ a ∷ b ∷ mac ∷ theirs ∷ []))
      else rejects (error_of identity_mismatch)

  abbrev pub check_spake :
      ViewerHandshake
      → ChallengeMessage
      → (host_key bind p_a p_b : Bytes) → SpakeResult
      → Option Bytes
      → Outcome (ConfirmMessage × AuthenticatedHost)
  check_spake v challenge host_key bind p_a p_b result none = raises
  check_spake v challenge host_key bind p_a p_b result (some theirs) =
      if verify_peer result theirs
      then check_signature v challenge host_key bind p_a p_b result.confirmation theirs result.ke
          (b64 p challenge.signature)
      else rejects (error_of bad_auth)

  abbrev pub finish_spake :
      ViewerHandshake
      → ChallengeMessage
      → (host_key bind p_a p_b : Bytes) → Option SpakeResult
      → Outcome (ConfirmMessage × AuthenticatedHost)
  finish_spake v challenge host_key bind p_a p_b none = rejects (error_of protocol)
  finish_spake v challenge host_key bind p_a p_b (some result) =
      check_spake v challenge host_key bind p_a p_b result (b64 p challenge.confirm)

  abbrev pub bound_spake :
      ViewerHandshake
      → ChallengeMessage
      → (host_key : Bytes) → Spake
      → Option Bytes
      → Option Bytes
      → Outcome (ConfirmMessage × AuthenticatedHost)
  bound_spake v challenge host_key spake (some bind) (some p_b) =
      finish_spake v challenge host_key bind spake.share p_b (finish p spake p_b bind).1
  bound_spake v challenge host_key spake bind p_b = raises

  abbrev pub finish_code :
      ViewerHandshake
      → ChallengeMessage
      → (host_key : Bytes) → Spake
      → Option String
      → Outcome (ConfirmMessage × AuthenticatedHost)
  finish_code v challenge host_key spake none = rejects (error_of protocol)
  finish_code v challenge host_key spake (some share) =
      bound_spake v challenge host_key spake
        (binding p v.hello challenge.host_key challenge.host_name challenge.nonce none)
        (b64 p share)

  abbrev pub check_exchange :
      ViewerHandshake
      → ChallengeMessage
      → (host_key bind viewer_dh host_dh : Bytes) → Exchanged
      → Option Bytes
      → Outcome (ConfirmMessage × AuthenticatedHost)
  check_exchange v challenge host_key bind viewer_dh host_dh derived none = raises
  check_exchange v challenge host_key bind viewer_dh host_dh derived (some theirs) =
      if equal_bytes theirs derived.host_confirm
      then check_signature v challenge host_key bind viewer_dh host_dh derived.viewer_confirm
          derived.host_confirm derived.ke (b64 p challenge.signature)
      else rejects (error_of bad_auth)

  abbrev pub finish_exchange :
      ViewerHandshake
      → ChallengeMessage
      → (host_key bind viewer_dh host_dh : Bytes) → Option Exchanged
      → Outcome (ConfirmMessage × AuthenticatedHost)
  finish_exchange v challenge host_key bind viewer_dh host_dh none = rejects (error_of protocol)
  finish_exchange v challenge host_key bind viewer_dh host_dh (some derived) =
      check_exchange v challenge host_key bind viewer_dh host_dh derived (b64 p challenge.confirm)

  abbrev pub bound_exchange :
      ViewerHandshake
      → ChallengeMessage
      → (host_key : Bytes) → EphemeralKeyPair
      → Option Bytes
      → Option Bytes
      → Outcome (ConfirmMessage × AuthenticatedHost)
  bound_exchange v challenge host_key ours (some bind) (some host_dh) =
      finish_exchange v challenge host_key bind ours.public_key host_dh
        (derive_exchange p ours host_dh bind)
  bound_exchange v challenge host_key ours bind host_dh = raises

  abbrev pub finish_account :
      ViewerHandshake
      → ChallengeMessage
      → (host_key : Bytes) → EphemeralKeyPair
      → Option String
      → Outcome (ConfirmMessage × AuthenticatedHost)
  finish_account v challenge host_key ours none = rejects (error_of protocol)
  finish_account v challenge host_key ours (some dh) =
      bound_exchange v challenge host_key ours
        (binding p v.hello challenge.host_key challenge.host_name challenge.nonce (some dh))
        (b64 p dh)

  abbrev pub by_secret :
      ViewerHandshake
      → ChallengeMessage
      → (host_key : Bytes) → ViewerSecret
      → Outcome (ConfirmMessage × AuthenticatedHost)
  by_secret v challenge host_key (by_ephemeral ours) =
      finish_account v challenge host_key ours (truthy challenge.dh)
  by_secret v challenge host_key (by_spake spake) =
      finish_code v challenge host_key spake (truthy challenge.share)

  -- Whether a key is pinned and another one is presented.
  abbrev pub mismatches : Option Bytes → (host_key : String) → Bool
  mismatches none host_key = false
  mismatches (some pinned) host_key = not (str_eq (p.base64 pinned) host_key)

  abbrev pub with_host_id :
      ViewerHandshake
      → ChallengeMessage
      → (host_key : Bytes) → Option String
      → Outcome (ConfirmMessage × AuthenticatedHost)
  with_host_id v challenge host_key none = raises
  with_host_id v challenge host_key (some id) =
      if not (str_eq id v.opts.host_id)
      then rejects (error_of identity_mismatch)
      else if mismatches v.opts.expected_host_key challenge.host_key
      then rejects (record {
        code = identity_mismatch;
        retry_after_ms = none;
        presented_key = some challenge.host_key;
      })
      else by_secret v challenge host_key v.secret

  abbrev pub with_host_key :
      ViewerHandshake
      → ChallengeMessage
      → Option Bytes
      → Outcome (ConfirmMessage × AuthenticatedHost)
  with_host_key v challenge none = raises
  with_host_key v challenge (some host_key) =
      with_host_id v challenge host_key (device_id_from_public_key p host_key)

  -- The handshake after `onChallenge`, and what it gives.
  unfoldable pub on_challenge :
      ViewerHandshake
      → ChallengeMessage
      → ViewerHandshake × Outcome (ConfirmMessage × AuthenticatedHost)
  on_challenge v challenge =
      let r = with_host_key v challenge (b64 p challenge.host_key) in
      if v.finished then (v, rejects (error_of protocol)) else (record v { finished = true }, r)
