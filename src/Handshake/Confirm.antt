-- ===== src/Handshake/Confirm.antt =====
-- packages/protocol/src/handshake.ts: `confirm` and `abandon` of a pending handshake. `t` and `t'`
-- are the readings of the clock when an attempt is settled.
use hop_desk.Bytes.{Bytes}
use hop_desk.Encoding.{equal_bytes, truthy}
use hop_desk.Keys.{Primitives}
use hop_desk.Keys.Identity.{verify}
use hop_desk.Keys.Spake.{verify_peer}
use hop_desk.Handshake.{
  HelloMessage, ConfirmMessage, Outcome, error_of, viewer_label, b64, root_for, signed_body,
}
use hop_desk.Handshake.ErrorCode.{bad_auth, protocol}
use hop_desk.Handshake.Outcome.{rejects, accepts, raises}
use hop_desk.Handshake.Host.{HostAuthenticator, AuthenticatedViewer, Pending, Proof, settle_attempt}
use hop_desk.Handshake.Host.Proof.{spake_proof, exchange_proof}
use hop_desk.Common.{Bool, Option, String, [], false, if◌then◌else◌, none, some, true, ℕ, ◌∷◌}

-- An exchange leaves the grant out, which it never has.
abbrev grant_of : Proof → HelloMessage → Option String
grant_of (spake_proof result bind p_a p_b) hello = truthy hello.grant_id
grant_of (exchange_proof derived bind viewer_dh host_dh) hello = none

abbrev pub viewer_with : Pending → Option Bytes → Outcome AuthenticatedViewer
viewer_with pending none = raises
viewer_with pending (some root) = accepts (record {
  viewer_id = pending.hello.viewer_id;
  viewer_key = pending.viewer_key;
  viewer_name = pending.hello.viewer_name;
  auth = pending.hello.auth;
  grant_id = grant_of pending.proof pending.hello;
  root = root;
})

-- Whether the confirmation is the one that was due.
abbrev pub confirms : Proof → Bytes → Bool
confirms (spake_proof result bind p_a p_b) mac = verify_peer result mac
confirms (exchange_proof derived bind viewer_dh host_dh) mac =
    equal_bytes mac derived.viewer_confirm

module _ (p : Primitives) where
  abbrev pub viewer_body : Proof → (mac : Bytes) → Bytes
  viewer_body (spake_proof result bind p_a p_b) mac = signed_body p bind p_a p_b mac
  viewer_body (exchange_proof derived bind viewer_dh host_dh) mac =
      signed_body p bind viewer_dh host_dh mac

  abbrev pub root_with : Proof → (mac : Bytes) → Option Bytes
  root_with (spake_proof result bind p_a p_b) mac =
      root_for p result.ke (bind ∷ p_a ∷ p_b ∷ mac ∷ result.confirmation ∷ [])
  root_with (exchange_proof derived bind viewer_dh host_dh) mac =
      root_for p derived.ke (bind ∷ viewer_dh ∷ host_dh ∷ mac ∷ derived.host_confirm ∷ [])

  abbrev pub with_signature :
      HostAuthenticator
      → Pending
      → (mac : Bytes) → (t t' : ℕ) → Option Bytes
      → HostAuthenticator × Outcome AuthenticatedViewer
  with_signature h pending mac t t' none = (h, raises)
  with_signature h pending mac t t' (some signature) =
      if verify p pending.viewer_key viewer_label (viewer_body pending.proof mac) signature
      then (
        settle_attempt h pending.attempt true t t',
        viewer_with pending (root_with pending.proof mac),
      )
      else (settle_attempt h pending.attempt false t t', rejects (error_of protocol))

  abbrev pub with_confirmation :
      HostAuthenticator
      → Pending
      → ConfirmMessage
      → (t t' : ℕ) → Option Bytes
      → HostAuthenticator × Outcome AuthenticatedViewer
  with_confirmation h pending message t t' none = (h, raises)
  with_confirmation h pending message t t' (some mac) =
      if confirms pending.proof mac
      then with_signature h pending mac t t' (b64 p message.signature)
      else (settle_attempt h pending.attempt false t t', rejects (error_of bad_auth))

  -- The host, the pending handshake and what `confirm` gives.
  unfoldable pub confirm :
      HostAuthenticator
      → Pending
      → ConfirmMessage
      → (t t' : ℕ) → HostAuthenticator × Pending × Outcome AuthenticatedViewer
  confirm h pending message t t' =
      let r = with_confirmation h pending message t t' (b64 p message.confirm) in
      if pending.done
      then (h, pending, rejects (error_of protocol))
      else (r.0, record pending { done = true }, r.1)

unfoldable pub abandon : HostAuthenticator → Pending → (t t' : ℕ) → HostAuthenticator × Pending
abandon h pending t t' =
    if pending.done
    then (h, pending)
    else (settle_attempt h pending.attempt false t t', record pending { done = true })
