-- ===== src/Trusted.antt =====
-- apps/desktop/src/trusted.ts: `TrustedDevices`. That a write of the file is due is a count; each
-- reading of the clock is an argument, but a pass of `prune` has one.
pub mod Promise
pub mod Refinement
mod Tests
use hop_desk.JsMap
use hop_desk.JsMap.{JsMap}
use hop_desk.Bytes.{Bytes}
use hop_desk.Encoding.{equal_bytes}
use hop_desk.Keys.{Primitives}
use hop_desk.Handshake.{b64}
use hop_desk.Handshake.Viewer.{take_text}
use hop_desk.Common.{
  Bool, List, Option, String, [], false, if◌then◌else◌, leb, none, not, set, some, str_eq, suc, ℕ,
  ◌+◌, ◌==◌, ◌∷◌,
}

pub record TrustedDevice : Type 0 where
  pub device_id : String
  pub key : String
  pub name : String
  pub added_at : ℕ
  pub last_used : ℕ
  pub expires_at : ℕ

pub record TrustedDevices : Type 0 where
  pub devices : JsMap TrustedDevice
  pub ttl_ms : ℕ
  pub flushes : ℕ

abbrev pub trust_ttl_ms : ℕ
trust_ttl_ms = 7_776_000_000

unfoldable pub new_trusted : TrustedDevices
new_trusted = record { devices = []; ttl_ms = trust_ttl_ms; flushes = 0 }

abbrev pub or_else : String → String → String
or_else s other = if str_eq s "" then other else s

-- `this.devices.get(viewer.viewerId)?.addedAt ?? this.now()`
abbrev pub added_at_of : Option TrustedDevice → ℕ → ℕ
added_at_of none t = t
added_at_of (some d) t = d.added_at

abbrev pub written : TrustedDevices → JsMap TrustedDevice → TrustedDevices
written s devices = record s { devices = devices; flushes = suc s.flushes }

abbrev pub renew_found :
    TrustedDevices → String → (t t' : ℕ) → Option TrustedDevice → TrustedDevices
renew_found s id t t' none = s
renew_found s id t t' (some d) =
    written s (JsMap.set id (record d { last_used = t; expires_at = t' + s.ttl_ms }) s.devices)

unfoldable pub renew : TrustedDevices → String → (t t' : ℕ) → TrustedDevices
renew s id t t' = renew_found s id t t' (JsMap.get id s.devices)

abbrev pub remove_found :
    TrustedDevices → String → Option TrustedDevice → TrustedDevices × Option TrustedDevice
remove_found s id none = (s, none)
remove_found s id (some d) = (written s (JsMap.delete id s.devices), some d)

unfoldable pub remove_device : TrustedDevices → String → TrustedDevices × Option TrustedDevice
remove_device s id = remove_found s id (JsMap.get id s.devices)

abbrev pub is_live : ℕ → TrustedDevice → Bool
is_live t d = not (leb d.expires_at t)

unfoldable pub prune : TrustedDevices → ℕ → TrustedDevices
prune s t =
    let kept = JsMap.keep (λ id d. is_live t d) s.devices in
    if JsMap.size kept == JsMap.size s.devices then record s { devices = kept } else written s kept

abbrev pub has_key : Option Bytes → Bytes → Bool
has_key none key = false
has_key (some k) key = equal_bytes k key

module _ (p : Primitives) where
  unfoldable pub add_device :
      TrustedDevices
      → (viewer_id : String) → (viewer_key : Bytes) → (viewer_name : String) → (t t' t'' : ℕ)
      → TrustedDevices
  add_device s viewer_id viewer_key viewer_name t t' t'' = written s (
      JsMap.set viewer_id
        (record {
          device_id = viewer_id;
          key = p.base64 viewer_key;
          name = or_else (take_text 64 viewer_name) viewer_id;
          added_at = added_at_of (JsMap.get viewer_id s.devices) t;
          last_used = t';
          expires_at = t'' + s.ttl_ms;
        })
        s.devices)

  abbrev pub trusts_found :
      TrustedDevices → String → Bytes → ℕ → Option TrustedDevice → TrustedDevices × Bool
  trusts_found s id key t none = (s, false)
  trusts_found s id key t (some d) =
      if leb d.expires_at t
      then (written s (JsMap.delete id s.devices), false)
      else (s, has_key (b64 p d.key) key)

  unfoldable pub trusts : TrustedDevices → String → Bytes → ℕ → TrustedDevices × Bool
  trusts s id key t = trusts_found s id key t (JsMap.get id s.devices)

-- A call of the store.
pub data TrustOp : Type 0 where
  adds : (id : String) (key : Bytes) (name : String) (t t' t'' : ℕ) → TrustOp
  asks : (id : String) (key : Bytes) (t : ℕ) → TrustOp
  renews : (id : String) (t t' : ℕ) → TrustOp
  removes : (id : String) → TrustOp
  prunes : (t : ℕ) → TrustOp

module _ (p : Primitives) where
  unfoldable pub step : TrustedDevices → TrustOp → TrustedDevices
  step s (adds id key name t t' t'') = add_device p s id key name t t' t''
  step s (asks id key t) = (trusts p s id key t).0
  step s (renews id t t') = renew s id t t'
  step s (removes id) = (remove_device s id).0
  step s (prunes t) = prune s t

  unfoldable pub run : TrustedDevices → List TrustOp → TrustedDevices
  run s [] = s
  run s (o ∷ os) = run (step s o) os
