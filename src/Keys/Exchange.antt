-- ===== src/Keys/Exchange.antt =====
-- packages/crypto/src/exchange.ts: the ephemeral exchange between devices that know each other.
use hop_desk.Bytes.{Bytes, take, drop}
use hop_desk.Keys.{Primitives}
use hop_desk.Common.{Bool, Option, [], if◌then◌else◌, length, none, some, true, ◌&&◌, ◌==◌, ◌∷◌}

pub record EphemeralKeyPair : Type 0 where
  pub secret_key : Bytes
  pub public_key : Bytes

pub record Exchanged : Type 0 where
  pub ke : Bytes
  pub viewer_confirm : Bytes
  pub host_confirm : Bytes

unfoldable pub all_zero : Bytes → Bool
all_zero [] = true
all_zero (b ∷ bs) = b == 0 && all_zero bs

module _ (p : Primitives) where
  -- `generateEphemeral`, the secret drawn by the library as an argument.
  unfoldable pub ephemeral_of : Bytes → EphemeralKeyPair
  ephemeral_of secret = record { secret_key = secret; public_key = p.x_public secret }

  unfoldable pub exchanged : (shared binding : Bytes) → Exchanged
  exchanged shared binding =
      let keys = p.hkdf_to shared binding (p.crypto.utf8 "hopdesk/account-exchange/v1") 64 in
      let mac_key = take 32 (drop 32 keys) in
      record {
        ke = take 16 keys;
        viewer_confirm = p.hmac mac_key (p.crypto.utf8 "viewer");
        host_confirm = p.hmac mac_key (p.crypto.utf8 "host");
      }

  abbrev pub exchange_shared : (binding : Bytes) → Option Bytes → Option Exchanged
  exchange_shared binding none = none
  exchange_shared binding (some shared) =
      if all_zero shared then none else some (exchanged shared binding)

  -- `deriveExchange`, `none` where it throws.
  unfoldable pub derive_exchange :
      EphemeralKeyPair → (their_public binding : Bytes) → Option Exchanged
  derive_exchange ours their_public binding =
      if length their_public == 32
      then exchange_shared binding (p.x_shared ours.secret_key their_public)
      else none
