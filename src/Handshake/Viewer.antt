-- ===== src/Handshake/Viewer.antt =====
-- packages/protocol/src/handshake.ts: `ViewerHandshake`. What is drawn at random and the reading of
-- the clock are a `ViewerDraw`. A name is of characters that take one unit of UTF-16.
use Prim.Native.String.{◌++◌ as append}
use hop_desk.Bytes.{Bytes}
use hop_desk.Keys.{Primitives}
use hop_desk.Keys.Identity.{
  DeviceIdentity, device_id_from_public_key, password_scalar, secret_scalar, utf8,
}
use hop_desk.Keys.Spake.{Spake, new_spake}
use hop_desk.Keys.Spake.SpakeRole.{role_a}
use hop_desk.Keys.Exchange.{EphemeralKeyPair, ephemeral_of}
use hop_desk.Handshake.{AuthKind, HelloMessage, protocol_version}
use hop_desk.Handshake.AuthKind.{code_auth, grant_auth, paired_auth, account_auth}
use hop_desk.Common.{Bool, Option, String, false, none, some, suc, zero, ℕ, ◌>>=◌}

pub data ViewerCredential : Type 0 where
  code_credential : (secret_code : String) → ViewerCredential
  grant_credential : (id : String) (secret : Bytes) → ViewerCredential
  paired_credential account_credential : ViewerCredential

abbrev pub credential_kind : ViewerCredential → AuthKind
credential_kind (code_credential secret_code) = code_auth
credential_kind (grant_credential id secret) = grant_auth
credential_kind paired_credential = paired_auth
credential_kind account_credential = account_auth

abbrev pub credential_grant : ViewerCredential → Option String
credential_grant (code_credential secret_code) = none
credential_grant (grant_credential id secret) = some id
credential_grant paired_credential = none
credential_grant account_credential = none

pub record ViewerHandshakeOptions : Type 0 where
  pub identity : DeviceIdentity
  pub viewer_name : String
  pub host_id : String
  pub credential : ViewerCredential
  pub expected_host_key : Option Bytes

pub record ViewerDraw : Type 0 where
  pub nonce : Bytes
  pub time : ℕ
  pub scalar : ℕ
  pub ephemeral : Bytes

pub data ViewerSecret : Type 0 where
  by_spake : Spake → ViewerSecret
  by_ephemeral : EphemeralKeyPair → ViewerSecret

pub record ViewerHandshake : Type 0 where
  pub finished : Bool
  pub opts : ViewerHandshakeOptions
  pub secret : ViewerSecret
  pub hello : HelloMessage

pub record AuthenticatedHost : Type 0 where
  pub host_id : String
  pub host_key : Bytes
  pub host_name : String
  pub root : Bytes

-- `s.slice(0, k)`
abbrev pub take_text : ℕ → String → String
take_text zero s = ""
take_text (suc k) String.[] = ""
take_text (suc k) (String.◌∷◌ c s) = String.◌∷◌ c (take_text k s)

module _ (p : Primitives) where
  abbrev pub hello_with :
      ViewerHandshakeOptions
      → ViewerDraw
      → (viewer_id : String) (share dh : Option String) → HelloMessage
  hello_with opts draw viewer_id share dh = record {
    v = protocol_version;
    host_id = opts.host_id;
    viewer_id = viewer_id;
    viewer_key = p.base64 opts.identity.public_key;
    viewer_name = take_text 64 opts.viewer_name;
    nonce = p.base64 draw.nonce;
    time = draw.time;
    auth = credential_kind opts.credential;
    grant_id = credential_grant opts.credential;
    share = share;
    dh = dh;
  }

  abbrev pub created_spake :
      ViewerHandshakeOptions
      → ViewerDraw
      → (viewer_id : String) → Option Spake
      → Option ViewerHandshake
  created_spake opts draw viewer_id none = none
  created_spake opts draw viewer_id (some spake) = some (record {
    finished = false;
    opts = opts;
    secret = by_spake spake;
    hello = hello_with opts draw viewer_id (some (p.base64 spake.share)) none;
  })

  abbrev pub create_spake :
      ViewerHandshakeOptions → ViewerDraw → (viewer_id : String) → Option ℕ → Option ViewerHandshake
  create_spake opts draw viewer_id none = none
  create_spake opts draw viewer_id (some w) = created_spake opts draw viewer_id (
      new_spake p
        (record { role = role_a; id_a = utf8 p viewer_id; id_b = utf8 p opts.host_id; w = w })
        draw.scalar)

  abbrev pub create_exchange :
      ViewerHandshakeOptions → ViewerDraw → (viewer_id : String) → Option ViewerHandshake
  create_exchange opts draw viewer_id =
      let ephemeral = ephemeral_of p draw.ephemeral in
      some (record {
        finished = false;
        opts = opts;
        secret = by_ephemeral ephemeral;
        hello = hello_with opts draw viewer_id none (some (p.base64 ephemeral.public_key));
      })

  abbrev pub create_by :
      ViewerHandshakeOptions
      → ViewerDraw
      → (viewer_id : String) → ViewerCredential
      → Option ViewerHandshake
  create_by opts draw viewer_id (code_credential secret_code) =
      create_spake opts draw viewer_id (password_scalar p secret_code opts.host_id)
  create_by opts draw viewer_id (grant_credential id secret) =
      create_spake opts draw viewer_id
        (secret_scalar p secret (append opts.host_id (append "\0" id)))
  create_by opts draw viewer_id paired_credential = create_exchange opts draw viewer_id
  create_by opts draw viewer_id account_credential = create_exchange opts draw viewer_id

  -- `ViewerHandshake.create`, `none` where it throws.
  unfoldable pub create : ViewerHandshakeOptions → ViewerDraw → Option ViewerHandshake
  create opts draw = do
    viewer_id ← device_id_from_public_key p opts.identity.public_key
    create_by opts draw viewer_id opts.credential
