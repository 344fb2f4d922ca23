-- ===== src/Keys.antt =====
-- packages/crypto/src/identity.ts, password.ts, exchange.ts and spake2.ts, over the primitives of
-- node:crypto and the @noble libraries, which are a `Primitives`.
pub mod Identity
pub mod Spake
pub mod Exchange
pub mod Agreement
pub mod Toy
mod Tests
use hop_desk.Bytes.{Bytes}
use hop_desk.Channel.{Crypto}
use hop_desk.Common.{Bool, Option, String, length, ℕ}

-- `crypto` has the encoding of texts and `hkdf` for 32 bytes; `hkdf_to` is the same for any length.
-- A function that may throw gives an `Option`; `ed_verify` is false where it throws. A `Point` is
-- one of the curve P-256, `of_bytes` reads and checks one.
pub record Primitives : Type 1 where
  pub crypto : Crypto
  pub sha256 : Bytes → Bytes
  pub hmac : (key message : Bytes) → Bytes
  pub hkdf_to : (secret salt info : Bytes) (length : ℕ) → Bytes
  pub nfkc : String → String
  pub scrypt : (password salt : Bytes) (length : ℕ) → Option Bytes
  pub base64 : Bytes → String
  pub unbase64 : String → Bytes
  pub ed_sign : (message secret : Bytes) → Bytes
  pub ed_verify : (signature message key : Bytes) → Bool
  pub x_public : (secret : Bytes) → Bytes
  pub x_shared : (secret theirs : Bytes) → Option Bytes
  pub Point : Type 0
  pub order : ℕ
  pub base_point : Point
  pub point_m : Point
  pub point_n : Point
  pub multiply : Point → ℕ → Point
  pub plus : Point → Point → Point
  pub minus : Point → Point → Point
  pub is_zero : Point → Bool
  pub point_bytes : Point → Bytes
  pub of_bytes : Bytes → Option Point
