-- ===== src/Lib.antt =====
-- HopDesk: remote desktop between computers whose users share an access code, and a client for
-- VNC, RDP and SPICE servers. These modules model parts of it and prove what those parts promise.
--
-- The host of a session admits viewers by a handshake of three messages, behind four guards. A
-- viewer that presents an access code meets the limiter, one that needs no code the throttle,
-- every hello the replay cache; a viewer that was admitted may come back with a grant, and one
-- that the person trusts without a code. After the handshake and the person's consent both sides
-- hold one secret, of which the keys of sealed channels are derived; the messages go over framed
-- links, in a local network or by the server, which knows the devices that are present. The
-- client of VNC servers is a state machine that connects, retries and keeps one request for the
-- screen going.
--
-- Common (Tests, Lists): names of the libraries, Boolean tests on numbers, lists by native
--   numbers.
-- JsMap (Laws): a `Map` with keys that are strings, as an association list in insertion order.
-- Text (Words): the regular expressions and templates that the program uses, as functions on
--   texts.
-- Limiter: `AttemptLimiter` of packages/protocol/src/limiter.ts. Its records stand on a heap,
--   since an attempt in flight keeps its record after the map has dropped it. `begin` is `begin`,
--   the closures `succeed` and `fail` of an attempt are `settle` with the attempt's number.
--   Links, Counts, Caps, Held, History, Budget, Lockout, Room and Memory hold the proofs.
-- Throttle: `PeerThrottle` of the same file, `allow`. Windows and Rate hold the proofs.
-- Replay: `NonceCache` of packages/protocol/src/replay.ts, `check`. Entries and Freshness.
-- Grants: `GrantStore` of packages/protocol/src/grants.ts, with the grants on a heap, since
--   revoking a grant overwrites its secret in place. Wiping, Revoking, Holding,
--   Handing and Lookup hold the proofs.
-- Failures (Rdp): packages/core/src/errors.ts, `classifyVncError` and `classifyRdpError`, and
--   `explainVncError` of packages/core/src/session.ts. Retries.
-- Session: packages/core/src/session.ts. Loop has the update loop, Steps the lifecycle and the
--   events: calls of its methods, listeners of its client, its promises and its timers. Clients
--   and timers have numbers, and the effects are a log. Backoff has the delay of a retry;
--   Stopping, Progress, Budget, Retries, Final, Flow and Requests hold the proofs.
-- Bytes, Channel: packages/crypto/src/channel.ts, `deriveSessionRoot` and `SealedChannel`, with
--   the counters of its frames in big-endian bytes. An error that is thrown is a `Result`.
--   Sealing and Replays hold the proofs.
-- Authorization: packages/protocol/src/verdict.ts, `verdictFrom`, and `Authorization` of
--   apps/desktop/src/authorization.ts: `status`, `mayHost`, `accept`, `readCache`, and
--   `mayHostWith`. A reply has the fields that are read, as a text, a number or neither. Hosting
--   and Taking hold the proofs.
-- Framing: packages/transport/src/framing.ts, `FramedLink`. Rounds, Outcomes and Chunks hold what
--   a division into chunks leaves alone, Frames that messages arrive.
-- Encoding: packages/crypto/src/bytes.ts, `equalBytes`, `u64le`, `encodeFields` and `fromBase64`.
--   Fields has the injectivity of the encoding.
-- Keys: packages/crypto/src/identity.ts and password.ts (Identity), spake2.ts (Spake) and
--   exchange.ts (Exchange) over a `Primitives`, the functions of the libraries. Agreement is that
--   of two sides with one secret; Toy has primitives that keep the laws, for the witnesses.
-- Handshake: packages/protocol/src/handshake.ts over Limiter, Throttle, Replay, Grants and Keys.
--   Host and Hello have `HostAuthenticator.onHello`, Confirm `confirm` and `abandon` of a pending
--   handshake, Viewer and Answer `ViewerHandshake`. Routes, Shares, Offers, Guards and Admission
--   hold the guards of `onHello`, Attempts those of `confirm`, Evidence and Hosts those of
--   `onChallenge`; Laws, Completeness, Codes, Exchanges and Devices that honest sides agree.
--   Scene has two sides to run.
-- Acceptance: `acceptViewer` of packages/protocol/src/session.ts, from the first message to the
--   answer. Outcomes says what it may promise, Endings holds the proofs.
-- Presence: server/src/presence.ts, `Presence`. Sessions, Removal and History hold the proofs.
-- Trusted: apps/desktop/src/trusted.ts, the calls of `TrustedDevices`; `prune` is the private one
--   that `list` makes. Promise has the abstract store, Refinement the proofs.
-- Rfb: `RfbClient` of packages/core/src/protocols/rfb.ts. Opening has the handshake, Messages the
--   loop `drain` and the messages, Rects and Hextile the rectangles, Canvas the pixels, Output
--   what is sent, Clipboard the extended clipboard, Connect the promise and the timer of `connect`
--   and all calls, Des the cipher of protocols/des.ts. Keeping says what each handler keeps, and
--   Handshaking, Calling, Finishing, Drawing and Rounds show it; Painting has what
--   follows. Sizes, Fill and Rre say what is drawn, Prefixes and Resuming that Hextile may come
--   in pieces. A handler's round ends in a `Turn`: it returns or throws.
--
-- The clock is an argument, of each reading where a method reads it twice, and so is a draw of
-- `Math.random()`. Milliseconds, counts and lengths are natural numbers of any size: the
-- program's stay far below 2 ^ 53, where a double is exact. A difference of times is cut off at
-- 0, which the program compares with bounds that are not negative. The delay of a retry is
-- computed exactly, where the program rounds to a double. Every loop is a recursion on a list, a
-- text or a count but two. The digits of a number in decimal have as fuel one more than the
-- number: each digit divides it by ten. `drain` of the VNC client has one more than the bytes of
-- the buffer: a round that takes no byte is the last.
--
-- Random bytes and the comparison of bytes in constant time are arguments of the grants; the
-- cipher, the key derivation and the encoding of texts are a parameter of the channel, with the
-- laws of AES-GCM that a tag has 16 bytes and that what was encrypted is deciphered as
-- hypotheses; the check of a signature is one of the authorization. The handshake has a record of
-- primitives: the hashes, the curve, signatures, base64 and scrypt. That both sides agree is
-- under the laws of the curve's group, of base64 and of the lengths of digests. The VNC client has a
-- record of the runtime: the encodings of texts and the compression of streams. A call of the
-- handshake is one step: nothing comes between while the access code is hashed. Sockets, timers
-- of the runtime, files, windows and cryptographic primitives are not modelled, nor are the
-- validation of messages, the rest of the server and of the desktop application.
mod Common
pub mod JsMap
pub mod Text
pub mod Limiter
pub mod Throttle
pub mod Replay
pub mod Grants
pub mod Failures
pub mod Session
pub mod Bytes
pub mod Channel
pub mod Authorization
pub mod Framing
pub mod Encoding
pub mod Keys
pub mod Handshake
pub mod Acceptance
pub mod Presence
pub mod Trusted
pub mod Rfb
