-- ===== src/Channel/Tests.antt =====
-- Channels over a cipher that hides nothing, whose tag repeats the length of the associated data.
use Prim.Native.Char.{code}
use Prim.Native.String.{String}
use hop_desk.Bytes.{Bytes, to_be, of_be_from}
use hop_desk.Channel.{
  SealedChannel, Crypto, PeerRole, open_frame, open_all, seal, deciphered, frame_of, channel_key,
  new_channel, other, derive_session_root,
}
use hop_desk.Channel.PeerRole.{host, viewer}
use hop_desk.Channel.Result.{throws, returns}
use hop_desk.Channel.Replays.{is_returned, accept_once}
use hop_desk.Channel.Sealing.{IsCipher, IsPaired, open_frame-seal, new_channel-IsPaired}
use hop_desk.Common.{
  Bool, [], ap, arith, false, if◌then◌else◌, length, none, refl, some, true, ℕ, ◌++◌, ◌==◌, ◌∷◌,
  ◌≡◌,
}

channel : Unit {0}
unfolding open_frame open_all seal deciphered frame_of channel_key new_channel derive_session_root
    to_be of_be_from
channel = tt

abbrev codes : String → Bytes
codes String.[] = []
codes (String.◌∷◌ c s) = code c ∷ codes s

abbrev sixteen : ℕ → Bytes
sixteen b = b ∷ b ∷ b ∷ b ∷ b ∷ b ∷ b ∷ b ∷ b ∷ b ∷ b ∷ b ∷ b ∷ b ∷ b ∷ b ∷ []

abbrev first_is : ℕ → Bytes → Bool
first_is n [] = false
first_is n (b ∷ bs) = b == n

abbrev toy : Crypto
toy = record {
  hkdf = λ secret salt info. secret ++ info;
  utf8 = codes;
  units = λ s. length (codes s);
  encrypt = λ key nonce aad plain. (plain, sixteen (length aad));
  decrypt = λ key nonce aad body tag. if first_is (length aad) tag then some body else none;
}

eq_self : (n : ℕ) → n == n ≡ true
eq_self n = ground arith

toy-IsCipher : IsCipher toy
toy-IsCipher = record {
  tag_bytes = λ key nonce aad plain. refl;
  deciphers =
      λ key nonce aad plain. ap (λ b. if b then some plain else none) (eq_self (length aad));
}

abbrev root : Bytes
root =
    9 ∷ 9 ∷ 9 ∷ 9 ∷ 9 ∷ 9 ∷ 9 ∷ 9 ∷ 9 ∷ 9 ∷ 9 ∷ 9 ∷ 9 ∷ 9 ∷ 9 ∷ 9 ∷ 9 ∷ 9 ∷ 9 ∷ 9 ∷ 9 ∷ 9 ∷ 9 ∷ 9
    ∷ 9 ∷ 9 ∷ 9 ∷ 9 ∷ 9 ∷ 9 ∷ 9 ∷ 9 ∷ []

abbrev channel_of : PeerRole → SealedChannel
channel_of role = record {
  label = "input";
  local_role = role;
  send_key = channel_key toy root "input" role;
  recv_key = channel_key toy root "input" (other role);
  label_bytes = codes "input";
  sent = 0;
  highest_received = 0;
}

abbrev frame : Bytes
frame = frame_of toy (channel_of host).send_key (codes "input") 1 (7 ∷ 8 ∷ [])

opens : (open_frame toy (channel_of viewer) frame).1 ≡ returns (7 ∷ 8 ∷ [])
unfolding channel
opens = refl

refuses_no_label : new_channel toy root "" host ≡ throws "Channel label must be 1-64 characters"
unfolding channel
refuses_no_label = refl

accept_once_example :
    let later = open_all toy (open_frame toy (channel_of viewer) frame).0 ((1 ∷ 2 ∷ []) ∷ []) in
    (is_returned (open_frame toy later frame).1 ≡ false) × ((open_frame toy later frame).0 ≡ later)
unfolding channel
accept_once_example =
    accept_once toy (channel_of viewer) frame frame ((1 ∷ 2 ∷ []) ∷ []) refl (omega arith)

new_channel-IsPaired_example :
    IsPaired (channel_of host) (channel_of viewer) × IsPaired (channel_of viewer) (channel_of host)
unfolding channel
new_channel-IsPaired_example =
    new_channel-IsPaired toy root "input" host (channel_of host) (channel_of viewer) refl refl

host_viewer : IsPaired (channel_of host) (channel_of viewer)
host_viewer = record { key = refl; label = refl; behind = omega arith }

open_frame-seal_example :
    let s' = record (channel_of host) { sent = 1 } in
    let r' = record (channel_of viewer) { highest_received = 1 } in
    (seal toy (channel_of host) (7 ∷ 8 ∷ []) ≡ (s', returns frame))
    × (open_frame toy (channel_of viewer) frame ≡ (r', returns (7 ∷ 8 ∷ [])))
    × IsPaired s' r'
    × IsPaired s' (channel_of viewer)
open_frame-seal_example =
    open_frame-seal toy toy-IsCipher (channel_of host) (channel_of viewer) (7 ∷ 8 ∷ []) host_viewer
      (omega arith)
