-- ===== src/Framing/Tests.antt =====
-- A link whose messages are the bytes of their texts.
use hop_desk.Bytes.{Bytes, to_be, of_be_from}
use hop_desk.Framing.{
  Codec, FramedLink, close, deliver, frame, hand_backlog, new_link, on_close, on_message, read_body,
  read_length, receive, receive_all, round, rounds, send, send_all,
}
use hop_desk.Framing.LinkError.{too_large}
use hop_desk.Framing.Chunks.{receive_all-concat}
use hop_desk.Framing.Frames.{IsCodec, IsIdle, send_all-receive}
use hop_desk.Common.{Option, [], arith, false, none, refl, some, true, ◌++◌, ◌∷◌, ◌≡◌}

framing : Unit {0}
unfolding new_link close read_length deliver read_body round rounds receive receive_all frame send
    send_all hand_backlog on_message on_close to_be of_be_from
framing = tt

-- A body of no bytes is no message.
abbrev read : Bytes → Option Bytes
read [] = none
read (b ∷ bs) = some bs

abbrev plain : Codec Bytes
plain = record { encode = λ m. 1 ∷ m; decode = read }

plain-IsCodec : IsCodec plain
plain-IsCodec = record { decodes = λ m. refl }

abbrev listening : FramedLink Bytes
listening = on_message (new_link 8) (λ m. false)

delivers :
    (receive plain (receive plain listening (0 ∷ 0 ∷ 0 ∷ [])) (2 ∷ 1 ∷ 7 ∷ 0 ∷ [])).delivered
    ≡ (7 ∷ []) ∷ []
unfolding framing
delivers = refl

-- A length above the limit closes the link as soon as it is read.
closes :
    let l = receive plain (on_close listening 5) (0 ∷ 0 ∷ 1 ∷ 0 ∷ []) in
    (l.closed ≡ true) × (l.notified ≡ (5, some (too_large 256)) ∷ [])
unfolding framing
closes = (refl, refl)

refuses : send plain (new_link 2) (1 ∷ 2 ∷ []) ≡ none
unfolding framing
refuses = refl

abbrev sender : FramedLink Bytes
sender = new_link 8

abbrev sent : FramedLink Bytes
sent = record sender { written = 0 ∷ 0 ∷ 0 ∷ 2 ∷ 1 ∷ 7 ∷ 0 ∷ 0 ∷ 0 ∷ 1 ∷ 1 ∷ [] }

receive_all-concat_example :
    receive_all plain (receive plain listening (0 ∷ 0 ∷ [])) ((0 ∷ 2 ∷ []) ∷ (1 ∷ 7 ∷ []) ∷ [])
    ≡ receive plain listening (0 ∷ 0 ∷ 0 ∷ 2 ∷ 1 ∷ 7 ∷ [])
receive_all-concat_example =
    receive_all-concat plain listening (0 ∷ 0 ∷ []) ((0 ∷ 2 ∷ []) ∷ (1 ∷ 7 ∷ []) ∷ [])

listening-IsIdle : IsIdle plain (λ m. false) listening
unfolding framing
listening-IsIdle = record { is_open = refl; nothing = refl; unread = refl; handled = refl }

send_all-receive_example :
    receive_all plain
      (receive plain listening (0 ∷ 0 ∷ 0 ∷ 2 ∷ 1 ∷ []))
      ((7 ∷ 0 ∷ 0 ∷ 0 ∷ 1 ∷ 1 ∷ []) ∷ [])
    ≡ record listening {
      buffered = [];
      expected = none;
      delivered = listening.delivered ++ (7 ∷ []) ∷ [] ∷ [];
    }
unfolding framing
send_all-receive_example =
    send_all-receive plain plain-IsCodec (λ m. false) (λ m. refl) sender sent listening
      ((7 ∷ []) ∷ [] ∷ []) (0 ∷ 0 ∷ 0 ∷ 2 ∷ 1 ∷ []) ((7 ∷ 0 ∷ 0 ∷ 0 ∷ 1 ∷ 1 ∷ []) ∷ []) refl refl
      refl refl listening-IsIdle (omega arith) refl
