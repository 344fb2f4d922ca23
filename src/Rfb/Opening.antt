-- ===== src/Rfb/Opening.antt =====
-- packages/core/src/protocols/rfb.ts: the handshake. Bytes that a handler gives back to the buffer
-- stand in front of it again.
use hop_desk.Bytes.{Bytes, drop}
use hop_desk.Common.{
  Bool, Option, String, [], false, if◌then◌else◌, leb, length, ltb, none, not, some, suc, true,
  zero, ℕ, ◌%◌, ◌&&◌, ◌*◌, ◌++◌, ◌+◌, ◌-◌, ◌==◌, ◌||◌, ◌∷◌,
}
use hop_desk.Rfb.{
  RfbClient, Runtime, ServerInfo, Turn, auth, connects, goes, init, note, ready, result, security,
  security33, send, throws, u16, u32, u8, when_there, with_block,
}
use hop_desk.Rfb.Canvas.{byte_at}
use hop_desk.Rfb.Output.{flag_byte, set_encodings, set_pixel_format, supported_encodings}
use hop_desk.Rfb.Des.{vnc_encrypt}

unfoldable pub is_version : Bytes → Bool
is_version b =
    let at : ℕ → ℕ = λ k. byte_at b k % 128 in
    let digit : ℕ → Bool = λ k. leb 48 (at k) && leb (at k) 57 in
    at 0 == 82
    && at 1 == 70
    && at 2 == 66
    && at 3 == 32
    && digit 4
    && digit 5
    && digit 6
    && at 7 == 46
    && digit 8
    && digit 9
    && digit 10
    && at 11 == 10

-- `Number(version.slice(8, 11))`
unfoldable pub minor_of : Bytes → ℕ
minor_of b =
    (byte_at b 8 % 128 - 48) * 100 + (byte_at b 9 % 128 - 48) * 10 + (byte_at b 10 % 128 - 48)

abbrev pub spoken : ℕ → ℕ
spoken minor = if leb 8 minor then 8 else if leb 7 minor then 7 else 3

abbrev pub hello_of : (minor : ℕ) → Bytes
hello_of minor = 82 ∷ 70 ∷ 66 ∷ 32 ∷ 48 ∷ 48 ∷ 51 ∷ 46 ∷ 48 ∷ 48 ∷ (48 + minor) ∷ 10 ∷ []

unfoldable pub answer_version : Bytes → RfbClient → Turn
answer_version head c =
    let minor = spoken (minor_of head) in
    if is_version head
    then goes (record (send (hello_of minor) (record c { minor = minor })) {
      state = if minor == 3 then security33 else security;
    })
    else throws c

unfoldable pub read_version : RfbClient → Turn
read_version c = with_block 12 c answer_version

abbrev pub lacks_password : Option String → Bool
lacks_password none = true
lacks_password (some String.[]) = true
lacks_password (some (String.◌∷◌ c s)) = false

abbrev pub send_client_init : RfbClient → RfbClient
send_client_init c = record (send (flag_byte c.shared ∷ []) c) { state = init }

-- The security type 0 of version 3.3, with a reason.
unfoldable pub refused33 : RfbClient → Turn
refused33 c =
    let len = u32 c.buffer 4 in
    when_there 8 c (when_there (8 + len) c (throws (record c { buffer = drop (8 + len) c.buffer })))

unfoldable pub chosen33 : (type : ℕ) → RfbClient → Turn
chosen33 type c =
    if type == 1
    then goes (send_client_init c)
    else if type == 2
    then (if lacks_password c.password then throws c else goes (record c { state = auth }))
    else throws c

unfoldable pub read_security33 : RfbClient → Turn
read_security33 c = when_there 4 c (
    if u32 c.buffer 0 == 0
    then refused33 c
    else chosen33 (u32 c.buffer 0) (record c { buffer = drop 4 c.buffer }))

abbrev pub give_back : Bytes → RfbClient → RfbClient
give_back head c = record c { buffer = head ++ c.buffer }

-- No type at all: a reason follows. The head is given back while the reason is not all there.
unfoldable pub refused : RfbClient → Turn
refused c = with_block 5 c (λ head c'.
    if ltb (length c'.buffer) (u32 head 1)
    then goes (give_back head c')
    else throws (record c' { buffer = drop (u32 head 1) c'.buffer }))

abbrev pub includes : ℕ → Bytes → Bool
includes n [] = false
includes n (b ∷ bs) = b == n || includes n bs

unfoldable pub choose_security : (offered : Bytes) → RfbClient → Turn
choose_security offered c =
    if includes 2 offered && not (lacks_password c.password)
    then goes (record (send (2 ∷ []) c) { state = auth })
    else if includes 1 offered
    then (if leb 8 c.minor
        then goes (record (send (1 ∷ []) c) { state = result })
        else goes (send_client_init (send (1 ∷ []) c)))
    else throws c

unfoldable pub offered_types : (count : ℕ) → RfbClient → Turn
offered_types zero c = refused c
offered_types (suc k) c = with_block (1 + suc k) c (λ block c'. choose_security (drop 1 block) c')

unfoldable pub read_security : RfbClient → Turn
read_security c = when_there 1 c (offered_types (u8 c.buffer 0) c)

-- A result that is not 0: from version 3.8 on a reason follows.
unfoldable pub denied : (result' : Bytes) → RfbClient → Turn
denied result' c =
    let len = u32 c.buffer 0 in
    if ltb c.minor 8
    then throws c
    else if ltb (length c.buffer) 4 || ltb (length c.buffer) (4 + len)
    then goes (give_back result' c)
    else throws (record c { buffer = drop (4 + len) c.buffer })

unfoldable pub read_security_result : RfbClient → Turn
read_security_result c =
    with_block 4 c
      (λ result' c'. if u32 result' 0 == 0 then goes (send_client_init c') else denied result' c')

abbrev pub start_session : ServerInfo → RfbClient → RfbClient
start_session info c =
    note (connects info)
      (record (set_encodings supported_encodings
        (set_pixel_format (record c { info = some info }))) { state = ready })

module _ (runtime : Runtime) where
  abbrev pub password_bytes : Option String → Bytes
  password_bytes none = []
  password_bytes (some text) = runtime.latin1 text

  unfoldable pub read_auth_challenge : RfbClient → Turn
  read_auth_challenge c = with_block 16 c (λ challenge c'.
      goes
        (record (send (vnc_encrypt challenge (password_bytes c'.password)) c') { state = result }))

  abbrev pub info_of : Bytes → ServerInfo
  info_of block = record {
    width = u16 block 0;
    height = u16 block 2;
    name = runtime.text_of (drop 24 block);
    bits_per_pixel = u8 block 4;
    depth = u8 block 5;
    true_colour = not (u8 block 7 == 0);
  }

  unfoldable pub read_server_init : RfbClient → Turn
  read_server_init c =
      when_there 24 c
        (with_block (24 + u32 c.buffer 20) c (λ block c'. goes (start_session (info_of block) c')))
