-- ===== src/Rfb/Handshaking.antt =====
-- The handlers of the handshake keep what Keeping says.
use hop_desk.Bytes.{Bytes, drop}
use hop_desk.Rfb.{
  RfbClient, Runtime, ServerInfo, connects, send, sends, u32, u8, dropped, RfbState, auth, goes,
  init, ready, result, security, security33,
}
use hop_desk.Rfb.Keeping.{
  After, Keeps, Keeps-drop, Keeps-note, Keeps-same, Keeps-trans, dropped-After, if-After,
  then-After, threw, view, went, when_there-After, with_block-After, Prepared, enter-Keeps,
}
use hop_desk.Common.{
  [], arith, leb, length, length-append, ltb, not, suc, zero, ℕ, ◌&&◌, ◌+◌, ◌==◌, ◌||◌, ◌∷◌, ◌≤◌,
  Bool, false, if_both, if_cases, if◌then◌else◌, refl, some, true, ◌≡◌,
}
use hop_desk.Rfb.Opening.{
  answer_version, choose_security, chosen33, denied, give_back, includes, info_of, is_version,
  lacks_password, offered_types, read_auth_challenge, read_security, read_security33,
  read_security_result, read_server_init, read_version, refused, refused33, start_session, minor_of,
  send_client_init, spoken, hello_of,
}
use hop_desk.Rfb.Output.{set_encodings, set_pixel_format, supported_encodings}

answer_version-After : (head : Bytes) (c : RfbClient) → After (view c) (answer_version head c)
unfolding answer_version
answer_version-After head c =
    let minor = spoken (minor_of head) in
    let next = if minor == 3 then security33 else security in
    if-After (is_version head)
      (went (
        Keeps-trans (Keeps-note (sends _) c tt) (
          enter-Keeps next (send (hello_of minor) c)
            (if_both (λ (s : RfbState). Prepared s c.password c.info) (minor == 3) tt tt))))
      (threw (Keeps-same (view c)))

pub read_version-After : (c : RfbClient) → After (view c) (read_version c)
unfolding read_version
read_version-After c =
    with_block-After 12 c _ (λ b len le. dropped-After 12 c (answer_version-After b (dropped 12 c)))

init-Keeps : (c : RfbClient) → Keeps (view c) (view (send_client_init c))
init-Keeps c =
    Keeps-trans (enter-Keeps init c tt) (Keeps-note (sends _) (record c { state = init }) tt)

-- With a password, the state of the challenge is entered.
auth-After :
    (c : RfbClient)
    → lacks_password c.password ≡ false
    → After (view c) (goes (record c { state = auth }))
auth-After c h = went (enter-Keeps auth c h)

chosen33-After : (type : ℕ) (c : RfbClient) → After (view c) (chosen33 type c)
unfolding chosen33
chosen33-After type c = if-After (type == 1) (went (init-Keeps c)) (
    if-After (type == 2)
      (if_cases (After (view c)) (lacks_password c.password) (λ h. threw (Keeps-same (view c)))
        (auth-After c))
      (threw (Keeps-same (view c))))

pub read_security33-After : (c : RfbClient) → After (view c) (read_security33 c)
unfolding read_security33 refused33
read_security33-After c = when_there-After 4 c (
    if-After (u32 c.buffer 0 == 0)
      (when_there-After 8 c
        (when_there-After (8 + u32 c.buffer 4) c (threw (Keeps-drop (8 + u32 c.buffer 4) c))))
      (dropped-After 4 c (chosen33-After (u32 c.buffer 0) (dropped 4 c))))

-- A block that is given back makes the buffer no longer than it was.
give_back-Keeps :
    (b : Bytes) (n : ℕ) (c : RfbClient)
    → length b + length (drop n c.buffer) ≤ length c.buffer
    → Keeps (view c) (view (give_back b (dropped n c)))
give_back-Keeps b n c le = record {
  shorter = omega (arith, length-append b (drop n c.buffer), le);
  sound = λ s. s;
}

refused-After : (c : RfbClient) → After (view c) (refused c)
unfolding refused
refused-After c = with_block-After 5 c _ (λ b len le.
    let rest : RfbClient = dropped 5 c in
    if-After (ltb (length rest.buffer) (u32 b 1)) (went (give_back-Keeps b 5 c le))
      (dropped-After 5 c (threw (Keeps-drop (u32 b 1) rest))))

has_password : (a b : Bool) → a && not b ≡ true → b ≡ false
has_password a b h = ground arith

choose_security-After :
    (offered : Bytes) (c : RfbClient) → After (view c) (choose_security offered c)
unfolding choose_security
choose_security-After offered c =
    if_cases (After (view c)) (includes 2 offered && not (lacks_password c.password))
      (λ h. then-After (Keeps-note (sends (2 ∷ [])) c tt) (
        auth-After (send (2 ∷ []) c)
          (has_password (includes 2 offered) (lacks_password c.password) h)))
      (λ h.
        if-After (includes 1 offered)
          (then-After (Keeps-note (sends (1 ∷ [])) c tt) (
            if-After (leb 8 c.minor) (went (enter-Keeps result (send (1 ∷ []) c) tt))
              (went (init-Keeps (send (1 ∷ []) c)))))
          (threw (Keeps-same (view c))))

pub read_security-After : (c : RfbClient) → After (view c) (read_security c)
unfolding read_security offered_types
read_security-After c = when_there-After 1 c (offered (u8 c.buffer 0))
  where
    offered : (count : ℕ) → After (view c) (offered_types count c)
    offered zero = refused-After c
    offered (suc k) = with_block-After (1 + suc k) c _ (λ b len le.
        dropped-After (1 + suc k) c (choose_security-After (drop 1 b) (dropped (1 + suc k) c)))

-- The result is given back too, while the reason for it is not all there.
denied-After :
    (b : Bytes) (c : RfbClient)
    → length b + length (drop 4 c.buffer) ≤ length c.buffer
    → After (view c) (denied b (dropped 4 c))
unfolding denied
denied-After b c le =
    let rest : RfbClient = dropped 4 c in
    let len = u32 rest.buffer 0 in
    if-After (ltb c.minor 8) (threw (Keeps-drop 4 c)) (
      if-After (ltb (length rest.buffer) 4 || ltb (length rest.buffer) (4 + len))
        (went (give_back-Keeps b 4 c le)) (dropped-After 4 c (threw (Keeps-drop (4 + len) rest))))

pub read_security_result-After : (c : RfbClient) → After (view c) (read_security_result c)
unfolding read_security_result
read_security_result-After c = with_block-After 4 c _ (λ b len le.
    if-After (u32 b 0 == 0) (dropped-After 4 c (went (init-Keeps (dropped 4 c))))
      (denied-After b c le))

start_session-Keeps :
    (info : ServerInfo) (c : RfbClient) → Keeps (view c) (view (start_session info c))
unfolding set_encodings set_pixel_format
start_session-Keeps info c =
    let c' = set_encodings supported_encodings (set_pixel_format c) in
    Keeps-trans (Keeps-note (sends _) c tt) (
      Keeps-trans (Keeps-note (sends _) (set_pixel_format c) tt) (
        Keeps-trans (record { shorter = omega arith; sound = λ s. (s.0, s.1, refl, s.3) })
          (Keeps-note (connects info) (record c' { info = some info; state = ready }) tt)))

module _ (runtime : Runtime) where
  pub read_auth_challenge-After : (c : RfbClient) → After (view c) (read_auth_challenge runtime c)
  unfolding read_auth_challenge
  read_auth_challenge-After c = with_block-After 16 c _ (λ b len le. dropped-After 16 c (
      went (
        Keeps-trans (enter-Keeps result (dropped 16 c) tt)
          (Keeps-note (sends _) (record (dropped 16 c) { state = result }) tt))))

  pub read_server_init-After : (c : RfbClient) → After (view c) (read_server_init runtime c)
  unfolding read_server_init
  read_server_init-After c =
      let n = 24 + u32 c.buffer 20 in
      when_there-After 24 c (
        with_block-After n c _ (λ b len le.
          dropped-After n c (went (start_session-Keeps (info_of runtime b) (dropped n c)))))
