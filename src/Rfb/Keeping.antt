-- ===== src/Rfb/Keeping.antt =====
-- What a part of the client keeps: the buffer does not grow, every picture in the log and in the
-- decoder has the size of its rectangle, and the client has what its state needs.
use hop_desk.Rfb.{
  RectHead, HextileState, RfbClient, RfbEvent, Turn, closes, connects, copies, fails, goes, note,
  paints, resize_rejected, resizes, sends, shows_clipboard, shows_screens, throws, update_ends,
  when_there, with_block, dropped, RfbState, ServerInfo, auth, init, ready, result, security,
  security33, version,
}
use hop_desk.Bytes.{Bytes, take, drop, length-drop, length-take}
use hop_desk.Common.{
  Bool, List, Option, [], arith, if_both, if_cases, if◌then◌else◌, length, ltb, none, some, ℕ, ◌*◌,
  ◌++◌, ◌+◌, ◌∷◌, ◌≡◌, ◌≤◌, String, false, is_some, true, false≢true, refl,
}
use hop_desk.Rfb.Opening.{lacks_password}
use hop_desk.Rfb.Connect.{settles}

abbrev pub IsSized : RfbEvent → Type 0
IsSized (paints r p) = p.size ≡ r.width * r.height * 4
IsSized (sends b) = Unit {0}
IsSized (connects info) = Unit {0}
IsSized (copies r x y) = Unit {0}
IsSized update_ends = Unit {0}
IsSized (resizes w h) = Unit {0}
IsSized (shows_clipboard t) = Unit {0}
IsSized (shows_screens s) = Unit {0}
IsSized (resize_rejected s) = Unit {0}
IsSized fails = Unit {0}
IsSized (closes reason) = Unit {0}

abbrev pub AllSized : List RfbEvent → Type 0
AllSized [] = Unit {0}
AllSized (e ∷ es) = IsSized e × AllSized es

-- The decoder of tiles is of the rectangle that is being read.
abbrev pub Fits : Option RectHead → Option HextileState → Type 0
Fits r none = Unit {0}
Fits none (some h) = ⊥
Fits (some r) (some h) = (r.encoding ≡ 5) × (h.out.size ≡ r.width * r.height * 4)

-- What a state needs: a password to answer a challenge with, or a screen.
abbrev pub Prepared : RfbState → Option String → Option ServerInfo → Type 0
Prepared auth secret server = lacks_password secret ≡ false
Prepared ready secret server = is_some server ≡ true
Prepared version secret server = Unit {0}
Prepared security secret server = Unit {0}
Prepared security33 secret server = Unit {0}
Prepared result secret server = Unit {0}
Prepared init secret server = Unit {0}

-- Once the client is closed, the promise of `connect` is settled.
abbrev pub Told : (over : Bool) → List RfbEvent → Type 0
Told true es = is_some (settles es) ≡ true
Told false es = Unit {0}

-- What of a client the pictures and the reading of its buffer depend on.
pub record View : Type 0 where
  pub size : ℕ
  pub pending : Option RectHead
  pub tiles : Option HextileState
  pub events : List RfbEvent
  pub phase : RfbState
  pub secret : Option String
  pub server : Option ServerInfo
  pub over : Bool

abbrev pub view : RfbClient → View
view c = record {
  size = length c.buffer;
  pending = c.pending_rect;
  tiles = c.hextile;
  events = c.log;
  phase = c.state;
  secret = c.password;
  server = c.info;
  over = c.closed;
}

abbrev pub turn_view : Turn → View
turn_view (goes c) = view c
turn_view (throws c) = view c

abbrev pub Sound : View → Type 0
Sound v =
    AllSized v.events
    × Fits v.pending v.tiles
    × Prepared v.phase v.secret v.server
    × Told v.over v.events

-- An event that settles the promise of `connect` stands in a log that goes on.
settles-snoc :
    (es : List RfbEvent) (e : RfbEvent)
    → is_some (settles es) ≡ true
    → is_some (settles (es ++ e ∷ [])) ≡ true
unfolding settles
settles-snoc (connects info ∷ es) e h = refl
settles-snoc (fails ∷ es) e h = refl
settles-snoc (closes reason ∷ es) e h = refl
settles-snoc (sends b ∷ es) e h = settles-snoc es e h
settles-snoc (paints r p ∷ es) e h = settles-snoc es e h
settles-snoc (copies r x y ∷ es) e h = settles-snoc es e h
settles-snoc (update_ends ∷ es) e h = settles-snoc es e h
settles-snoc (resizes x y ∷ es) e h = settles-snoc es e h
settles-snoc (shows_clipboard t ∷ es) e h = settles-snoc es e h
settles-snoc (shows_screens s ∷ es) e h = settles-snoc es e h
settles-snoc (resize_rejected s ∷ es) e h = settles-snoc es e h
settles-snoc [] e h = absurd (false≢true h)

pub Told-snoc :
    (over : Bool) (es : List RfbEvent) (e : RfbEvent) → Told over es → Told over (es ++ e ∷ [])
Told-snoc false es e t = tt
Told-snoc true es e t = settles-snoc es e t

pub record Keeps (v w : View) : Type 0 where
  pub shorter : w.size ≤ v.size
  pub sound : Sound v → Sound w

pub AllSized-snoc :
    (es : List RfbEvent) (e : RfbEvent) → AllSized es → IsSized e → AllSized (es ++ e ∷ [])
AllSized-snoc [] e s t = (t, tt)
AllSized-snoc (x ∷ es) e (s, ss) t = (s, AllSized-snoc es e ss t)

pub Keeps-same : (v : View) → Keeps v v
Keeps-same v = record { shorter = omega arith; sound = λ s. s }

pub Keeps-trans : {u v w : View} → Keeps u v → Keeps v w → Keeps u w
Keeps-trans k l = record {
  shorter = omega (arith, k.shorter, l.shorter);
  sound = λ s. l.sound (k.sound s);
}

-- A state that the client is prepared for is entered.
pub enter-Keeps :
    (s : RfbState) (c : RfbClient)
    → Prepared s c.password c.info
    → Keeps (view c) (view (record c { state = s }))
enter-Keeps s c p = record { shorter = omega arith; sound = λ k. (k.0, k.1, p, k.3) }

-- An event that is no picture, or a picture of its rectangle's size, is noted.
pub Keeps-note : (e : RfbEvent) (c : RfbClient) → IsSized e → Keeps (view c) (view (note e c))
Keeps-note e c t = record {
  shorter = omega arith;
  sound = λ s. (AllSized-snoc c.log e s.0 t, s.1, s.2, Told-snoc c.closed c.log e s.3);
}

pub Keeps-drop : (n : ℕ) (c : RfbClient) → Keeps (view c) (view (dropped n c))
Keeps-drop n c = record { shorter = omega (arith, length-drop c.buffer n); sound = λ s. s }

-- The same of a turn, however it ends.
pub record After (v : View) (t : Turn) : Type 0 where
  pub keeps : Keeps v (turn_view t)

pub went : {v : View} {c : RfbClient} → Keeps v (view c) → After v (goes c)
went k = record { keeps = k }

pub threw : {v : View} {c : RfbClient} → Keeps v (view c) → After v (throws c)
threw k = record { keeps = k }

pub then-After : {u v : View} {t : Turn} → Keeps u v → After v t → After u t
then-After k l = record { keeps = Keeps-trans k l.keeps }

pub if-After :
    {v : View} (b : Bool) {s t : Turn} → After v s → After v t → After v (if b then s else t)
if-After {v} b k l = if_both (After v) b k l

pub when_there-After :
    (n : ℕ) (c : RfbClient) {t : Turn} → After (view c) t → After (view c) (when_there n c t)
unfolding when_there
when_there-After n c k = if-After (ltb (length c.buffer) n) (went (Keeps-same (view c))) k

-- A block that is taken has its length, and leaves the rest of the buffer.
pub with_block-After :
    (n : ℕ) (c : RfbClient) (f : Bytes → RfbClient → Turn)
    → ((b : Bytes)
        → length b ≡ n
        → length b + length (drop n c.buffer) ≤ length c.buffer
        → After (view c) (f b (dropped n c)))
    → After (view c) (with_block n c f)
unfolding with_block
with_block-After n c f k =
    if_cases (After (view c)) (ltb (length c.buffer) n) (λ h. went (Keeps-same (view c)))
      (λ h.
        let all : n ≤ length c.buffer = ground arith in
        let len = length-take n c.buffer all in
        k (take n c.buffer) len (omega (arith, len, length-drop c.buffer n, all)))

-- What is taken away is gone for what follows.
pub dropped-After :
    (n : ℕ) (c : RfbClient) {t : Turn} → After (view (dropped n c)) t → After (view c) t
dropped-After n c k = then-After (Keeps-drop n c) k

-- The same of a client, in place of a turn.
pub if-Keeps :
    {v : View} (b : Bool) (c d : RfbClient)
    → Keeps v (view c)
    → Keeps v (view d)
    → Keeps v (view (if b then c else d))
if-Keeps {v} b c d k l = if_both (λ (x : RfbClient). Keeps v (view x)) b k l
