-- ===== src/Presence.antt =====
-- server/src/presence.ts: `Presence`. Connections have numbers, and what is sent over them or closes
-- them is a log. A send that throws is caught in the source and is in the log all the same.
pub mod Sessions
pub mod Removal
pub mod History
mod Tests
use hop_desk.JsMap
use hop_desk.JsMap.{JsMap}
use hop_desk.Common.{
  Bool, List, Option, String, [], false, if◌then◌else◌, none, not, set, some, str_eq, true, ℕ, ◌&&◌,
  ◌++◌, ◌==◌, ◌||◌, ◌∷◌,
}

pub record Connection : Type 0 where
  pub device_id : String
  pub account_id : String

pub record RelaySession : Type 0 where
  pub id : String
  pub a : ℕ
  pub b : ℕ
  pub started_at : ℕ

pub data Effect : Type 0 where
  tells_presence : (connection : ℕ) (device_id : String) (online : Bool) (last_seen : ℕ) → Effect
  tells_ended : (connection : ℕ) (session_id reason : String) → Effect
  closes : (connection code : ℕ) (reason : String) → Effect

pub record Presence : Type 0 where
  pub online : JsMap ℕ
  pub sessions : JsMap RelaySession
  pub log : List Effect

unfoldable pub new_presence : Presence
new_presence = record { online = []; sessions = []; log = [] }

abbrev pub is_that : Option ℕ → ℕ → Bool
is_that none c = false
is_that (some d) c = d == c

abbrev pub involves : RelaySession → ℕ → Bool
involves s c = s.a == c || s.b == c

abbrev pub note : Presence → Effect → Presence
note s e = record s { log = s.log ++ e ∷ [] }

abbrev pub end_found : Presence → String → String → Option RelaySession → Presence
end_found s id reason none = s
end_found s id reason (some r) = record s {
  sessions = JsMap.delete id s.sessions;
  log = s.log ++ tells_ended r.a id reason ∷ tells_ended r.b id reason ∷ [];
}

unfoldable pub end_session : Presence → String → String → Presence
end_session s id reason = end_found s id reason (JsMap.get id s.sessions)

-- The loop of `remove` over a copy of the sessions.
unfoldable pub end_each : ℕ → List RelaySession → Presence → Presence
end_each c [] s = s
end_each c (r ∷ rs) s =
    end_each c rs (if involves r c then end_session s r.id "peer-disconnected" else s)

unfoldable pub open_session : Presence → String → (a b t : ℕ) → Presence
open_session s id a b t = record s {
  sessions = JsMap.set id (record { id = id; a = a; b = b; started_at = t }) s.sessions;
}

unfoldable pub involving : ℕ → List RelaySession → List RelaySession
involving c [] = []
involving c (r ∷ rs) = if involves r c then r ∷ involving c rs else involving c rs

unfoldable pub sessions_of : Presence → ℕ → List RelaySession
sessions_of s c = involving c (JsMap.values s.sessions)

abbrev pub other_end : ℕ → Option RelaySession → Option ℕ
other_end c none = none
other_end c (some r) = if r.a == c then some r.b else if r.b == c then some r.a else none

unfoldable pub peer : Presence → String → ℕ → Option ℕ
peer s id c = other_end c (JsMap.get id s.sessions)

abbrev pub disconnect_found : Presence → String → Option ℕ → Presence
disconnect_found s reason none = s
disconnect_found s reason (some c) = note s (closes c 4003 reason)

unfoldable pub disconnect : Presence → String → String → Presence
disconnect s device_id reason = disconnect_found s reason (JsMap.get device_id s.online)

module _ (connections : ℕ → Connection) where
  abbrev pub device : ℕ → String
  device c = (connections c).device_id

  abbrev pub is_stranger : ℕ → ℕ → Bool
  is_stranger c other =
      other == c || not (str_eq (connections other).account_id (connections c).account_id)

  unfoldable pub announce_to : (c : ℕ) (online : Bool) (t : ℕ) → List ℕ → Presence → Presence
  announce_to c online t [] s = s
  announce_to c online t (d ∷ ds) s =
      announce_to c online t ds
        (if is_stranger c d then s else note s (tells_presence d (device c) online t))

  unfoldable pub announce : Presence → (c : ℕ) (online : Bool) (t : ℕ) → Presence
  announce s c online t = announce_to c online t (JsMap.values s.online) s

  -- `add`, with what the map has for the device.
  abbrev pub add_over : Presence → (c t : ℕ) → Option ℕ → Presence
  add_over s c t none = announce (record s { online = JsMap.set (device c) c s.online }) c true t
  add_over s c t (some d) =
      let replaced =
        if d == c then s else note s (closes d 4001 "replaced by a newer connection") in
      record replaced { online = JsMap.set (device c) c replaced.online }

  unfoldable pub add : Presence → (c t : ℕ) → Presence
  add s c t = add_over s c t (JsMap.get (device c) s.online)

  unfoldable pub remove : Presence → (c t : ℕ) → Presence
  remove s c t =
      let was_here = is_that (JsMap.get (device c) s.online) c in
      let gone = if was_here then record s { online = JsMap.delete (device c) s.online } else s in
      let ended = end_each c (JsMap.values gone.sessions) gone in
      if was_here && not (JsMap.has (device c) ended.online)
      then announce ended c false t
      else ended

pub data Op : Type 0 where
  adds : (c t : ℕ) → Op
  removes : (c t : ℕ) → Op
  opens : (id : String) (a b t : ℕ) → Op
  ends : (id reason : String) → Op
  disconnects : (device_id reason : String) → Op

module _ (connections : ℕ → Connection) where
  unfoldable pub step : Presence → Op → Presence
  step s (adds c t) = add connections s c t
  step s (removes c t) = remove connections s c t
  step s (opens id a b t) = open_session s id a b t
  step s (ends id reason) = end_session s id reason
  step s (disconnects id reason) = disconnect s id reason

  unfoldable pub run : Presence → List Op → Presence
  run s [] = s
  run s (o ∷ os) = run (step s o) os
