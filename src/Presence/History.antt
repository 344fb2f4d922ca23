-- ===== src/Presence/History.antt =====
-- The table over every history of calls.
use hop_desk.JsMap
use hop_desk.JsMap.Laws.{get-set, set-IsMap}
use hop_desk.Presence.{
  Connection, RelaySession, Presence, Op, adds, removes, opens, ends, disconnects, new_presence,
  open_session, peer, disconnect, add, remove, step, run, device, disconnect_found, involves,
  is_that, other_end,
}
use hop_desk.Presence.Removal.{add_over-IsTable, remove-IsGone, remove_others}
use hop_desk.Presence.Sessions.{IsTable, end_session-IsTable}
use hop_desk.Common.{
  List, Option, String, [], ap, eq_iff, false, if_cases, if_false, none, none≢some, or_false, refl,
  some, some_injective, str_eq, sym, ℕ, ◌==◌, ◌∙◌, ◌∷◌, ◌≡◌, inl, inr, ◌⊎◌, Bool-cases, true,
}
use hop_desk.JsMap.{JsMap}

open_session-IsTable :
    (s : Presence) (id : String) (a b t : ℕ) → IsTable s → IsTable (open_session s id a b t)
unfolding open_session
open_session-IsTable s id a b t h = record {
  online_map = h.online_map;
  session_map = set-IsMap id _ s.sessions h.session_map;
  keyed = λ k r e.
      if_cases (λ (o : Option RelaySession). o ≡ some r → r.id ≡ k) (str_eq id k)
        (λ y g. ap (λ (x : RelaySession). x.id) (sym (some_injective _ r g)) ∙ (eq_iff id k).0 y)
        (λ n g. h.keyed k r g) (sym (get-set id k _ s.sessions) ∙ e);
}

disconnect_found-IsTable :
    (s : Presence) (reason : String) (o : Option ℕ)
    → IsTable s
    → IsTable (disconnect_found s reason o)
disconnect_found-IsTable s reason none h = h
disconnect_found-IsTable s reason (some c) h = record {
  online_map = h.online_map;
  session_map = h.session_map;
  keyed = h.keyed;
}

module _ (connections : ℕ → Connection) where
  step-IsTable : (s : Presence) (o : Op) → IsTable s → IsTable (step connections s o)
  unfolding step add disconnect
  step-IsTable s (adds c t) h = add_over-IsTable connections s c t _ h
  step-IsTable s (removes c t) h = (remove-IsGone connections s c t h).is_table
  step-IsTable s (opens id a b t) h = open_session-IsTable s id a b t h
  step-IsTable s (ends id reason) h = end_session-IsTable s id reason h
  step-IsTable s (disconnects id reason) h = disconnect_found-IsTable s reason _ h

  run-IsTable : (os : List Op) (s : Presence) → IsTable s → IsTable (run connections s os)
  unfolding run
  run-IsTable [] s h = h
  run-IsTable (o ∷ os) s h = run-IsTable os _ (step-IsTable s o h)

  new_presence-IsTable : IsTable new_presence
  unfolding new_presence JsMap.get
  new_presence-IsTable = record {
    online_map = tt;
    session_map = tt;
    keyed = λ k r e. absurd (none≢some e);
  }

  other_end-none :
      (c : ℕ) (o : Option RelaySession)
      → ((r : RelaySession) → o ≡ some r → involves r c ≡ false)
      → other_end c o ≡ none
  other_end-none c none f = refl
  other_end-none c (some r) f =
      let n = or_false (r.a == c) (r.b == c) (f r refl) in
      if_false (r.a == c) _ _ n.0 ∙ if_false (r.b == c) _ _ n.1

  -- After any history from an empty table: once a connection is removed it has no peer in any
  -- session, the entry of its device, if there is one, is another connection's, and every entry
  -- that was not its own, of its device or of another, is as it was.
  pub remove-clears :
      (os : List Op) (c t : ℕ) (id k : String)
      → let before = run connections new_presence os in
        let s = remove connections before c t in
        (peer s id c ≡ none)
        × (is_that (JsMap.get (device connections c) s.online) c ≡ false)
        × ((is_that (JsMap.get k before.online) c ≡ true)
            ⊎ (JsMap.get k s.online ≡ JsMap.get k before.online))
  unfolding peer
  remove-clears os c t id k =
      let before = run connections new_presence os in
      let h = run-IsTable os new_presence new_presence-IsTable in
      let gone = remove-IsGone connections before c t h in
      (
        other_end-none c _ (λ r e. gone.no_session id r e),
        gone.offline,
        elim (Bool-cases (is_that (JsMap.get k before.online) c)) [
          | inl own ↦ inl own
          | inr other ↦ inr (remove_others connections before c t k h other)
        ],
      )
