-- ===== src/Presence/Sessions.antt =====
-- Ending the sessions of a connection leaves none of them.
use hop_desk.JsMap
use hop_desk.JsMap.{JsMap}
use hop_desk.JsMap.Laws.{IsMap, get-delete, delete-IsMap}
use hop_desk.Presence.{RelaySession, Presence, end_session, end_each, end_found, involves}
use hop_desk.Common.{
  String, if◌then◌else◌, none, some, str_eq, ◌≡◌, Bool-cases, List, Option, [], ap, eq_iff, eq_refl,
  false, false≢true, if_cases, inl, inr, none≢some, refl, some_injective, sym, true, ℕ, ◌∙◌, ◌∷◌,
  ◌⊎◌,
}

-- A session stands under its own name.
pub record IsTable (s : Presence) : Type 0 where
  pub online_map : IsMap s.online
  pub session_map : IsMap s.sessions
  pub keyed : (k : String) (r : RelaySession) → JsMap.get k s.sessions ≡ some r → r.id ≡ k

abbrev get_session : String → Presence → Option RelaySession
get_session k s = JsMap.get k s.sessions

end_found-get :
    (s : Presence) (id reason j : String) (o : Option RelaySession)
    → IsTable s
    → get_session id s ≡ o
    → get_session j (end_found s id reason o) ≡ (if str_eq id j then none else get_session j s)
end_found-get s id reason j none h e =
    if_cases (λ (r : Option RelaySession). get_session j s ≡ r) (str_eq id j)
      (λ y. ap (λ k. get_session k s) (sym ((eq_iff id j).0 y)) ∙ e) (λ n. refl)
end_found-get s id reason j (some r) h e = get-delete id j s.sessions h.session_map

end_session-get :
    (s : Presence) (id reason j : String)
    → IsTable s
    → get_session j (end_session s id reason) ≡ (if str_eq id j then none else get_session j s)
unfolding end_session
end_session-get s id reason j h = end_found-get s id reason j _ h refl

-- What is left of the sessions was there, under another name.
end_session-part :
    (s : Presence) (id reason j : String) (r : RelaySession)
    → IsTable s
    → get_session j (end_session s id reason) ≡ some r
    → (str_eq id j ≡ false) × (get_session j s ≡ some r)
end_session-part s id reason j r h e =
    if_cases
      (λ (o : Option RelaySession). o ≡ some r → (str_eq id j ≡ false) × (get_session j s ≡ some r))
      (str_eq id j) (λ y n. absurd (none≢some n)) (λ n g. (n, g))
      (sym (end_session-get s id reason j h) ∙ e)

end_found-IsMap :
    (s : Presence) (id reason : String) (o : Option RelaySession)
    → IsTable s
    → IsMap (end_found s id reason o).sessions × IsMap (end_found s id reason o).online
end_found-IsMap s id reason none h = (h.session_map, h.online_map)
end_found-IsMap s id reason (some r) h = (delete-IsMap id s.sessions h.session_map, h.online_map)

pub end_session-IsTable :
    (s : Presence) (id reason : String) → IsTable s → IsTable (end_session s id reason)
unfolding end_session
end_session-IsTable s id reason h =
    let maps = end_found-IsMap s id reason (JsMap.get id s.sessions) h in
    record {
      online_map = maps.1;
      session_map = maps.0;
      keyed = λ k r e. h.keyed k r (end_session-part s id reason k r h e).1;
    }

end_found-online :
    (s : Presence) (id reason : String) (o : Option RelaySession)
    → (end_found s id reason o).online ≡ s.online
end_found-online s id reason none = refl
end_found-online s id reason (some r) = refl

pub end_session-online :
    (s : Presence) (id reason : String) → (end_session s id reason).online ≡ s.online
unfolding end_session
end_session-online s id reason = end_found-online s id reason _

abbrev In : RelaySession → List RelaySession → Type 0
In r [] = ⊥
In r (q ∷ qs) = (q ≡ r) ⊎ In r qs

pub values-In :
    (k : String) (r : RelaySession) (m : JsMap RelaySession)
    → JsMap.get k m ≡ some r
    → In r (JsMap.values m)
unfolding JsMap.get
values-In k r [] e = absurd (none≢some e)
values-In k r ((j, q) ∷ m) e =
    if_cases (λ (o : Option RelaySession). o ≡ some r → (q ≡ r) ⊎ In r (JsMap.values m))
      (str_eq j k) (λ y g. inl (some_injective q r g)) (λ n g. inr (values-In k r m g)) e

module _ (c : ℕ) where
  -- The sessions of `c` that are left are on the list.
  abbrev Listed : List RelaySession → Presence → Type 0
  Listed rs s =
      (k : String) (r : RelaySession) → get_session k s ≡ some r → involves r c ≡ true → In r rs

  ended-Listed :
      (q : RelaySession) (qs : List RelaySession) (s : Presence)
      → IsTable s
      → Listed (q ∷ qs) s
      → Listed qs (end_session s q.id "peer-disconnected")
  ended-Listed q qs s h l k r e i =
      let part = end_session-part s q.id "peer-disconnected" k r h e in
      elim (l k r part.1 i) [
        | inl same ↦ absurd (
            false≢true (
              sym part.0
              ∙ ap (λ x. str_eq x k) (ap (λ (x : RelaySession). x.id) same ∙ h.keyed k r part.1)
              ∙ eq_refl k))
        | inr found ↦ found
      ]

  kept-Listed :
      (q : RelaySession) (qs : List RelaySession) (s : Presence)
      → involves q c ≡ false
      → Listed (q ∷ qs) s
      → Listed qs s
  kept-Listed q qs s n l k r e i = elim (l k r e i) [
    | inl same ↦ absurd (false≢true (sym n ∙ ap (λ x. involves x c) same ∙ i))
    | inr found ↦ found
  ]

  abbrev pub Clear : Presence → Type 0
  Clear s = (k : String) (r : RelaySession) → get_session k s ≡ some r → involves r c ≡ false

  pub end_each-Clear :
      (rs : List RelaySession) (s : Presence)
      → IsTable s
      → Listed rs s
      → Clear (end_each c rs s) × IsTable (end_each c rs s)
  unfolding end_each
  end_each-Clear [] s h l =
      (λ k r e. elim (Bool-cases (involves r c)) [ inl i ↦ absurd (l k r e i) | inr n ↦ n ], h)
  end_each-Clear (q ∷ qs) s h l =
      if_cases (λ x. Clear (end_each c qs x) × IsTable (end_each c qs x)) (involves q c)
        (λ i. end_each-Clear qs _ (end_session-IsTable s q.id _ h) (ended-Listed q qs s h l))
        (λ n. end_each-Clear qs s h (kept-Listed q qs s n l))
