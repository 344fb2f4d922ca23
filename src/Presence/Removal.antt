-- ===== src/Presence/Removal.antt =====
-- A connection that was removed is in no session any more, and takes no entry of another with it.
use hop_desk.JsMap
use hop_desk.JsMap.{JsMap}
use hop_desk.JsMap.Laws.{IsMap, get-delete, delete-IsMap, set-IsMap}
use hop_desk.Presence.{
  RelaySession, Presence, end_each, involves, Connection, add_over, announce, announce_to, device,
  is_stranger, is_that, remove,
}
use hop_desk.Common.{
  String, if◌then◌else◌, none, some, str_eq, ◌≡◌, List, Option, [], ap, eq_refl, false, if_cases,
  refl, sym, true, ℕ, ◌∙◌, ◌∷◌, Bool, if_both, if_true, not, subst⁻¹, ◌&&◌, ◌==◌, eq_iff, inl, inr,
  ◌⊎◌, Bool-cases, if_false, false≢true,
}
use hop_desk.Presence.Sessions.{IsTable, end_session-online, values-In, Clear, end_each-Clear}

-- Another log, the same table.
record IsSame (s s' : Presence) : Type 0 where
  same_online : s'.online ≡ s.online
  same_sessions : s'.sessions ≡ s.sessions

same-IsTable : (s s' : Presence) → IsSame s s' → IsTable s → IsTable s'
same-IsTable s s' e h = record {
  online_map = subst⁻¹ IsMap e.same_online h.online_map;
  session_map = subst⁻¹ IsMap e.same_sessions h.session_map;
  keyed = λ k r g. h.keyed k r (ap (JsMap.get k) (sym e.same_sessions) ∙ g);
}

module _ (connections : ℕ → Connection) where
  announce_to-IsSame :
      (c : ℕ) (online : Bool) (t : ℕ) (ds : List ℕ) (s s' : Presence)
      → IsSame s s'
      → IsSame s (announce_to connections c online t ds s')
  unfolding announce_to
  announce_to-IsSame c online t [] s s' e = e
  announce_to-IsSame c online t (d ∷ ds) s s' e = announce_to-IsSame c online t ds s _ (
      if_both (IsSame s) (is_stranger connections c d) e
        (record { same_online = e.same_online; same_sessions = e.same_sessions }))

  announce-IsSame :
      (s : Presence) (c : ℕ) (online : Bool) (t : ℕ) → IsSame s (announce connections s c online t)
  unfolding announce
  announce-IsSame s c online t =
      announce_to-IsSame c online t _ s s (record { same_online = refl; same_sessions = refl })

  with_online :
      (s s' : Presence) (k : String) (c : ℕ)
      → IsSame s s'
      → IsTable s
      → IsTable (record s' { online = JsMap.set k c s'.online })
  with_online s s' k c e h =
      let h' = same-IsTable s s' e h in
      record {
        online_map = set-IsMap k c s'.online h'.online_map;
        session_map = h'.session_map;
        keyed = h'.keyed;
      }

  pub add_over-IsTable :
      (s : Presence) (c t : ℕ) (o : Option ℕ) → IsTable s → IsTable (add_over connections s c t o)
  add_over-IsTable s c t none h = same-IsTable _ _ (announce-IsSame _ c true t) (
      with_online s s (device connections c) c (record { same_online = refl; same_sessions = refl })
        h)
  add_over-IsTable s c t (some d) h =
      if_both
        (λ (x : Presence).
          IsTable (record x { online = JsMap.set (device connections c) c x.online }))
        (d == c)
        (with_online s s (device connections c) c
          (record { same_online = refl; same_sessions = refl }) h)
        (with_online s _ (device connections c) c
          (record { same_online = refl; same_sessions = refl }) h)

  -- After its removal: no session, and the device's entry is not this connection's.
  pub record IsGone (c : ℕ) (s : Presence) : Type 0 where
    pub is_table : IsTable s
    pub no_session : Clear c s
    pub offline : is_that (JsMap.get (device connections c) s.online) c ≡ false

  end_each-online :
      (c : ℕ) (rs : List RelaySession) (s : Presence) → (end_each c rs s).online ≡ s.online
  unfolding end_each
  end_each-online c [] s = refl
  end_each-online c (q ∷ qs) s =
      if_cases (λ (x : Presence). (end_each c qs x).online ≡ s.online) (involves q c)
        (λ i. end_each-online c qs _ ∙ end_session-online s q.id "peer-disconnected")
        (λ n. end_each-online c qs s)

  gone-IsTable :
      (s : Presence) (k : String)
      → IsTable s
      → IsTable (record s { online = JsMap.delete k s.online })
  gone-IsTable s k h = record {
    online_map = delete-IsMap k s.online h.online_map;
    session_map = h.session_map;
    keyed = h.keyed;
  }

  ended-IsGone :
      (c : ℕ) (s : Presence)
      → IsTable s
      → is_that (JsMap.get (device connections c) s.online) c ≡ false
      → IsGone c (end_each c (JsMap.values s.sessions) s)
  ended-IsGone c s h f =
      let r =
        end_each-Clear c (JsMap.values s.sessions) s h (λ k r e i. values-In k r s.sessions e) in
      record {
        is_table = r.1;
        no_session = r.0;
        offline =
            ap (λ m. is_that (JsMap.get (device connections c) m) c) (end_each-online c _ s) ∙ f;
      }

  same-IsGone : (c : ℕ) (s s' : Presence) → IsSame s s' → IsGone c s → IsGone c s'
  same-IsGone c s s' e g = record {
    is_table = same-IsTable s s' e g.is_table;
    no_session = λ k r x. g.no_session k r (ap (JsMap.get k) (sym e.same_sessions) ∙ x);
    offline = ap (λ m. is_that (JsMap.get (device connections c) m) c) e.same_online ∙ g.offline;
  }

  pub remove-IsGone : (s : Presence) (c t : ℕ) → IsTable s → IsGone c (remove connections s c t)
  unfolding remove
  remove-IsGone s c t h =
      let k = device connections c in
      let here = is_that (JsMap.get k s.online) c in
      let gone : Presence = if here then record s { online = JsMap.delete k s.online } else s in
      let ended = end_each c (JsMap.values gone.sessions) gone in
      let g : IsGone c ended =
        if_cases (λ x. IsGone c (end_each c (JsMap.values x.sessions) x)) here
          (λ y. ended-IsGone c _ (gone-IsTable s k h) (
            ap (λ o. is_that o c)
              (get-delete k k s.online h.online_map ∙ if_true (str_eq k k) none _ (eq_refl k))))
          (λ n. ended-IsGone c s h n) in
      if_both (IsGone c) (here && not (JsMap.has k ended.online))
        (same-IsGone c ended _ (announce-IsSame ended c false t) g) g

  -- An entry that is not the removed connection's is not deleted with it.
  other_entry :
      (s : Presence) (c : ℕ) (k : String)
      → IsTable s
      → is_that (JsMap.get k s.online) c ≡ false
      → is_that (JsMap.get (device connections c) s.online) c ≡ true
      → JsMap.get k (JsMap.delete (device connections c) s.online) ≡ JsMap.get k s.online
  other_entry s c k h other here =
      get-delete (device connections c) k s.online h.online_map
      ∙ if_false (str_eq (device connections c) k) none (JsMap.get k s.online)
          (differs (Bool-cases (str_eq (device connections c) k)))
    where
      differs :
          (str_eq (device connections c) k ≡ true) ⊎ (str_eq (device connections c) k ≡ false)
          → str_eq (device connections c) k ≡ false
      differs (inr n) = n
      differs (inl y) = absurd (
          false≢true (
            sym other
            ∙ ap (λ (j : String). is_that (JsMap.get j s.online) c)
                (sym ((eq_iff (device connections c) k).0 y))
            ∙ here))

  pub remove_others :
      (s : Presence) (c t : ℕ) (k : String)
      → IsTable s
      → is_that (JsMap.get k s.online) c ≡ false
      → JsMap.get k (remove connections s c t).online ≡ JsMap.get k s.online
  unfolding remove
  remove_others s c t k h other =
      let here = is_that (JsMap.get (device connections c) s.online) c in
      let gone : Presence =
        if here then record s { online = JsMap.delete (device connections c) s.online } else s in
      let ended = end_each c (JsMap.values gone.sessions) gone in
      let same : Presence → Type 0 = λ x. JsMap.get k x.online ≡ JsMap.get k s.online in
      let stays : same ended =
        ap (JsMap.get k) (end_each-online c (JsMap.values gone.sessions) gone)
        ∙ if_cases same here (other_entry s c k h other) (λ _. refl) in
      if_both same (here && not (JsMap.has (device connections c) ended.online))
        (ap (JsMap.get k) (announce-IsSame ended c false t).same_online ∙ stays) stays
