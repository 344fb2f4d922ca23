-- ===== src/Replay/Entries.antt =====
-- The entries of the nonce cache: which stay, and how many there are.
use hop_desk.JsMap
use hop_desk.Replay.{drop_first, drop_old, NonceCache, look_up, make_room, prune, remember}
use hop_desk.Common.{
  Bool-cases, String, [], arith, eq_iff, eq_refl, inl, inr, leb, le→leb, none, str_eq, suc, true, ℕ,
  ◌*◌, ◌+◌, ◌-◌, ◌<◌, ◌∷◌, ◌≡◌, ◌≤◌, ◌⊎◌, refl,
}
use hop_desk.JsMap.{JsMap}
use hop_desk.JsMap.Laws.{
  IsMap, delete-IsMap, get-cons_self, get-delete, set-IsMap, size-delete, size-set,
}

-- The entry of the nonce stands in the cache, with at most `k` entries behind it.
abbrev pub Remembers : String → ℕ → ℕ → JsMap ℕ → Type 0
Remembers n at k [] = ⊥
Remembers n at k ((j, x) ∷ m) = ((j ≡ n) × (x ≡ at) × (JsMap.size m ≤ k)) ⊎ Remembers n at k m

pub Remembers-has :
    (n : String) (at k : ℕ) (m : JsMap ℕ) → Remembers n at k m → JsMap.has n m ≡ true
unfolding JsMap.get
Remembers-has n at k [] h = absurd h
Remembers-has n at k ((j, x) ∷ m) (inl (e, _, _)) = ground (arith, eq_iff j n)
Remembers-has n at k ((j, x) ∷ m) (inr h) = ground (arith, Remembers-has n at k m h)

pub Remembers-mono :
    (n : String) (at k : ℕ) (m : JsMap ℕ) → Remembers n at k m → Remembers n at (suc k) m
Remembers-mono n at k [] h = absurd h
Remembers-mono n at k ((j, x) ∷ m) (inl (e, f, g)) = inl (e, f, omega arith)
Remembers-mono n at k ((j, x) ∷ m) (inr h) = inr (Remembers-mono n at k m h)

-- Pruning stops at an entry that is not old, whatever stands before it.
pub Remembers-drop_old :
    (n : String) (at k w t : ℕ) (m : JsMap ℕ)
    → t ≤ at + 2 * w
    → Remembers n at k m
    → Remembers n at k (drop_old w t m)
unfolding drop_old
Remembers-drop_old n at k w t [] h r = r
Remembers-drop_old n at k w t ((j, x) ∷ m) h (inl (e, f, g)) =
    rw (le→leb (t - x) (2 * w) (omega arith)) (inl (e, f, g))
Remembers-drop_old n at k w t ((j, x) ∷ m) h (inr r) = elim (Bool-cases (leb (t - x) (2 * w))) [
  | inl new ↦ rw new (inr r)
  | inr old ↦ rw old (Remembers-drop_old n at k w t m h r)
]

-- A full cache drops its first entry, which is another one while fewer stand behind ours.
pub Remembers-drop_first :
    (n : String) (at k : ℕ) (m : JsMap ℕ)
    → suc k < JsMap.size m
    → Remembers n at k m
    → Remembers n at k (drop_first m)
unfolding JsMap.delete
Remembers-drop_first n at k [] full r = r
Remembers-drop_first n at k ((j, x) ∷ m) full (inl (e, f, g)) = absurd (omega arith)
Remembers-drop_first n at k ((j, x) ∷ m) full (inr r) = rw (eq_refl j) r

-- A new entry goes behind.
pub Remembers-set :
    (n j : String) (at k t : ℕ) (m : JsMap ℕ)
    → JsMap.get j m ≡ none
    → Remembers n at k m
    → Remembers n at (suc k) (JsMap.set j t m)
unfolding JsMap.set JsMap.get
Remembers-set n j at k t [] no_entry r = absurd r
Remembers-set n j at k t ((i, x) ∷ m) gone (inl (e, f, g)) = elim (Bool-cases (str_eq i j)) [
  | inl same ↦ cc
  | inr other ↦ rw other (inl (e, f, ground (arith, size-set j t m)))
]
Remembers-set n j at k t ((i, x) ∷ m) gone (inr r) = elim (Bool-cases (str_eq i j)) [
  | inl same ↦ cc
  | inr other ↦ rw other (inr (Remembers-set n j at k t m (ground arith) r))
]

-- A new nonce is remembered with nothing behind it.
pub Remembers-set_new :
    (n : String) (t : ℕ) (m : JsMap ℕ) → JsMap.get n m ≡ none → Remembers n t 0 (JsMap.set n t m)
unfolding JsMap.set JsMap.get
Remembers-set_new n t [] gone = inl (refl, refl, omega arith)
Remembers-set_new n t ((i, x) ∷ m) gone = elim (Bool-cases (str_eq i n)) [
  | inl same ↦ cc
  | inr other ↦ rw other (inr (Remembers-set_new n t m (ground arith)))
]

-- The entries are a map, and there are at most `max_entries` of them.
pub record IsSound (c : NonceCache) : Type 0 where
  pub keys : IsMap c.seen
  pub room : JsMap.size c.seen ≤ c.max_entries

drop_old-IsMap : (w t : ℕ) (m : JsMap ℕ) → IsMap m → IsMap (drop_old w t m)
unfolding drop_old
drop_old-IsMap w t [] h = tt
drop_old-IsMap w t (e ∷ m) h = ground (arith, drop_old-IsMap w t m h.1)

size-drop_old : (w t : ℕ) (m : JsMap ℕ) → JsMap.size (drop_old w t m) ≤ JsMap.size m
unfolding drop_old
size-drop_old w t [] = omega arith
size-drop_old w t (e ∷ m) = ground (arith, size-drop_old w t m)

drop_first-IsMap : (m : JsMap ℕ) → IsMap m → IsMap (drop_first m)
drop_first-IsMap [] h = tt
drop_first-IsMap ((n, at) ∷ m) h = delete-IsMap n ((n, at) ∷ m) h

size-drop_first : (m : JsMap ℕ) → JsMap.size (drop_first m) ≡ JsMap.size m - 1
size-drop_first [] = omega arith
size-drop_first ((n, at) ∷ m) = omega (arith, size-delete n at ((n, at) ∷ m) (get-cons_self n at m))

pub prune-IsSound : (c : NonceCache) (t : ℕ) → IsSound c → IsSound (prune c t)
unfolding prune
prune-IsSound c t v = record {
  keys = drop_old-IsMap c.window_ms t c.seen v.keys;
  room = omega (arith, size-drop_old c.window_ms t c.seen, v.room);
}

pub get-drop_first-none :
    (n : String) (m : JsMap ℕ) → IsMap m → JsMap.get n m ≡ none → JsMap.get n (drop_first m) ≡ none
get-drop_first-none n [] h e = e
get-drop_first-none n ((j, x) ∷ m) h e = ground (arith, get-delete j n ((j, x) ∷ m) h)

-- Looking a new nonce up stores it: the first entry makes room for it if need be.
pub look_up-IsSound :
    (c : NonceCache) (n : String) (t : ℕ)
    → 0 < c.max_entries
    → IsSound c
    → IsSound (look_up c n t).0
unfolding look_up make_room remember
look_up-IsSound c n t some_room v = record {
  keys = ground (
    arith,
    v.keys,
    set-IsMap n t c.seen v.keys,
    set-IsMap n t (drop_first c.seen) (drop_first-IsMap c.seen v.keys),
  );
  room = ground (
    arith,
    v.room,
    size-set n t c.seen,
    size-set n t (drop_first c.seen),
    size-drop_first c.seen,
    get-drop_first-none n c.seen v.keys,
  );
}
