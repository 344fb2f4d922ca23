-- ===== src/JsMap/Laws.antt =====
-- The laws of the map operations.
use hop_desk.Common.{
  ◌+◌, ◌≤◌, String, Bool, true, false, Option, none, some, [], ◌∷◌, if◌then◌else◌, str_eq, ◌≡◌,
  refl, arith, eq_iff, eq_refl,
}
use hop_desk.JsMap.{JsMap, get, has, set, delete, keep, size}

abbrev pub only {ℓ} : {A : Type ℓ} → (A → Bool) → Option A → Option A
only p none = none
only p (some v) = if p v then some v else none

module _ {ℓ} {V : Type ℓ} where
  -- No key has two entries.
  abbrev pub IsMap : JsMap V → Type ℓ
  IsMap [] = Unit
  IsMap ((k, v) ∷ m) = (get k m ≡ none) × IsMap m

  pub get-set :
      (k j : String) (v : V) (m : JsMap V)
      → get j (set k v m) ≡ (if str_eq k j then some v else get j m)
  unfolding get set
  get-set k j v [] = refl
  get-set k j v ((i, w) ∷ m) = ground (arith, eq_iff k j, eq_iff i k, eq_iff i j, get-set k j v m)

  pub get-set_self : (k : String) (v : V) (m : JsMap V) → get k (set k v m) ≡ some v
  get-set_self k v m = ground (arith, get-set k k v m, eq_refl k)

  pub get-set_ne :
      (k j : String) (v : V) (m : JsMap V) → str_eq k j ≡ false → get j (set k v m) ≡ get j m
  get-set_ne k j v m h = ground (arith, get-set k j v m)

  pub set-IsMap : (k : String) (v : V) (m : JsMap V) → IsMap m → IsMap (set k v m)
  unfolding set get
  set-IsMap k v [] h = (refl, tt)
  set-IsMap k v ((i, w) ∷ m) (fresh, h) =
      ground (arith, set-IsMap k v m h, get-set k i v m, eq_iff i k, eq_iff k i)

  pub get-delete :
      (k j : String) (m : JsMap V)
      → IsMap m
      → get j (delete k m) ≡ (if str_eq k j then none else get j m)
  unfolding get delete
  get-delete k j [] h = ground arith
  get-delete k j ((i, w) ∷ m) (fresh, h) =
      ground (arith, get-delete k j m h, eq_iff i k, eq_iff i j, eq_iff k j)

  pub delete-IsMap : (k : String) (m : JsMap V) → IsMap m → IsMap (delete k m)
  unfolding delete
  delete-IsMap k [] h = tt
  delete-IsMap k ((i, w) ∷ m) (fresh, h) = ground (arith, delete-IsMap k m h, get-delete k i m h)

  pub get-keep :
      (p : String → V → Bool) (j : String) (m : JsMap V)
      → IsMap m
      → get j (keep p m) ≡ only (p j) (get j m)
  unfolding get keep
  get-keep p j [] h = refl
  get-keep p j ((i, w) ∷ m) (fresh, h) = ground (arith, get-keep p j m h, eq_iff i j)

  pub keep-IsMap : (p : String → V → Bool) (m : JsMap V) → IsMap m → IsMap (keep p m)
  unfolding keep
  keep-IsMap p [] h = tt
  keep-IsMap p ((i, w) ∷ m) (fresh, h) = ground (arith, keep-IsMap p m h, get-keep p i m h)

  pub size-keep-le : (p : String → V → Bool) (m : JsMap V) → size (keep p m) ≤ size m
  unfolding keep
  size-keep-le p [] = omega arith
  size-keep-le p ((i, w) ∷ m) = ground (arith, size-keep-le p m)

  pub size-delete :
      (k : String) (v : V) (m : JsMap V) → get k m ≡ some v → size (delete k m) + 1 ≡ size m
  unfolding delete get
  size-delete k v [] h = ground arith
  size-delete k v ((i, w) ∷ m) h = ground (arith, size-delete k v m)

  pub size-set :
      (k : String) (v : V) (m : JsMap V)
      → size (set k v m) ≡ (if has k m then size m else size m + 1)
  unfolding set get
  size-set k v [] = omega arith
  size-set k v ((i, w) ∷ m) = ground (arith, size-set k v m)

  -- What is left after `keep` was there, and passes the test.
  pub get-keep_part :
      (p : String → V → Bool) (k : String) (v : V) (m : JsMap V)
      → IsMap m
      → get k (keep p m) ≡ some v
      → (get k m ≡ some v) × (p k v ≡ true)
  get-keep_part p k v m h e = ground (arith, get-keep p k m h)

  pub get-cons_of_get :
      (k j : String) (v w : V) (m : JsMap V)
      → get k m ≡ none
      → get j m ≡ some v
      → get j ((k, w) ∷ m) ≡ some v
  unfolding get
  get-cons_of_get k j v w m fresh e = ground (arith, eq_iff k j)

  pub get-cons_self : (k : String) (v : V) (m : JsMap V) → get k ((k, v) ∷ m) ≡ some v
  unfolding get
  get-cons_self k v m = ground (arith, eq_refl k)
