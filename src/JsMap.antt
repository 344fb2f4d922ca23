-- ===== src/JsMap.antt =====
-- The `Map<string, V>` of the language: one entry for a key, in the order of first insertion.
-- `set` on a key that is there keeps its place; `delete` drops the entry; a `for` loop that deletes
-- as it goes over the entries is `keep` of the others.
pub mod Laws
use hop_desk.Common.{
  ℕ, String, Bool, Option, none, some, List, [], ◌∷◌, if◌then◌else◌, str_eq, is_some, length, map,
}

abbrev pub JsMap {ℓ} : Type ℓ → Type ℓ
JsMap V = List (String × V)

module _ {ℓ} {V : Type ℓ} where
  unfoldable pub get : String → JsMap V → Option V
  get k [] = none
  get k ((j, v) ∷ m) = if str_eq j k then some v else get k m

  abbrev pub has : String → JsMap V → Bool
  has k m = is_some (get k m)

  unfoldable pub set : String → V → JsMap V → JsMap V
  set k v [] = (k, v) ∷ []
  set k v ((j, w) ∷ m) = if str_eq j k then (j, v) ∷ m else (j, w) ∷ set k v m

  unfoldable pub delete : String → JsMap V → JsMap V
  delete k [] = []
  delete k ((j, w) ∷ m) = if str_eq j k then m else (j, w) ∷ delete k m

  unfoldable pub keep : (String → V → Bool) → JsMap V → JsMap V
  keep p [] = []
  keep p ((j, w) ∷ m) = if p j w then (j, w) ∷ keep p m else keep p m

  abbrev pub size : JsMap V → ℕ
  size = length

  abbrev pub values : JsMap V → List V
  values = map (λ e. e.1)
