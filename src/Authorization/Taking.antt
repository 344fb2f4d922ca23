-- ===== src/Authorization/Taking.antt =====
-- Which answers are taken.
use hop_desk.Authorization.{
  Authorization, InstallationVerdict, Reply, accept_all, believed, first_of, given, read_cache,
  take_answer, text_of, verdict_from, accept,
}
use hop_desk.Common.{
  Bool, List, Option, String, eq_iff, if_cases, none, refl, some, str_eq, true, ℕ, ◌≡◌, [], ◌∷◌,
}

module _ (signed : List ℕ → InstallationVerdict → String → Bool) where
  -- The answer in the cache is signed with the service's key and about this installation.
  abbrev pub IsAuthentic : Authorization → Option (InstallationVerdict × String) → Type 0
  IsAuthentic a none = Unit
  IsAuthentic a (some (v, s)) =
      (key : List ℕ) × (a.service_public_key ≡ some key)
      × (signed key v s ≡ true)
      × (v.installation_id ≡ a.installation_id)

  believed-IsAuthentic :
      (a : Authorization) (k : Option (List ℕ)) (s : Option String) (v : Option InstallationVerdict)
      → a.service_public_key ≡ k
      → IsAuthentic a (believed signed a k s v)
  believed-IsAuthentic a none s v e = tt
  believed-IsAuthentic a (some key) none v e = tt
  believed-IsAuthentic a (some key) (some s) none e = tt
  believed-IsAuthentic a (some key) (some s) (some v) e =
      if_cases (IsAuthentic a) (signed key v s)
        (λ x.
          if_cases (IsAuthentic a) (str_eq v.installation_id a.installation_id)
            (λ y. (key, e, x, (eq_iff v.installation_id a.installation_id).0 y)) (λ _. tt))
        (λ _. tt)

  take_answer-IsAuthentic : (a : Authorization) (r : Reply) → IsAuthentic a (take_answer signed a r)
  unfolding take_answer
  take_answer-IsAuthentic a r =
      believed-IsAuthentic a a.service_public_key (given (text_of r.signature)) (verdict_from r)
        refl

  first-IsAuthentic :
      (a : Authorization) (n o : Option (InstallationVerdict × String))
      → IsAuthentic a n
      → IsAuthentic a o
      → IsAuthentic a (first_of n o)
  first-IsAuthentic a none o x y = y
  first-IsAuthentic a (some n) o x y = x

  accept_all-cached :
      (a : Authorization) (c : Option (InstallationVerdict × String)) (rs : List Reply)
      → IsAuthentic a c
      → IsAuthentic a (accept_all signed (record a { cached = c }) rs).cached
  unfolding accept_all accept take_answer
  accept_all-cached a c [] h = h
  accept_all-cached a c (r ∷ rs) h =
      accept_all-cached a (first_of (take_answer signed a r) c) rs
        (first-IsAuthentic a (take_answer signed a r) c (take_answer-IsAuthentic a r) h)

  -- Whatever answers come in after a start from whatever file, the cache holds only an answer that
  -- is signed with the service's key and is about this installation.
  pub accept_all-IsAuthentic :
      (a : Authorization) (file : Option Reply) (rs : List Reply)
      → IsAuthentic a (accept_all signed (read_cache signed a file) rs).cached
  unfolding read_cache
  accept_all-IsAuthentic a none rs = accept_all-cached a none rs tt
  accept_all-IsAuthentic a (some r) rs =
      accept_all-cached a (take_answer signed a r) rs (take_answer-IsAuthentic a r)
