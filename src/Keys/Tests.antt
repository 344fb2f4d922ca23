-- ===== src/Keys/Tests.antt =====
-- The key exchange run over the toy primitives.
use hop_desk.Keys.Spake.{
  Spake, SpakeOptions, SpakeRole, SpakeResult, new_spake, finish, verify_peer,
}
use hop_desk.Keys.Spake.SpakeRole.{role_a, role_b}
use hop_desk.Keys.Agreement.{finish_agrees}
use hop_desk.Keys.Toy.{toy, toy-IsCurve, repeated}
use hop_desk.Common.{[], false, refl, some, true, ℕ, ◌∷◌, ◌≡◌}

abbrev options : SpakeRole → SpakeOptions
options role = record { role = role; id_a = 1 ∷ []; id_b = 2 ∷ []; w = 9 }

abbrev side : SpakeRole → ℕ → ℕ → Spake
side role k point = record {
  opts = options role;
  scalar = k;
  share = 4 ∷ point ∷ repeated 63 0;
  finished = false;
}

finish_agrees_example :
    (ra : SpakeResult) × (rb : SpakeResult) × ((finish toy
        (side role_a 5 23)
        (side role_b 7 34).share
        []).1
      ≡ some ra)
    × ((finish toy (side role_b 7 34) (side role_a 5 23).share []).1 ≡ some rb)
    × (ra.ke ≡ rb.ke)
    × (verify_peer ra rb.confirmation ≡ true)
    × (verify_peer rb ra.confirmation ≡ true)
unfolding new_spake
finish_agrees_example =
    finish_agrees toy toy-IsCurve (1 ∷ []) (2 ∷ []) [] 9 5 7 (side role_a 5 23) (side role_b 7 34)
      refl refl refl refl refl
