-- ===== src/Authorization/Tests.antt =====
-- Answers of a service whose signature is the word for the key, taken by one installation.
use hop_desk.Authorization.{
  Authorization, InstallationVerdict, Reply, status, may_host, accept, accept_all, ceiling,
  configured, may_host_with, read_cache, status_active, status_of_text, take_answer, verdict_from,
}
use hop_desk.Authorization.Field.{absent, text, number}
use hop_desk.Authorization.Hosting.{IsHosting, may_host_iff}
use hop_desk.Authorization.Taking.{IsAuthentic, accept_all-IsAuthentic}
use hop_desk.Common.{
  Bool, List, String, [], false, none, refl, some, str_eq, true, ℕ, ◌↔◌, ◌∷◌, ◌≡◌,
}

authorization : Unit {0}
unfolding verdict_from status_of_text configured ceiling status_active status may_host may_host_with
    take_answer accept accept_all read_cache
authorization = tt

abbrev service : List ℕ → InstallationVerdict → String → Bool
service key v signature = str_eq signature "service"

abbrev answer : String → Reply
answer status = record {
  installation_id = text "mine";
  status = text status;
  reason = absent;
  checked_at = number 1000;
  valid_until = number 5000;
  signature = text "service";
}

abbrev installation : Authorization
installation = record {
  service_url = some "https://hopdesk";
  service_public_key = some (1 ∷ []);
  installation_id = "mine";
  cached = none;
}

allowed : may_host (accept service installation (answer "active")) 4000 ≡ true
unfolding authorization
allowed = refl

expired : may_host (accept service installation (answer "active")) 5000 ≡ false
unfolding authorization
expired = refl

forged :
    may_host
      (accept service
        (accept service installation (answer "blocked"))
        (record (answer "active") { signature = text "mine" }))
      4000
    ≡ false
unfolding authorization
forged = refl

may_host_iff_example :
    (may_host (accept service installation (answer "active")) 4000 ≡ true)
    ↔ IsHosting (accept service installation (answer "active")).cached 4000
unfolding authorization
may_host_iff_example = may_host_iff (accept service installation (answer "active")) 4000 refl

accept_all-IsAuthentic_example :
    IsAuthentic service installation
      (accept_all service
        (read_cache service installation (some (answer "blocked")))
        (answer "active" ∷ [])).cached
accept_all-IsAuthentic_example =
    accept_all-IsAuthentic service installation (some (answer "blocked")) (answer "active" ∷ [])
