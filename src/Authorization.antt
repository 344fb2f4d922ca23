-- ===== src/Authorization.antt =====
-- packages/protocol/src/verdict.ts and apps/desktop/src/authorization.ts: what an answer of the
-- authorization service says, when it is taken, and whether the installation may host.
pub mod Hosting
pub mod Taking
mod Tests
use hop_desk.Common.{
  Bool, List, Option, String, [], false, if◌then◌else◌, is_some, leb, ltb, min, none, not, some,
  str_eq, true, ℕ, ◌&&◌, ◌+◌, ◌||◌, ◌∷◌,
}

pub data VerdictStatus : Type 0 where
  active_verdict blocked_verdict : VerdictStatus

pub record InstallationVerdict : Type 0 where
  pub installation_id : String
  pub status : VerdictStatus
  pub reason : Option String
  pub checked_at : ℕ
  pub valid_until : ℕ

-- A field of a reply, as far as its type matters here.
pub data Field : Type 0 where
  absent : Field
  text : (value : String) → Field
  number : (value : ℕ) → Field

pub record Reply : Type 0 where
  pub installation_id : Field
  pub status : Field
  pub reason : Field
  pub checked_at : Field
  pub valid_until : Field
  pub signature : Field

abbrev pub text_of : Field → Option String
text_of absent = none
text_of (text value) = some value
text_of (number value) = none

abbrev pub number_of : Field → Option ℕ
number_of absent = none
number_of (text value) = none
number_of (number value) = some value

unfoldable pub status_of_text : Option String → Option VerdictStatus
status_of_text none = none
status_of_text (some s) =
    if str_eq s "active"
    then some active_verdict
    else if str_eq s "blocked"
    then some blocked_verdict
    else none

abbrev pub verdict_of :
    Option String
    → Option VerdictStatus
    → Option String
    → Option ℕ
    → Option ℕ
    → Option InstallationVerdict
verdict_of (some id) (some status) reason (some checked) (some valid) = some (record {
  installation_id = id;
  status = status;
  reason = reason;
  checked_at = checked;
  valid_until = valid;
})
verdict_of id status reason checked valid = none

unfoldable pub verdict_from : Reply → Option InstallationVerdict
verdict_from r =
    verdict_of (text_of r.installation_id) (status_of_text (text_of r.status)) (text_of r.reason)
      (number_of r.checked_at) (number_of r.valid_until)

pub data AuthorizationState : Type 0 where
  active blocked unverified disabled : AuthorizationState

-- `configured` is whether the build has a service and its key; `signed key verdict signature` is the
-- check of a signature over the bytes of a verdict.
pub record Authorization : Type 0 where
  pub service_url : Option String
  pub service_public_key : Option (List ℕ)
  pub installation_id : String
  pub cached : Option (InstallationVerdict × String)

abbrev pub max_grace_ms : ℕ
max_grace_ms = 2_592_000_000

abbrev pub clock_slack_ms : ℕ
clock_slack_ms = 86_400_000

pub record AuthorizationStatus : Type 0 where
  pub state : AuthorizationState
  pub reason : Option String
  pub checked_at : Option ℕ
  pub valid_until : Option ℕ
  pub detail : Option String

abbrev pub non_empty : Option String → Bool
non_empty none = false
non_empty (some s) = not (str_eq s "")

unfoldable pub configured : Authorization → Bool
configured a = non_empty a.service_url && is_some a.service_public_key

unfoldable pub ceiling : InstallationVerdict → ℕ
ceiling v = min v.valid_until (v.checked_at + max_grace_ms)

unfoldable pub status_active : InstallationVerdict → ℕ → AuthorizationStatus
status_active v t =
    if leb (ceiling v) t || ltb (t + clock_slack_ms) v.checked_at
    then record {
      state = unverified;
      reason = none;
      checked_at = some v.checked_at;
      valid_until = some (ceiling v);
      detail =
          some
            "HopDesk could not reach the authorization service, and the last answer has expired.";
    }
    else record {
      state = active;
      reason = none;
      checked_at = some v.checked_at;
      valid_until = some (ceiling v);
      detail = none;
    }

abbrev pub status_verdict : InstallationVerdict → VerdictStatus → ℕ → AuthorizationStatus
status_verdict v active_verdict t = status_active v t
status_verdict v blocked_verdict t = record {
  state = blocked;
  reason = if non_empty v.reason then v.reason else none;
  checked_at = some v.checked_at;
  valid_until = none;
  detail = some "This HopDesk installation has been disabled.";
}

abbrev pub status_cached : Option (InstallationVerdict × String) → ℕ → AuthorizationStatus
status_cached none t = record {
  state = unverified;
  reason = none;
  checked_at = none;
  valid_until = none;
  detail = some "HopDesk has not been able to check whether this installation is authorized.";
}
status_cached (some (v, signature)) t = status_verdict v v.status t

abbrev pub unasked : AuthorizationStatus
unasked = record {
  state = disabled;
  reason = none;
  checked_at = none;
  valid_until = none;
  detail = some "This build has no authorization service configured.";
}

unfoldable pub status : Authorization → ℕ → AuthorizationStatus
status a t = if configured a then status_cached a.cached t else unasked

abbrev pub hosts : AuthorizationState → Bool
hosts active = true
hosts disabled = true
hosts blocked = false
hosts unverified = false

unfoldable pub may_host : Authorization → ℕ → Bool
may_host a t = hosts (status a t).state

abbrev pub detail_or : Option String → String
detail_or none = "this installation is not authorized"
detail_or (some d) = d

-- The result of `mayHostWith`: `none` where it is ok, or else the detail.
unfoldable pub may_host_with : (configured : Bool) → Option AuthorizationStatus → Option String
may_host_with false s = none
may_host_with true none =
    some "HopDesk has not been able to check whether this installation is authorized."
may_host_with true (some s) = if hosts s.state then none else some (detail_or s.detail)

-- `!signature` is true of the empty text.
abbrev pub given : Option String → Option String
given o = if non_empty o then o else none

abbrev pub first_of :
    Option (InstallationVerdict × String)
    → Option (InstallationVerdict × String)
    → Option (InstallationVerdict × String)
first_of none old = old
first_of (some new) old = some new

module _ (signed : List ℕ → InstallationVerdict → String → Bool) where
  -- The answer that a reply holds for this installation, if the service signed it.
  abbrev pub believed :
      Authorization
      → Option (List ℕ)
      → Option String
      → Option InstallationVerdict
      → Option (InstallationVerdict × String)
  believed a (some key) (some signature) (some v) =
      if signed key v signature
      then (if str_eq v.installation_id a.installation_id then some (v, signature) else none)
      else none
  believed a key signature v = none

  unfoldable pub take_answer : Authorization → Reply → Option (InstallationVerdict × String)
  take_answer a r = believed a a.service_public_key (given (text_of r.signature)) (verdict_from r)

  unfoldable pub accept : Authorization → Reply → Authorization
  accept a r = record a { cached = first_of (take_answer a r) a.cached }

  -- The constructor: what the file held, `none` where it was not to be read.
  unfoldable pub read_cache : Authorization → Option Reply → Authorization
  read_cache a none = record a { cached = none }
  read_cache a (some r) = record a { cached = take_answer a r }

  unfoldable pub accept_all : Authorization → List Reply → Authorization
  accept_all a [] = a
  accept_all a (r ∷ rs) = accept_all (accept a r) rs
