-- ===== src/Failures/Rdp.antt =====
-- packages/core/src/errors.ts: `classifyRdpError`, in parts for the failures to sign in, the others
-- that have names of their own, and a connection that failed.
use Prim.Native.String.{◌++◌}
use hop_desk.Text.{decimal}
use hop_desk.Failures.{where_to, failure, FriendlyError, Target}
use hop_desk.Failures.ErrorCategory.{
  unreachable, auth_failed, account_restricted, certificate_rejected, unsupported, closed_by_remote,
  unknown,
}
use hop_desk.Common.{
  Bool, List, Option, String, [], false, if◌then◌else◌, none, some, str_eq, ℕ, ◌||◌, ◌∷◌,
}

-- The optional `context.exitCode`.
pub data ExitCode : Type 0 where
  not_given no_code : ExitCode
  exited : (code : ℕ) → ExitCode

unfoldable pub one_of : List String → String → Bool
one_of [] code = false
one_of (name ∷ names) code = str_eq name code || one_of names code

unfoldable pub classify_connection : String → String → Target → Bool → FriendlyError
classify_connection detail code c reachable =
    let f = failure detail in
    if one_of ("ERRCONNECT_CONNECT_TRANSPORT_FAILED" ∷ "ERRCONNECT_CONNECT_FAILED" ∷ []) code
    then (if reachable
        then f auth_failed "Connection closed during sign-in"
            "The remote computer closed the connection while signing in. Check that Remote Desktop is enabled and that the username and password are correct."
        else f unreachable "Computer unreachable" (
            "Could not reach "
            ++ where_to c
            ++ ". Check the address, that Remote Desktop is turned on, and that the port is not blocked."))
    else f unknown "Connection failed" "The remote desktop connection could not be established."

unfoldable pub classify_named : String → String → Target → Bool → FriendlyError
classify_named detail code c reachable =
    let f = failure detail in
    if one_of ("ERRCONNECT_DNS_ERROR" ∷ "ERRCONNECT_DNS_NAME_NOT_FOUND" ∷ []) code
    then f unreachable "Computer not found" (
        "The name \"" ++ c.host
        ++ "\" could not be found. Check the spelling, or use the computer's IP address.")
    else if one_of ("ERRCONNECT_SECURITY_NEGO_CONNECT_FAILED" ∷ []) code
    then f unsupported "Security settings not accepted"
        "The computer rejected the connection’s security settings. It may require Network Level Authentication with a username and password."
    else if one_of ("ERRCONNECT_CONNECT_CANCELLED" ∷ []) code
    then f closed_by_remote "Connection cancelled" "The connection was cancelled."
    else if one_of ("ERRCONNECT_KDC_UNREACHABLE" ∷ []) code
    then f unreachable "Domain controller unreachable"
        "The domain controller could not be reached to check the account."
    else classify_connection detail code c reachable

unfoldable pub classify_code : String → String → Target → Bool → FriendlyError
classify_code detail code c reachable =
    let f = failure detail in
    if one_of
      ("ERRCONNECT_LOGON_FAILURE" ∷ "ERRCONNECT_AUTHENTICATION_FAILED" ∷ "ERRCONNECT_WRONG_PASSWORD"
        ∷ "ERRCONNECT_NO_OR_MISSING_CREDENTIALS" ∷ [])
      code
    then f auth_failed "Wrong username or password"
        "The remote computer did not accept the sign-in. For a Microsoft account use its e-mail address and password, not the PIN."
    else if one_of
        ("ERRCONNECT_PASSWORD_EXPIRED" ∷ "ERRCONNECT_PASSWORD_CERTAINLY_EXPIRED"
          ∷ "ERRCONNECT_PASSWORD_MUST_CHANGE" ∷ [])
        code
    then f account_restricted "Password expired"
        "Sign in on the computer itself to set a new password."
    else if one_of ("ERRCONNECT_ACCOUNT_DISABLED" ∷ "ERRCONNECT_ACCOUNT_EXPIRED" ∷ []) code
    then f account_restricted "Account disabled" "This account is disabled or has expired."
    else if one_of ("ERRCONNECT_ACCOUNT_LOCKED_OUT" ∷ []) code
    then f account_restricted "Account locked"
        "Too many failed sign-ins. Wait, or ask an administrator to unlock the account."
    else if one_of
        ("ERRCONNECT_ACCOUNT_RESTRICTION" ∷ "ERRCONNECT_LOGON_TYPE_NOT_GRANTED"
          ∷ "ERRCONNECT_INSUFFICIENT_PRIVILEGES" ∷ "ERRCONNECT_ACCESS_DENIED" ∷ [])
        code
    then f account_restricted "Remote sign-in not allowed"
        "This account may not sign in remotely. Add it to the Remote Desktop Users group on that computer."
    else if one_of ("ERRCONNECT_TLS_CONNECT_FAILED" ∷ []) code
    then f certificate_rejected "Secure connection failed"
        "The remote computer’s certificate was not accepted, or it has changed."
    else classify_named detail code c reachable

-- A text that is empty counts as no code, but `??` keeps it as the detail.
unfoldable pub detail_of : Option String → ExitCode → String
detail_of (some code) e = code
detail_of none not_given = "no error reported"
detail_of none no_code = "exit code null"
detail_of none (exited n) = "exit code " ++ decimal n

abbrev pub session_ended : String → FriendlyError
session_ended detail =
    failure detail closed_by_remote "Session ended"
      "The remote desktop window closed unexpectedly. Open the diagnostics for details."

unfoldable pub classify_rdp_error :
    Option String → Target → (reachable : Bool) → ExitCode → FriendlyError
classify_rdp_error none c reachable e = session_ended (detail_of none e)
classify_rdp_error (some code) c reachable e =
    let classified = classify_code (detail_of (some code) e) code c reachable in
    if str_eq code "" then session_ended (detail_of (some code) e) else classified
