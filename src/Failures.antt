-- ===== src/Failures.antt =====
-- packages/core/src/errors.ts: what a failure means to a person; and packages/core/src/session.ts:
-- `explainVncError` and the failures after which a session does not retry.
pub mod Rdp
pub mod Retries
mod Tests
use Prim.Native.String.{◌++◌}
use hop_desk.Text.{contains, contains_any, contains_then, decimal, lower, same}
use hop_desk.Common.{Bool, String, [], if◌then◌else◌, not, set, ℕ, ◌∷◌}
use hop_desk.JsMap.Laws.{only}

pub data ErrorCategory : Type 0 where
  unreachable connection_refused timeout auth_failed auth_required : ErrorCategory
  account_restricted certificate_changed certificate_rejected unsupported : ErrorCategory
  client_missing closed_by_remote network_lost unknown : ErrorCategory

pub record FriendlyError : Type 0 where
  pub category : ErrorCategory
  pub title : String
  pub message : String
  pub detail : String

pub record Target : Type 0 where
  pub host : String
  pub port : ℕ

unfoldable pub where_to : Target → String
where_to c = c.host ++ ":" ++ decimal c.port

abbrev pub failure : (detail : String) → ErrorCategory → (title message : String) → FriendlyError
failure detail category title message = record {
  category = category;
  title = title;
  message = message;
  detail = detail;
}

unfoldable pub handshake_failure : String → FriendlyError
handshake_failure raw =
    let f = failure raw in
    if contains_any lower
      ("closed the connection during the handshake" ∷ "refused the connection" ∷ []) raw
    then f closed_by_remote "Connection closed"
        "The remote computer closed the connection before it was set up. It may allow only one viewer, or limit who can connect."
    else if contains_any lower
        ("econnreset" ∷ "epipe" ∷ "connection closed" ∷ "connection closed" ∷ []) raw
    then f network_lost "Connection lost" "The connection to the remote computer was interrupted."
    else f unknown "Connection failed" "The connection could not be established."

unfoldable pub security_failure : String → Target → FriendlyError
security_failure raw c =
    let f = failure raw in
    if contains lower "needs a password" raw
    then f auth_required "Password required" "This computer needs a password."
    else if contains lower "authentication failed" raw
    then f auth_failed "Wrong password"
        "The remote computer did not accept the password. Enter it again."
    else if contains same "Apple Remote Desktop" raw
    then f unsupported "VNC password access is off"
        "On the Mac, open System Settings → General → Sharing → Screen Sharing → ⓘ and turn on \"VNC viewers may control screen with password\"."
    else if contains_any lower
        ("no supported authentication method" ∷ "not supported" ∷ "not a vnc server" ∷ []) raw
    then f unsupported "Unsupported server" (
        if contains same "Not a VNC server" raw
        then "Something other than a VNC server answered at "
          ++ where_to c
          ++ ". Check the port number."
        else "This server requires a security method HopDesk does not support yet (for example TLS-only VNC). Allow VNC password authentication on the server.")
    else handshake_failure raw

unfoldable pub classify_vnc_error : String → Target → FriendlyError
classify_vnc_error raw c =
    let f = failure raw in
    if contains_any same ("ENOTFOUND" ∷ "EAI_AGAIN" ∷ "could not be found" ∷ []) raw
    then f unreachable "Computer not found" (
        "The name \"" ++ c.host
        ++ "\" could not be found on this network. Check the spelling, or use the computer's IP address.")
    else if contains_any same ("EHOSTUNREACH" ∷ "ENETUNREACH" ∷ "cannot be reached" ∷ []) raw
    then f unreachable "Computer unreachable" (
        c.host
        ++ " cannot be reached. Check that both computers are on the same network or VPN, and that the remote computer is switched on.")
    else if contains_any same ("ECONNREFUSED" ∷ "Nothing is accepting" ∷ []) raw
    then f connection_refused "Connection refused" (
        where_to c
        ++ " is not accepting screen sharing connections. Check that screen sharing (VNC) is turned on and that the port is correct.")
    else if contains_any same ("ETIMEDOUT" ∷ "No response from" ∷ "did not respond" ∷ []) raw
    then f timeout "No response" (
        where_to c
        ++ " did not answer. The computer may be asleep, or a firewall may be blocking the port.")
    else security_failure raw c

abbrev pub mac_hint : String
mac_hint =
    ". On the Mac, open System Settings → General → Sharing → Screen Sharing → ⓘ and turn on \"VNC viewers may control screen with password\"."

unfoldable pub explain_vnc_error : String → Target → String
explain_vnc_error message c =
    if contains same "ECONNREFUSED" message
    then "Nothing is accepting VNC connections at "
      ++ where_to c
      ++ ". Check that screen sharing is turned on and the port is right."
    else if contains_any same ("ENOTFOUND" ∷ "EAI_AGAIN" ∷ []) message
    then "The computer name \"" ++ c.host
      ++ "\" could not be found. Check the address, or use its IP address."
    else if contains_any same ("EHOSTUNREACH" ∷ "ENETUNREACH" ∷ []) message
    then c.host
      ++ " cannot be reached from this network. Check that both computers are on the same network or VPN."
    else if contains_any same ("ETIMEDOUT" ∷ "No response from" ∷ []) message
    then where_to c
      ++ " did not respond. A firewall may be blocking the port, or the computer is asleep."
    else if contains_then "No supported authentication method" "Apple Remote Desktop" message
    then message ++ mac_hint
    else message

-- The explained reasons after which the session gives up at once.
unfoldable pub is_terminal : String → Bool
is_terminal reason =
    contains_any lower
      ("password" ∷ "authentication" ∷ "refused the connection" ∷ "not a vnc server"
        ∷ "no supported authentication" ∷ [])
      reason
