-- ===== src/Failures/Tests.antt =====
-- Failures of concrete connections.
use hop_desk.Text.{
  contains, contains_any, contains_then, rest_after, on_line, lower, decimal, decimal_on, digit,
}
use hop_desk.Failures.{
  Target, classify_vnc_error, explain_vnc_error, handshake_failure, is_terminal, security_failure,
  where_to,
}
use hop_desk.Failures.ErrorCategory.{auth_failed, connection_refused}
use hop_desk.Common.{refl, true, ◌≡◌}

failures : Unit {0}
unfolding classify_vnc_error security_failure handshake_failure explain_vnc_error is_terminal
    where_to contains contains_any contains_then rest_after on_line lower decimal decimal_on digit
failures = tt

abbrev at_home : Target
at_home = record { host = "password.local"; port = 5900 }

category : (classify_vnc_error "Authentication failed: 1" at_home).category ≡ auth_failed
unfolding failures
category = refl

message :
    explain_vnc_error "connect ETIMEDOUT 10.0.0.5:5900" (record { host = "10.0.0.5"; port = 5900 })
    ≡ "10.0.0.5:5900 did not respond. A firewall may be blocking the port, or the computer is asleep."
unfolding failures
message = refl

-- The explanation names the host, and a host that is called so is taken for a wrong password.
host_is_terminal :
    ((classify_vnc_error "connect ECONNREFUSED 10.0.0.5:5900" at_home).category
      ≡ connection_refused)
    × (is_terminal (explain_vnc_error "connect ECONNREFUSED 10.0.0.5:5900" at_home) ≡ true)
unfolding failures
host_is_terminal = (refl, refl)
