-- ===== src/Failures/Retries.antt =====
-- A password that is missing or wrong ends the retries: what is classified as that is terminal.
use Prim.Native.String.{◌++◌}
use hop_desk.Text.{contains, contains_any, contains_then, lower, same}
use hop_desk.Text.Words.{contains-suffix, contains_any-append, contains-prefix, contains-append}
use hop_desk.Failures.{
  ErrorCategory, FriendlyError, Target, handshake_failure, is_terminal, security_failure,
  classify_vnc_error, explain_vnc_error, mac_hint,
}
use hop_desk.Failures.ErrorCategory.{auth_failed, auth_required}
use hop_desk.Common.{
  Bool, List, String, [], false, or_left, or_right, true, ℕ, ◌∷◌, ◌≡◌, ◌⊎◌, false≢true, if_both,
  if_cases, inl, inr, or_false, sym, ◌∙◌,
}

abbrev pub is_password : ErrorCategory → Bool
is_password auth_failed = true
is_password auth_required = true
is_password c = false

any_first :
    (fold : ℕ → ℕ) (w : String) (ws : List String) (s : String)
    → contains fold w s ≡ true
    → contains_any fold (w ∷ ws) s ≡ true
unfolding contains_any
any_first fold w ws s h = or_left (contains fold w s) (contains_any fold ws s) h

any_later :
    (fold : ℕ → ℕ) (w : String) (ws : List String) (s : String)
    → contains_any fold ws s ≡ true
    → contains_any fold (w ∷ ws) s ≡ true
unfolding contains_any
any_later fold w ws s h = or_right (contains fold w s) (contains_any fold ws s) h

password_terminal : (s : String) → contains lower "needs a password" s ≡ true → is_terminal s ≡ true
unfolding is_terminal
password_terminal s h =
    any_first lower "password"
      ("authentication" ∷ "refused the connection" ∷ "not a vnc server"
        ∷ "no supported authentication" ∷ [])
      s (contains-suffix lower "needs a " "password" s h)

authentication_terminal :
    (s : String) → contains lower "authentication failed" s ≡ true → is_terminal s ≡ true
unfolding is_terminal
authentication_terminal s h =
    any_later lower "password"
      ("authentication" ∷ "refused the connection" ∷ "not a vnc server"
        ∷ "no supported authentication" ∷ [])
      s
      (any_first lower "authentication"
        ("refused the connection" ∷ "not a vnc server" ∷ "no supported authentication" ∷ []) s
        (contains-prefix lower "authentication" " failed" s h))

abbrev SaysPassword : String → Type 0
SaysPassword s =
    (contains lower "needs a password" s ≡ true) ⊎ (contains lower "authentication failed" s ≡ true)

says_terminal : (s : String) → SaysPassword s → is_terminal s ≡ true
says_terminal s (inl h) = password_terminal s h
says_terminal s (inr h) = authentication_terminal s h

says-append : (s t : String) → SaysPassword s → SaysPassword (s ++ t)
says-append s t (inl h) = inl (contains-append lower "needs a password" s t h)
says-append s t (inr h) = inr (contains-append lower "authentication failed" s t h)

security_password :
    (raw : String) (c : Target)
    → is_password (security_failure raw c).category ≡ true
    → SaysPassword raw
unfolding security_failure handshake_failure
security_password raw c =
    let P : FriendlyError → Type 0 = λ f. is_password f.category ≡ true → SaysPassword raw in
    let other : false ≡ true → SaysPassword raw = λ h. absurd (false≢true h) in
    if_cases P (contains lower "needs a password" raw) (λ e h. inl e)
      (λ e1.
        if_cases P (contains lower "authentication failed" raw) (λ e h. inr e)
          (λ e2. if_both P (contains same "Apple Remote Desktop" raw) other (
            if_both P
              (contains_any lower
                ("no supported authentication method" ∷ "not supported" ∷ "not a vnc server" ∷ [])
                raw)
              other
              (if_both P
                (contains_any lower
                  ("closed the connection during the handshake" ∷ "refused the connection" ∷ [])
                  raw)
                other
                (if_both P
                  (contains_any lower
                    ("econnreset" ∷ "epipe" ∷ "connection closed" ∷ "connection closed" ∷ []) raw)
                  other other)))))

-- The explanation keeps what was said if none of its cases is about the network.
explained_terminal :
    (raw : String) (c : Target)
    → contains same "ECONNREFUSED" raw ≡ false
    → contains_any same ("ENOTFOUND" ∷ "EAI_AGAIN" ∷ []) raw ≡ false
    → contains_any same ("EHOSTUNREACH" ∷ "ENETUNREACH" ∷ []) raw ≡ false
    → contains_any same ("ETIMEDOUT" ∷ "No response from" ∷ []) raw ≡ false
    → SaysPassword raw
    → is_terminal (explain_vnc_error raw c) ≡ true
unfolding explain_vnc_error
explained_terminal raw c e1 e2 e3 e4 h =
    let P : String → Type 0 = λ s. is_terminal s ≡ true in
    if_cases P (contains same "ECONNREFUSED" raw) (λ e. absurd (false≢true (sym e1 ∙ e)))
      (λ x1.
        if_cases P (contains_any same ("ENOTFOUND" ∷ "EAI_AGAIN" ∷ []) raw)
          (λ e. absurd (false≢true (sym e2 ∙ e)))
          (λ x2.
            if_cases P (contains_any same ("EHOSTUNREACH" ∷ "ENETUNREACH" ∷ []) raw)
              (λ e. absurd (false≢true (sym e3 ∙ e)))
              (λ x3.
                if_cases P (contains_any same ("ETIMEDOUT" ∷ "No response from" ∷ []) raw)
                  (λ e. absurd (false≢true (sym e4 ∙ e)))
                  (λ x4.
                    if_both P
                      (contains_then "No supported authentication method" "Apple Remote Desktop"
                        raw)
                      (says_terminal (raw ++ mac_hint) (says-append raw mac_hint h))
                      (says_terminal raw h)))))

-- What is classified as a missing or a wrong password is explained by a text that ends the retries.
pub password-is_terminal :
    (raw : String) (c : Target)
    → is_password (classify_vnc_error raw c).category ≡ true
    → is_terminal (explain_vnc_error raw c) ≡ true
unfolding classify_vnc_error contains_any
password-is_terminal raw c =
    let P : FriendlyError → Type 0 =
      λ f. is_password f.category ≡ true → is_terminal (explain_vnc_error raw c) ≡ true in
    let other : false ≡ true → is_terminal (explain_vnc_error raw c) ≡ true =
      λ h. absurd (false≢true h) in
    if_cases P (contains_any same ("ENOTFOUND" ∷ "EAI_AGAIN" ∷ "could not be found" ∷ []) raw)
      (λ e. other)
      (λ e1.
        if_cases P
          (contains_any same ("EHOSTUNREACH" ∷ "ENETUNREACH" ∷ "cannot be reached" ∷ []) raw)
          (λ e. other)
          (λ e2.
            if_cases P (contains_any same ("ECONNREFUSED" ∷ "Nothing is accepting" ∷ []) raw)
              (λ e. other)
              (λ e3.
                if_cases P
                  (contains_any same ("ETIMEDOUT" ∷ "No response from" ∷ "did not respond" ∷ [])
                    raw)
                  (λ e. other)
                  (λ e4 h.
                    explained_terminal raw c
                      (or_false (contains same "ECONNREFUSED" raw)
                        (contains_any same ("Nothing is accepting" ∷ []) raw) e3).0
                      (contains_any-append same ("ENOTFOUND" ∷ "EAI_AGAIN" ∷ [])
                        ("could not be found" ∷ []) raw e1)
                      (contains_any-append same ("EHOSTUNREACH" ∷ "ENETUNREACH" ∷ [])
                        ("cannot be reached" ∷ []) raw e2)
                      (contains_any-append same ("ETIMEDOUT" ∷ "No response from" ∷ [])
                        ("did not respond" ∷ []) raw e4)
                      (security_password raw c h)))))
