-- ===== src/Handshake/Attempts.antt =====
-- What `confirm` has checked when it takes a viewer, and what becomes of the attempt at a code.
use hop_desk.Bytes.{Bytes}
use hop_desk.Keys.{Primitives}
use hop_desk.Keys.Identity.{verify}
use hop_desk.Handshake.{ConfirmMessage, Outcome, viewer_label, b64}
use hop_desk.Handshake.Outcome.{rejects, accepts, raises}
use hop_desk.Handshake.Host.{HostAuthenticator, AuthenticatedViewer, Pending, settle_attempt}
use hop_desk.Handshake.Confirm.{
  confirm, abandon, confirms, root_with, viewer_body, with_confirmation, with_signature,
  viewer_with,
}
use hop_desk.Common.{
  Option, false, if_cases, none, refl, some, true, ℕ, ◌≡◌, List, [], ap, if_true, subst, ◌∙◌, ◌∷◌,
  false≢true, sym,
}

-- A property of the host and the viewer, where a viewer is taken, and one of the host, where none is.
abbrev Taken :
    (HostAuthenticator → AuthenticatedViewer → Type 0)
    → (HostAuthenticator → Type 0)
    → HostAuthenticator × Outcome AuthenticatedViewer
    → Type 0
Taken P Q (h, accepts v) = P h v
Taken P Q (h, rejects e) = Q h
Taken P Q (h, raises) = Unit

-- What stands of a viewer that is taken; `after` is the host then.
pub record IsProven (p : Primitives) (h : HostAuthenticator) (s : Pending)
    (message : ConfirmMessage) (t t' : ℕ) (after : HostAuthenticator) (viewer : AuthenticatedViewer)
    : Type 0 where
  pub mac : Bytes
  pub signature : Bytes
  pub reads_mac : b64 p message.confirm ≡ some mac
  pub knows_secret : confirms s.proof mac ≡ true
  pub reads_signature : b64 p message.signature ≡ some signature
  pub owns_key : verify p s.viewer_key viewer_label (viewer_body p s.proof mac) signature ≡ true
  pub has_root : root_with p s.proof mac ≡ some viewer.root
  pub same_key : viewer.viewer_key ≡ s.viewer_key
  pub same_id : viewer.viewer_id ≡ s.hello.viewer_id
  pub same_auth : viewer.auth ≡ s.hello.auth
  pub succeeds : after ≡ settle_attempt h s.attempt true t t'

module _ (p : Primitives) (h : HostAuthenticator) (s : Pending) (message : ConfirmMessage)
    (t t' : ℕ) where
  abbrev Proven : HostAuthenticator × Outcome AuthenticatedViewer → Type 0
  Proven =
      Taken (IsProven p h s message t t') (λ after. after ≡ settle_attempt h s.attempt false t t')

  root-Proven :
      (mac signature : Bytes)
      → b64 p message.confirm ≡ some mac
      → confirms s.proof mac ≡ true
      → b64 p message.signature ≡ some signature
      → verify p s.viewer_key viewer_label (viewer_body p s.proof mac) signature ≡ true
      → (o : Option Bytes) → root_with p s.proof mac ≡ o
      → Proven (settle_attempt h s.attempt true t t', viewer_with s o)
  root-Proven mac signature m k g v none e = tt
  root-Proven mac signature m k g v (some root) e = record {
    mac = mac;
    signature = signature;
    reads_mac = m;
    knows_secret = k;
    reads_signature = g;
    owns_key = v;
    has_root = e;
    same_key = refl;
    same_id = refl;
    same_auth = refl;
    succeeds = refl;
  }

  signature-Proven :
      (mac : Bytes)
      → b64 p message.confirm ≡ some mac
      → confirms s.proof mac ≡ true
      → (o : Option Bytes) → b64 p message.signature ≡ o
      → Proven (with_signature p h s mac t t' o)
  signature-Proven mac m k none e = tt
  signature-Proven mac m k (some signature) e =
      if_cases Proven (verify p s.viewer_key viewer_label (viewer_body p s.proof mac) signature)
        (λ v. root-Proven mac signature m k e v _ refl) (λ v. refl)

  mac-Proven :
      (o : Option Bytes)
      → b64 p message.confirm ≡ o
      → Proven (with_confirmation p h s message t t' o)
  mac-Proven none e = tt
  mac-Proven (some mac) e =
      if_cases Proven (confirms s.proof mac) (λ k. signature-Proven mac e k _ refl) (λ k. refl)

  abbrev tried : HostAuthenticator × Outcome AuthenticatedViewer
  tried = with_confirmation p h s message t t' (b64 p message.confirm)

  proven : Proven tried
  proven = mac-Proven _ refl

  -- A viewer is taken only by the first call on a pending handshake, when the confirmation is the
  -- one due for the secret and the signature over the whole handshake is by the viewer's key; it
  -- gets that key, the name and the kind of the hello and the root of the handshake, and the
  -- attempt at the code, if there was one, has succeeded.
  pub confirm-IsProven :
      (viewer : AuthenticatedViewer)
      → (confirm p h s message t t').2 ≡ accepts viewer
      → (s.done ≡ false) × IsProven p h s message t t' (confirm p h s message t t').0 viewer
  unfolding confirm
  confirm-IsProven viewer =
      if_cases
        (λ (r : HostAuthenticator × Pending × Outcome AuthenticatedViewer).
          r.2 ≡ accepts viewer → (s.done ≡ false) × IsProven p h s message t t' r.0 viewer)
        s.done (λ d e. cc)
        (λ d e. (d, subst (λ (o : Outcome AuthenticatedViewer). Proven (tried.0, o)) e proven))

-- A use of a pending handshake.
pub data Use : Type 0 where
  confirms_with : ConfirmMessage → (t t' : ℕ) → Use
  abandons : (t t' : ℕ) → Use

module _ (p : Primitives) where
  abbrev pub use_once : HostAuthenticator × Pending → Use → HostAuthenticator × Pending
  use_once (h, s) (confirms_with message t t') = let r = confirm p h s message t t' in (r.0, r.1)
  use_once (h, s) (abandons t t') = abandon h s t t'

  unfoldable pub use_all : HostAuthenticator × Pending → List Use → HostAuthenticator × Pending
  use_all x [] = x
  use_all x (u ∷ us) = use_all (use_once x u) us

  use_once-done :
      (h : HostAuthenticator) (s : Pending) (u : Use) → s.done ≡ true → use_once (h, s) u ≡ (h, s)
  unfolding confirm abandon
  use_once-done h s (confirms_with message t t') d =
      if_cases
        (λ (r : HostAuthenticator × Pending × Outcome AuthenticatedViewer).
          ◌≡◌ {A = HostAuthenticator × Pending} (r.0, r.1) (h, s))
        s.done (λ e. refl) (λ e. absurd (false≢true (sym e ∙ d)))
  use_once-done h s (abandons t t') d = if_true s.done _ _ d

  pub use_once-done_after :
      (x : HostAuthenticator × Pending) (u : Use) → (use_once x u).1.done ≡ true
  unfolding confirm abandon
  use_once-done_after (h, s) (confirms_with message t t') =
      if_cases (λ (r : HostAuthenticator × Pending × Outcome AuthenticatedViewer). r.1.done ≡ true)
        s.done (λ d. d) (λ d. refl)
  use_once-done_after (h, s) (abandons t t') =
      if_cases (λ (r : HostAuthenticator × Pending). r.1.done ≡ true) s.done (λ d. d) (λ d. refl)

  use_all-done :
      (us : List Use) (h : HostAuthenticator) (s : Pending)
      → s.done ≡ true
      → use_all (h, s) us ≡ (h, s)
  unfolding use_all
  use_all-done [] h s d = refl
  use_all-done (u ∷ us) h s d =
      ap (λ x. use_all x us) (use_once-done h s u d) ∙ use_all-done us h s d

  -- Only the first use of a pending handshake counts, whether it confirms or abandons and whatever
  -- comes of it: the uses after it change neither the host, its limiter included, nor the pending
  -- handshake, so an attempt at a code is settled once at most.
  pub use_all-first :
      (x : HostAuthenticator × Pending) (u : Use) (us : List Use)
      → use_all x (u ∷ us) ≡ use_once x u
  unfolding use_all
  use_all-first x u us = use_all-done us (use_once x u).0 (use_once x u).1 (use_once-done_after x u)
