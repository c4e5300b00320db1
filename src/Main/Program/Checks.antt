-- ===== src/Main/Program/Checks.antt =====
-- The steps of `main` (muditm.c) before a client is served: what they have made sure of.
use mudit_m.Base.{
  ℤ, negsuc, pos, ℕ, zero, suc, ◌≡◌, ◌≢◌, refl, ap, Bool, true, false, Option, none, some, List, [],
  ◌∷◌, Bool-cases, inl, inr, ◌==◌, arith,
}
use mudit_m.Posix.{ReadEvent}
use mudit_m.Run.{Stops, Stops-bind, Stops-weaken}
use mudit_m.Debug.{muditm_log_init}
use mudit_m.Certcheck.{
  Expiry, Outcome, quiet, fatal, warned, outcome_of, check_cert_expiry, cert_days_remaining,
}
use mudit_m.Endpoint.Reads.{Settles}
use mudit_m.Main.{Settings, uses_ssl}
use mudit_m.Main.Connect.{Listening, new_mommie, require, open_socket}
use mudit_m.Main.Program.{unless_fatal, check_certificate}

-- Every call of `new_mommie` went well.
pub record IsOpen (l : Listening) (mother_sock : ℕ) : Type 0 where
  pub socket : l.socket ≡ some mother_sock
  pub reuseaddr : l.reuseaddr_set ≡ true
  pub linger : l.linger_set ≡ true
  pub bound : l.bound ≡ true
  pub listening : l.listens ≡ true

require-Stops : (b : Bool) → Stops (λ d. b ≡ true) (require b)
require-Stops true = refl
require-Stops false = tt

open_socket-Stops : (socket : Option ℕ) → Stops (λ s. socket ≡ some s) (open_socket socket)
open_socket-Stops none = tt
open_socket-Stops (some s) = refl

pub new_mommie-IsOpen : (l : Listening) → Stops (IsOpen l) (new_mommie l)
unfolding new_mommie
new_mommie-IsOpen l =
    Stops-bind (λ s. l.socket ≡ some s) _ (open_socket l.socket) _ (open_socket-Stops l.socket)
      (λ s e.
        Stops-bind (λ d. l.reuseaddr_set ≡ true) _ (require l.reuseaddr_set) _
          (require-Stops l.reuseaddr_set)
          (λ d1 r.
            Stops-bind (λ d. l.linger_set ≡ true) _ (require l.linger_set) _
              (require-Stops l.linger_set)
              (λ d2 g.
                Stops-bind (λ d. l.bound ≡ true) _ (require l.bound) _ (require-Stops l.bound)
                  (λ d3 b.
                    Stops-bind (λ d. l.listens ≡ true) _ (require l.listens) _
                      (require-Stops l.listens)
                      (λ d4 n. record {
                        socket = e;
                        reuseaddr = r;
                        linger = g;
                        bound = b;
                        listening = n;
                      })))))

unless_fatal-Stops : (P : Type 0) (o : Outcome) → P → Stops (λ d. P) (unless_fatal o)
unless_fatal-Stops P quiet h = h
unless_fatal-Stops P (fatal notice) h = tt
unless_fatal-Stops P (warned notice) h = h

magnitude : ℤ → ℕ
magnitude (pos n) = 0
magnitude (negsuc n) = suc n

-- The number of an expired certificate ends the program.
days-Stops : (days : ℤ) → Stops (λ d. days ≢ negsuc 1) (unless_fatal (outcome_of days))
unfolding magnitude
days-Stops (negsuc zero) = λ e. let k = ap magnitude e in absurd (omega (arith, k))
days-Stops (negsuc (suc n)) = elim (Bool-cases (n == 0)) [
  | inl expired ↦ rw expired tt
  | inr other ↦ rw other (λ e. let k = ap magnitude e in absurd (ground (arith, k, other)))
]
days-Stops (pos n) =
    unless_fatal-Stops (pos n ≢ negsuc 1) (outcome_of (pos n))
      (λ e. let k = ap magnitude e in absurd (omega (arith, k)))

-- The certificate has not expired, if one is needed.
abbrev pub IsCertified : Settings → Expiry → Type 0
IsCertified s expiry = uses_ssl s ≡ true → cert_days_remaining expiry ≢ negsuc 1

pub check_certificate-Stops :
    (needed : Bool) (expiry : Expiry)
    → Stops
        (λ d. needed ≡ true → cert_days_remaining expiry ≢ negsuc 1)
        (check_certificate needed expiry)
unfolding check_cert_expiry
check_certificate-Stops false expiry = λ e. absurd (cc)
check_certificate-Stops true expiry =
    Stops-weaken (λ d. cert_days_remaining expiry ≢ negsuc 1) _
      (unless_fatal (outcome_of (cert_days_remaining expiry)))
      (days-Stops (cert_days_remaining expiry)) (λ d h e. h)

pub muditm_log_init-Stops :
    (pathname : Option (List ℕ)) (opens : Bool)
    → Stops (λ l. Unit {0}) (muditm_log_init pathname opens)
unfolding muditm_log_init
muditm_log_init-Stops none opens = tt
muditm_log_init-Stops (some []) opens = tt
muditm_log_init-Stops (some (b ∷ pathname)) true = tt
muditm_log_init-Stops (some (b ∷ pathname)) false = tt

pub Settles-any : (ssl : Bool) (script : List ReadEvent) → Settles true script → Settles ssl script
Settles-any false script h = tt
Settles-any true script h = h
