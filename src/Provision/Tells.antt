-- ===== src/Provision/Tells.antt =====
-- Deployment steps that report their failures: the channel tells whoever watches it how a step ends.
use mathlib.Core.List.{append_assoc, append-nil}
use mathlib.Core.Path.{subst}
use cofidectl.Common.{
  ◌≡◌, ◌≢◌, refl, sym, ◌∙◌, String, Bool, true, false, some, List, [], ◌∷◌, ◌++◌, if◌then◌else◌,
  get_text, arith, test_of_ne,
}
use cofidectl.Common.Errors.{Error, Result, ok, err, panic, library}
use cofidectl.Common.Action.{Action, pure, continue, ◌>>=◌, ◌>>◌}
use cofidectl.Provision.Messages.{Status}
use cofidectl.Provision.{Sending, send, silent, reported, or_report, watch_provision_status}

-- What is watched agrees with the outcome: success for success, and an error with the text of the
-- step's error for an error.
abbrev pub Agrees : (Error → String) → {A : Type 0} → Result A → Result (Unit {0}) → Type 0
Agrees error_text (ok a) watched = watched ≡ ok tt
Agrees error_text (err e) watched = watched ≡ err (library (error_text e))
Agrees error_text panic watched = Unit

-- A step tells its outcome if the messages that it adds do.
pub record Told (error_text : Error → String) {W A : Type 0} (sent : List Status)
    (o : Result A × Sending W) : Type 0 where
  pub more : List Status
  pub grows : o.1.sent ≡ sent ++ more
  pub agrees : Agrees error_text o.0 (watch_provision_status more)

pub record Tells (error_text : Error → String) {W A : Type 0} (m : Action (Sending W) A)
    : Type 0 where
  pub at : (s : Sending W) → Told error_text s.sent (m s)

-- The watcher reads on after messages with no error.
watch-append :
    (xs ys : List Status)
    → watch_provision_status xs ≡ ok tt
    → watch_provision_status (xs ++ ys) ≡ watch_provision_status ys
unfolding watch_provision_status
watch-append [] ys h = refl
watch-append (x ∷ xs) ys h = ground (arith, watch-append xs ys)

abbrev pub IsFine : Status → Type 0
IsFine status = get_text status.error ≡ ""

module _ (error_text : Error → String) {W A : Type 0} where
  -- After messages with no error, what follows tells the outcome.
  Told-append :
      (sent xs : List Status) (o : Result A × Sending W)
      → watch_provision_status xs ≡ ok tt
      → Told error_text (sent ++ xs) o
      → Told error_text sent o
  Told-append sent xs (r, s) h t = record {
    more = xs ++ t.more;
    grows = t.grows ∙ append_assoc sent xs t.more;
    agrees = rw (watch-append xs t.more h) t.agrees;
  }

  pub Tells-pure : (a : A) → Tells error_text {W = W} (pure a)
  unfolding watch_provision_status
  Tells-pure a = record {
    at = λ s. record { more = []; grows = sym (append-nil s.sent); agrees = refl };
  }

module _ (error_text : Error → String) {W : Type 0} where
  pub Tells-send : (status : Status) → IsFine status → Tells error_text {W = W} (send status)
  unfolding watch_provision_status send
  Tells-send status fine = record {
    at = λ s. record { more = status ∷ []; grows = refl; agrees = rw fine refl };
  }

module _ (error_text : Error → String) (named : (e : Error) → error_text e ≢ "")
    {W A : Type 0} where
  pub Tells-or_report :
      (status : Error → Status) (m : Action W A)
      → ((e : Error) → (status e).error ≡ some (error_text e))
      → Tells error_text (or_report status m)
  unfolding watch_provision_status or_report
  Tells-or_report status m h = record { at = λ s. go s.sent (m s.world).0 (m s.world).1 }
    where
      go :
          (sent : List Status) (r : Result A) (w : W)
          → Told error_text sent (reported status sent r w)
      go sent (ok a) w = record { more = []; grows = sym (append-nil sent); agrees = refl }
      go sent (err e) w = record {
        more = status e ∷ [];
        grows = refl;
        agrees = rw (h e, test_of_ne (error_text e) "" (named e)) refl;
      }
      go sent panic w = record { more = []; grows = sym (append-nil sent); agrees = tt }

module _ (error_text : Error → String) {W A B : Type 0} where
  continue-Told :
      (sent : List Status) (r : Result A) (s : Sending W) (f : A → Action (Sending W) B)
      → Told error_text sent (r, s)
      → ((a : A) → Tells error_text (f a))
      → Told error_text sent (continue r f s)
  continue-Told sent (ok a) s f t h =
      Told-append error_text sent t.more (f a s) t.agrees
        (subst (λ (x : List Status). Told error_text x (f a s)) t.grows ((h a).at s))
  continue-Told sent (err e) s f t h = record { more = t.more; grows = t.grows; agrees = t.agrees }
  continue-Told sent panic s f t h = record { more = t.more; grows = t.grows; agrees = tt }

  pub Tells-bind :
      (m : Action (Sending W) A) (f : A → Action (Sending W) B)
      → Tells error_text m
      → ((a : A) → Tells error_text (f a))
      → Tells error_text (m >>= f)
  Tells-bind m f t h = record { at = λ s. continue-Told s.sent (m s).0 (m s).1 f (t.at s) h }

  pub Tells-then :
      (m : Action (Sending W) A) (k : Action (Sending W) B)
      → Tells error_text m
      → Tells error_text k
      → Tells error_text (m >> k)
  Tells-then m k s t = Tells-bind m (λ _. k) s (λ _. t)

module _ (error_text : Error → String) {W A : Type 0} where
  pub Tells-if :
      (b : Bool) (m k : Action (Sending W) A)
      → Tells error_text m
      → Tells error_text k
      → Tells error_text (if b then m else k)
  Tells-if true m k s t = s
  Tells-if false m k s t = t

module _ (error_text : Error → String) (named : (e : Error) → error_text e ≢ "")
    {W A B : Type 0} where
  -- What follows a reported step is only reached with a value of the step.
  pub Tells-report_bind :
      (status : Error → Status) (m : Action W A) (f : A → Action (Sending W) B)
      → ((e : Error) → (status e).error ≡ some (error_text e))
      → ((w : W) (a : A) → (m w).0 ≡ ok a → Tells error_text (f a))
      → Tells error_text (or_report status m >>= f)
  unfolding watch_provision_status or_report
  Tells-report_bind status m f h k = record {
    at = λ s. go s.sent (m s.world).0 (m s.world).1 (k s.world);
  }
    where
      go :
          (sent : List Status) (r : Result A) (w : W)
          → ((a : A) → r ≡ ok a → Tells error_text (f a))
          → Told error_text sent
              (continue (reported status sent r w).0 f (reported status sent r w).1)
      go sent (ok a) w k = (k a refl).at (record { sent = sent; world = w })
      go sent (err e) w k = record {
        more = status e ∷ [];
        grows = refl;
        agrees = rw (h e, test_of_ne (error_text e) "" (named e)) refl;
      }
      go sent panic w k = record { more = []; grows = sym (append-nil sent); agrees = tt }

module _ (error_text : Error → String) {W A : Type 0} where
  -- A step that never fails need not report.
  pub Tells-silent :
      (m : Action W A) → ((w : W) (e : Error) → (m w).0 ≢ err e) → Tells error_text (silent m)
  unfolding watch_provision_status
  Tells-silent m h = record { at = λ s. go s.sent (m s.world).0 (m s.world).1 (h s.world) }
    where
      go :
          (sent : List Status) (r : Result A) (w : W)
          → ((e : Error) → r ≢ err e)
          → Told error_text sent (r, record { sent = sent; world = w })
      go sent (ok a) w k = record { more = []; grows = sym (append-nil sent); agrees = refl }
      go sent (err e) w k = elim (k e refl) [ ]
      go sent panic w k = record { more = []; grows = sym (append-nil sent); agrees = tt }
