-- ===== src/Exec/Rules/Cleanup.antt =====
-- What holds after an action on an option, and after a `finally`.
use manila_weka_driver.Prelude.{◌≡◌, refl, Option, none, some}
use manila_weka_driver.Exec.{Result, ok, err, Exec, on_option, rethrown, finally}
use manila_weka_driver.Exec.Rules.Invariants.{Keeps}
use manila_weka_driver.Exec.Rules.Conditions.{Ends, Meets}

module _ {S A B : Type 0} where
  pub Meets-on_option :
      {P : S → Type 0} {Q : B → S → Type 0} {R : S → Type 0} (o : Option A) (m : Exec S B)
      (f : A → Exec S B)
      → Meets P m Q R
      → ((a : A) → o ≡ some a → Meets P (f a) Q R)
      → Meets P (on_option o m f) Q R
  unfolding on_option
  Meets-on_option none m f hm hf = hm
  Meets-on_option (some a) m f hm hf = hf a refl

module _ {S A : Type 0} where
  ends_rethrown :
      (V : S → Type 0) (r : Result A) (c : Result (Unit {0}) × S)
      → Ends (λ _. V) V c
      → Ends (λ _. V) V (rethrown r c)
  ends_rethrown V (ok a) (ok done, s) h = h
  ends_rethrown V (err e) (ok done, s) h = h
  ends_rethrown V r (err e, s) h = h

  -- What the cleanup makes of what the body keeps.
  pub Meets-finally :
      {U V : S → Type 0} (m : Exec S A) (c : Exec S (Unit {0}))
      → Keeps U m
      → Meets U c (λ _. V) V
      → Meets U (finally m c) (λ _. V) V
  unfolding finally
  Meets-finally {V} m c k h = record {
    at = λ s u. ends_rethrown V (m s).0 (c (m s).1) (h.at (m s).1 (k.at s u));
  }
