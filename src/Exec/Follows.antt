-- ===== src/Exec/Follows.antt =====
-- An action that does what another one does, where that one returns: the same loop with and without
-- the handlers of its errors.
use manila_weka_driver.Prelude.{◌≡◌, refl, ◌∙◌, Bool, true, false, if◌then◌else◌}
use manila_weka_driver.Exceptions.{Exc}
use manila_weka_driver.Exec.{Result, ok, err, Exec, catching, handled, continue, ◌>>=◌}

-- The second run ends as the first, where the first returns.
abbrev pub Agrees : {S A : Type 0} → Result A × S → Result A × S → Type 0
Agrees (ok a, s) r = r ≡ (ok a, s)
Agrees (err e, s) r = Unit {0}

pub record Follows {S A : Type 0} (m m' : Exec S A) : Type 0 where
  pub at : (s : S) → Agrees (m s) (m' s)

module _ {S A : Type 0} where
  agrees_self : (r : Result A × S) → Agrees r r
  agrees_self (ok a, s) = refl
  agrees_self (err e, s) = tt

  pub Follows-self : (m : Exec S A) → Follows m m
  Follows-self m = record { at = λ s. agrees_self (m s) }

  agrees_handled : (r : Result A × S) (h : Exc → Exec S A) → Agrees r (handled r h)
  agrees_handled (ok a, s) h = refl
  agrees_handled (err e, s) h = tt

  pub Follows-catching : (m : Exec S A) (h : Exc → Exec S A) → Follows m (catching m h)
  unfolding catching
  Follows-catching m h = record { at = λ s. agrees_handled (m s) h }

  pub Follows-if :
      (b : Bool) (m m' n n' : Exec S A)
      → Follows m m'
      → Follows n n'
      → Follows (if b then m else n) (if b then m' else n')
  Follows-if true m m' n n' h k = h
  Follows-if false m m' n n' h k = k

  agrees_at : (r r' : Result A × S) (a : A) (s : S) → Agrees r r' → r ≡ (ok a, s) → r' ≡ (ok a, s)
  agrees_at (ok b, s') r' a s h e = h ∙ e
  agrees_at (err e', s') r' a s h e = cc

  -- What the one returns, the other returns.
  pub Follows-returns :
      (m m' : Exec S A) (s s' : S) (a : A) → Follows m m' → m s ≡ (ok a, s') → m' s ≡ (ok a, s')
  Follows-returns m m' s s' a h e = agrees_at (m s) (m' s) a s' (h.at s) e

module _ {S A B : Type 0} where
  agrees_after :
      (r r' : Result A × S) (f f' : A → Exec S B)
      → Agrees r r'
      → ((a : A) → Follows (f a) (f' a))
      → Agrees (continue r f) (continue r' f')
  agrees_after (ok a, s) r' f f' e h = rw e ((h a).at s)
  agrees_after (err e', s) r' f f' e h = tt

  pub Follows-bind :
      (m m' : Exec S A) (f f' : A → Exec S B)
      → Follows m m'
      → ((a : A) → Follows (f a) (f' a))
      → Follows (m >>= f) (m' >>= f')
  unfolding ◌>>=◌
  Follows-bind m m' f f' h k = record { at = λ s. agrees_after (m s) (m' s) f f' (h.at s) k }
