-- ===== src/Exec/Tolerance.antt =====
-- Rules for an exception handler that lets some errors pass, and for postconditions that read the
-- exception.
use manila_weka_driver.Prelude.{◌≡◌, refl, Bool, true, false, if◌then◌else◌}
use manila_weka_driver.Exceptions.{Exc}
use manila_weka_driver.Exec.{
  Result, ok, err, Exec, pure, raise, lift, handled, continue, catching_if, ◌>>=◌, ◌>>◌,
}
use manila_weka_driver.Exec.Rules.{Ends, Meets}

-- Nothing is asked of the state.
abbrev pub Anything : {S : Type 0} → S → Type 0
Anything s = Unit {0}

-- What holds after a call, by how it ended, the exception included.
abbrev pub Ended : {S A : Type 0} → (A → S → Type 0) → (Exc → S → Type 0) → Result A × S → Type 0
Ended Q R (ok a, s) = Q a s
Ended Q R (err e, s) = R e s

module _ {S A : Type 0} where
  pub Ended-map :
      (Q Q' : A → S → Type 0) (R R' : Exc → S → Type 0) (r : Result A × S)
      → ((a : A) (s : S) → Q a s → Q' a s)
      → ((e : Exc) (s : S) → R e s → R' e s)
      → Ended Q R r
      → Ended Q' R' r
  Ended-map Q Q' R R' (ok a, s) f g h = f a s h
  Ended-map Q Q' R R' (err e, s) f g h = g e s h

  -- What follows from both ends holds of the state.
  pub kept_Ended :
      (Q : A → S → Type 0) (R : Exc → S → Type 0) (P : S → Type 0) (r : Result A × S)
      → ((a : A) (s : S) → Q a s → P s)
      → ((e : Exc) (s : S) → R e s → P s)
      → Ended Q R r
      → P r.1
  kept_Ended Q R P (ok a, s) f g h = f a s h
  kept_Ended Q R P (err e, s) f g h = g e s h

  pub Ends-into :
      (Q Q' : A → S → Type 0) (R : S → Type 0) (r : Result A × S)
      → ((a : A) (s : S) → Q a s → Q' a s)
      → Ends Q R r
      → Ends Q' (λ _. Unit {0}) r
  Ends-into Q Q' R (ok a, s) f h = f a s h
  Ends-into Q Q' R (err e, s) f h = tt

  -- What holds where an action returned.
  pub Ends-at :
      (Q : A → S → Type 0) (R : S → Type 0) (r : Result A × S) (a : A) (s : S)
      → Ends Q R r
      → r ≡ (ok a, s)
      → Q a s
  Ends-at Q R r a s h e = rw e at h

-- `try: m except C: …` where some of the errors are let pass: what `m` promises, for those errors
-- too, holds where the whole returns.
module _ {S A : Type 0} (Q : S → Type 0) (a : A) (is_kind tolerated : Exc → Bool) where
  let_pass :
      (k t : Bool) (e : Exc) (s : S)
      → (t ≡ true → Q s)
      → Ends (λ _. Q) (λ _. Unit {0}) ((if k then (if t then pure a else raise e) else raise e) s)
  unfolding pure raise
  let_pass true true e s h = h refl
  let_pass true false e s h = tt
  let_pass false t e s h = tt

module _ {S A B : Type 0} (Q : S → Type 0) (a : A) (is_kind tolerated : Exc → Bool) where
  tolerate_after :
      (r : Result B × S)
      → Ended (λ _. Q) (λ e s. tolerated e ≡ true → Q s) r
      → Ends
          (λ _. Q)
          (λ _. Unit {0})
          (handled
            (continue r (λ _. pure a))
            (λ e. if is_kind e then (if tolerated e then pure a else raise e) else raise e))
  unfolding pure
  tolerate_after (ok b, s) h = h
  tolerate_after (err e, s) h = let_pass Q a is_kind tolerated (is_kind e) (tolerated e) e s h

  pub tolerate :
      (m : Exec S B) (s : S)
      → Ended (λ _. Q) (λ e s'. tolerated e ≡ true → Q s') (m s)
      → Ends
          (λ _. Q)
          (λ _. Unit {0})
          (catching_if is_kind (m >> pure a) (λ e. if tolerated e then pure a else raise e) s)
  unfolding ◌>>=◌
  tolerate m s h = tolerate_after (m s) h

module _ {S : Type 0} (Q : S → Type 0) (c : Exc → Bool) where
  let_go :
      (k : Bool) (e : Exc) (s : S)
      → (k ≡ true → Q s)
      → Ends (λ _. Q) (λ _. Unit {0}) ((if k then pure tt else raise {A = Unit {0}} e) s)
  unfolding pure raise
  let_go true e s h = h refl
  let_go false e s h = tt

module _ {S B : Type 0} (Q : S → Type 0) (c : Exc → Bool) where
  ignore_after :
      (r : Result B × S)
      → Ended (λ _. Q) (λ e s. c e ≡ true → Q s) r
      → Ends
          (λ _. Q)
          (λ _. Unit {0})
          (handled (continue r (λ _. pure tt)) (λ e. if c e then pure tt else raise e))
  unfolding pure
  ignore_after (ok b, s) h = h
  ignore_after (err e, s) h = let_go Q c (c e) e s h

  pub ignore :
      (m : Exec S B) (s : S)
      → Ended (λ _. Q) (λ e s'. c e ≡ true → Q s') (m s)
      → Ends (λ _. Q) (λ _. Unit {0}) (catching_if c (m >> pure tt) (λ e. pure tt) s)
  unfolding ◌>>=◌
  ignore m s h = ignore_after (m s) h

module _ {S A B : Type 0} where
  -- A pure step that may raise, where nothing is asked of the state after a raise.
  pub Meets-lift-then :
      {P : S → Type 0} {Q : B → S → Type 0} (r : Result A) (f : A → Exec S B)
      → ((a : A) → r ≡ ok a → Meets P (f a) Q (λ _. Unit {0}))
      → Meets P (lift r >>= f) Q (λ _. Unit {0})
  unfolding ◌>>=◌
  Meets-lift-then (ok a) f h = record { at = (h a refl).at }
  Meets-lift-then (err e) f h = record { at = λ s p. tt }

module _ {S A : Type 0} where
  -- A pure step at the end.
  pub Meets-lift-into :
      {P : S → Type 0} {Q : A → S → Type 0} (r : Result A)
      → ((a : A) → r ≡ ok a → (s : S) → P s → Q a s)
      → Meets P (lift r) Q (λ _. Unit {0})
  unfolding lift
  Meets-lift-into (ok a) h = record { at = h a refl }
  Meets-lift-into (err e) h = record { at = λ s p. tt }

  pub Meets-forget :
      {P : S → Type 0} {Q : A → S → Type 0} {R : S → Type 0} (m : Exec S A)
      → Meets P m Q R
      → Meets P m Q (λ _. Unit {0})
  Meets-forget {Q} {R} m h = record { at = λ s p. Ends-into Q Q R (m s) (λ a s' q. q) (h.at s p) }
