-- ===== src/Exec/Rules/Conditions.antt =====
-- From what holds before an action to what holds where it returns and where it raises.
use manila_weka_driver.Prelude.{◌≡◌, refl, Bool, true, false, if◌then◌else◌}
use manila_weka_driver.Exceptions.{Exc}
use manila_weka_driver.Exec.{Result, ok, err, Exec, pure, lift, handled, catching, continue, ◌>>=◌}
use manila_weka_driver.Exec.Rules.Invariants.{Keeps}

-- What holds of the state after an action, by how it ended.
abbrev pub Ends : {S A : Type 0} → (A → S → Type 0) → (S → Type 0) → Result A × S → Type 0
Ends Q R (ok a, s) = Q a s
Ends Q R (err e, s) = R s

pub record Meets {S A : Type 0} (P : S → Type 0) (m : Exec S A) (Q : A → S → Type 0)
    (R : S → Type 0) : Type 0 where
  pub at : (s : S) → P s → Ends Q R (m s)

module _ {S A B : Type 0} where
  meets_after :
      (Q : A → S → Type 0) (Q' : B → S → Type 0) (R : S → Type 0) (r : Result A × S)
      (f : A → Exec S B)
      → Ends Q R r
      → ((a : A) → Meets (Q a) (f a) Q' R)
      → Ends Q' R (continue r f)
  meets_after Q Q' R (ok a, s) f q h = (h a).at s q
  meets_after Q Q' R (err e, s) f q h = q

  pub Meets-bind :
      {P : S → Type 0} {Q : A → S → Type 0} {Q' : B → S → Type 0} {R : S → Type 0} (m : Exec S A)
      (f : A → Exec S B)
      → Meets P m Q R
      → ((a : A) → Meets (Q a) (f a) Q' R)
      → Meets P (m >>= f) Q' R
  unfolding ◌>>=◌
  Meets-bind {Q} {Q'} {R} m f hm hf = record {
    at = λ s p. meets_after Q Q' R (m s) f (hm.at s p) hf;
  }

module _ {S A : Type 0} where
  ends_keeping : (P : S → Type 0) (r : Result A × S) → P r.1 → Ends (λ _. P) P r
  ends_keeping P (ok a, s) p = p
  ends_keeping P (err e, s) p = p

  -- What is kept holds however the action ends.
  pub Meets-Keeps : {P : S → Type 0} (m : Exec S A) → Keeps P m → Meets P m (λ _. P) P
  Meets-Keeps {P} m h = record { at = λ s p. ends_keeping P (m s) (h.at s p) }

  ends_handled :
      (Q : A → S → Type 0) (R R' : S → Type 0) (r : Result A × S) (h : Exc → Exec S A)
      → Ends Q R r
      → ((e : Exc) → Meets R (h e) Q R')
      → Ends Q R' (handled r h)
  ends_handled Q R R' (ok a, s) h q hh = q
  ends_handled Q R R' (err e, s) h q hh = (hh e).at s q

  pub Meets-catching :
      {P : S → Type 0} {Q : A → S → Type 0} {R R' : S → Type 0} (m : Exec S A) (h : Exc → Exec S A)
      → Meets P m Q R
      → ((e : Exc) → Meets R (h e) Q R')
      → Meets P (catching m h) Q R'
  unfolding catching
  Meets-catching {Q} {R} {R'} m h hm hh = record {
    at = λ s p. ends_handled Q R R' (m s) h (hm.at s p) hh;
  }

  pub Meets-pure :
      {P : S → Type 0} {Q : A → S → Type 0} {R : S → Type 0} (a : A)
      → ((s : S) → P s → Q a s)
      → Meets P (pure a) Q R
  unfolding pure
  Meets-pure a q = record { at = q }

  pub Meets-if :
      {P : S → Type 0} {Q : A → S → Type 0} {R : S → Type 0} (b : Bool) (m n : Exec S A)
      → (b ≡ true → Meets P m Q R)
      → (b ≡ false → Meets P n Q R)
      → Meets P (if b then m else n) Q R
  Meets-if true m n hm hn = hm refl
  Meets-if false m n hm hn = hn refl

  ends_map :
      (Q Q' : A → S → Type 0) (R : S → Type 0) (r : Result A × S)
      → ((a : A) (s : S) → Q a s → Q' a s)
      → Ends Q R r
      → Ends Q' R r
  ends_map Q Q' R (ok a, s) f q = f a s q
  ends_map Q Q' R (err e, s) f q = q

  -- The rule of consequence; what held before may be used for what is returned.
  pub Meets-from :
      {P P' : S → Type 0} {Q Q' : A → S → Type 0} {R : S → Type 0} (m : Exec S A)
      → ((s : S) → P' s → P s × ((a : A) (s' : S) → Q a s' → Q' a s'))
      → Meets P m Q R
      → Meets P' m Q' R
  Meets-from {Q} {Q'} {R} m f h = record {
    at = λ s p. ends_map Q Q' R (m s) (f s p).1 (h.at s (f s p).0);
  }

  ends_any : (r : Result A × S) → Ends (λ _ _. Unit {0}) (λ _. Unit {0}) r
  ends_any (ok a, s) = tt
  ends_any (err e, s) = tt

  pub Meets-any : (m : Exec S A) → Meets (λ _. Unit {0}) m (λ _ _. Unit {0}) (λ _. Unit {0})
  Meets-any m = record { at = λ s _. ends_any (m s) }

  -- An action that never raises returns a value, which meets its postcondition.
  returned :
      (Q : A → S → Type 0) (r : Result A × S)
      → Ends Q (λ _. ⊥) r
      → (a : A) × (s : S) × (r ≡ (ok a, s)) × Q a s
  returned Q (ok a, s) q = (a, s, refl, q)
  returned Q (err e, s) q = absurd q

  pub Meets-returns :
      {P : S → Type 0} {Q : A → S → Type 0} (m : Exec S A) (s : S)
      → Meets P m Q (λ _. ⊥)
      → P s
      → (a : A) × (s' : S) × (m s ≡ (ok a, s')) × Q a s'
  Meets-returns {Q} m s h p = returned Q (m s) (h.at s p)

module _ {S A B : Type 0} where
  -- A pure step that may raise; what follows may use what it computed.
  pub Meets-lift-bind :
      {P : S → Type 0} {Q : B → S → Type 0} (r : Result A) (f : A → Exec S B)
      → ((a : A) → r ≡ ok a → Meets P (f a) Q P)
      → Meets P (lift r >>= f) Q P
  unfolding ◌>>=◌
  Meets-lift-bind (ok a) f h = record { at = (h a refl).at }
  Meets-lift-bind (err e) f h = record { at = λ s p. p }

  -- A step that keeps the invariant.
  pub Meets-Keeps-bind :
      {P : S → Type 0} {Q : B → S → Type 0} (m : Exec S A) (f : A → Exec S B)
      → Keeps P m
      → ((a : A) → Meets P (f a) Q P)
      → Meets P (m >>= f) Q P
  Meets-Keeps-bind m f hm hf = Meets-bind m f (Meets-Keeps m hm) hf

module _ {S A : Type 0} where
  kept : (P : S → Type 0) (r : Result A × S) → Ends (λ _. P) P r → P r.1
  kept P (ok a, s) q = q
  kept P (err e, s) q = q

  pub Keeps-Meets : {P : S → Type 0} (m : Exec S A) → Meets P m (λ _. P) P → Keeps P m
  Keeps-Meets {P} m h = record { at = λ s p. kept P (m s) (h.at s p) }

  pub Meets-lift : {P : S → Type 0} (r : Result A) → Meets P (lift r) (λ a s. (r ≡ ok a) × P s) P
  unfolding lift
  Meets-lift (ok a) = record { at = λ s p. (refl, p) }
  Meets-lift (err e) = record { at = λ s p. p }

module _ {S A : Type 0} where
  ends_and :
      (Q : A → S → Type 0) (R P : S → Type 0) (r : Result A × S)
      → Ends Q R r
      → P r.1
      → Ends (λ a s. Q a s × P s) (λ s. R s × P s) r
  ends_and Q R P (ok a, s) q p = (q, p)
  ends_and Q R P (err e, s) q p = (q, p)

  -- What is kept holds beside a postcondition.
  pub Meets-and :
      {P P' : S → Type 0} {Q : A → S → Type 0} {R : S → Type 0} (m : Exec S A)
      → Meets P m Q R
      → Keeps P' m
      → Meets (λ s. P s × P' s) m (λ a s. Q a s × P' s) (λ s. R s × P' s)
  Meets-and {P'} {Q} {R} m h k = record {
    at = λ s (p, p'). ends_and Q R P' (m s) (h.at s p) (k.at s p');
  }

  pub ends_into :
      (Q Q' : A → S → Type 0) (R R' : S → Type 0) (r : Result A × S)
      → ((a : A) (s : S) → Q a s → Q' a s)
      → ((s : S) → R s → R' s)
      → Ends Q R r
      → Ends Q' R' r
  ends_into Q Q' R R' (ok a, s) f g q = f a s q
  ends_into Q Q' R R' (err e, s) f g q = g s q

  -- The rule of consequence, on all three.
  pub Meets-weaken :
      {P P' : S → Type 0} {Q Q' : A → S → Type 0} {R R' : S → Type 0} (m : Exec S A)
      → ((s : S) → P' s → P s)
      → ((a : A) (s : S) → Q a s → Q' a s)
      → ((s : S) → R s → R' s)
      → Meets P m Q R
      → Meets P' m Q' R'
  Meets-weaken {Q} {Q'} {R} {R'} m f g k h = record {
    at = λ s p. ends_into Q Q' R R' (m s) g k (h.at s (f s p));
  }

module _ {S A : Type 0} where
  -- What an action does from one state on.
  pub Meets-starting :
      {Q : A → S → Type 0} {R : S → Type 0} (s : S) (m : Exec S A)
      → Ends Q R (m s)
      → Meets (λ x. x ≡ s) m Q R
  Meets-starting {Q} {R} s m h = record { at = λ x e. rw e h }
