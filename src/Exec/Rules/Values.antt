-- ===== src/Exec/Rules/Values.antt =====
-- What an action returns, where it returns: one rule for each way to build an action.
use manila_weka_driver.Prelude.{Bool, true, false, if◌then◌else◌}
use manila_weka_driver.Exceptions.{Exc}
use manila_weka_driver.Exec.{
  Result, ok, err, Exec, pure, raise, lift, handled, catching, catching_if, continue, ◌>>=◌,
}

abbrev pub OnOk {ℓ κ} : {A : Type ℓ} → (A → Type κ) → Result A → Type κ
OnOk Q (ok a) = Q a
OnOk Q (err e) = Unit

module _ {S A : Type 0} where
  pub record Yields (Q : A → Type 0) (m : Exec S A) : Type 0 where
    pub at : (s : S) → OnOk Q (m s).0

module _ {S A B : Type 0} where
  yields_after :
      (Q : B → Type 0) (r : Result A × S) (f : A → Exec S B)
      → ((a : A) → Yields Q (f a))
      → OnOk Q (continue r f).0
  yields_after Q (ok a, s) f h = (h a).at s
  yields_after Q (err e, s) f h = tt

  pub Yields-bind :
      {Q : B → Type 0} (m : Exec S A) (f : A → Exec S B)
      → ((a : A) → Yields Q (f a))
      → Yields Q (m >>= f)
  unfolding ◌>>=◌
  Yields-bind {Q} m f h = record { at = λ s. yields_after Q (m s) f h }

module _ {S A : Type 0} where
  pub Yields-pure : {Q : A → Type 0} (a : A) → Q a → Yields Q (pure {S = S} a)
  unfolding pure
  Yields-pure a q = record { at = λ s. q }

  pub Yields-raise : {Q : A → Type 0} (e : Exc) → Yields Q (raise {S = S} e)
  unfolding raise
  Yields-raise e = record { at = λ s. tt }

  pub Yields-lift : {Q : A → Type 0} (r : Result A) → OnOk Q r → Yields Q (lift {S = S} r)
  unfolding lift
  Yields-lift r h = record { at = λ s. h }

  yields_handled :
      (Q : A → Type 0) (r : Result A × S) (h : Exc → Exec S A)
      → OnOk Q r.0
      → ((e : Exc) → Yields Q (h e))
      → OnOk Q (handled r h).0
  yields_handled Q (ok a, s) h q hh = q
  yields_handled Q (err e, s) h q hh = (hh e).at s

  pub Yields-catching :
      {Q : A → Type 0} (m : Exec S A) (h : Exc → Exec S A)
      → Yields Q m
      → ((e : Exc) → Yields Q (h e))
      → Yields Q (catching m h)
  unfolding catching
  Yields-catching {Q} m h hm hh = record { at = λ s. yields_handled Q (m s) h (hm.at s) hh }

  pub Yields-if :
      {Q : A → Type 0} (b : Bool) (m n : Exec S A)
      → Yields Q m
      → Yields Q n
      → Yields Q (if b then m else n)
  Yields-if true m n hm hn = hm
  Yields-if false m n hm hn = hn

  pub Yields-catching_if :
      {Q : A → Type 0} (c : Exc → Bool) (m : Exec S A) (h : Exc → Exec S A)
      → Yields Q m
      → ((e : Exc) → Yields Q (h e))
      → Yields Q (catching_if c m h)
  unfolding catching_if
  Yields-catching_if c m h hm hh =
      Yields-catching m _ hm λ e. Yields-if (c e) (h e) (raise e) (hh e) (Yields-raise e)
