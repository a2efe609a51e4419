-- ===== src/Exec/Rules/Invariants.antt =====
-- What an action keeps, whether it returns or raises: one rule for each way to build an action.
use manila_weka_driver.Prelude.{◌≡◌, refl, Option, none, some, Bool, true, false, if◌then◌else◌}
use manila_weka_driver.Exceptions.{Exc}
use manila_weka_driver.Exec.{
  Result, ok, err, Exec, pure, raise, lift, gets, handled, catching, catching_if, continue,
  on_option, ◌>>=◌,
}

module _ {S A : Type 0} where
  pub record Keeps (P : S → Type 0) (m : Exec S A) : Type 0 where
    pub at : (s : S) → P s → P (m s).1

module _ {S A B : Type 0} where
  keeps_after :
      (P : S → Type 0) (r : Result A × S) (f : A → Exec S B)
      → ((a : A) → Keeps P (f a))
      → P r.1
      → P (continue r f).1
  keeps_after P (ok a, s) f h p = (h a).at s p
  keeps_after P (err e, s) f h p = p

  pub Keeps-bind :
      {P : S → Type 0} (m : Exec S A) (f : A → Exec S B)
      → Keeps P m
      → ((a : A) → Keeps P (f a))
      → Keeps P (m >>= f)
  unfolding ◌>>=◌
  Keeps-bind {P} m f km kf = record { at = λ s p. keeps_after P (m s) f kf (km.at s p) }

module _ {S A : Type 0} where
  pub Keeps-pure : {P : S → Type 0} (a : A) → Keeps P (pure a)
  unfolding pure
  Keeps-pure a = record { at = λ s p. p }

  pub Keeps-gets : {P : S → Type 0} (f : S → A) → Keeps P (gets f)
  unfolding gets
  Keeps-gets f = record { at = λ s p. p }

  pub Keeps-raise : {P : S → Type 0} (e : Exc) → Keeps P (raise {A = A} e)
  unfolding raise
  Keeps-raise e = record { at = λ s p. p }

  keeps_handled :
      (P : S → Type 0) (r : Result A × S) (h : Exc → Exec S A)
      → ((e : Exc) → Keeps P (h e))
      → P r.1
      → P (handled r h).1
  keeps_handled P (ok a, s) h hh p = p
  keeps_handled P (err e, s) h hh p = (hh e).at s p

  pub Keeps-catching :
      {P : S → Type 0} (m : Exec S A) (h : Exc → Exec S A)
      → Keeps P m
      → ((e : Exc) → Keeps P (h e))
      → Keeps P (catching m h)
  unfolding catching
  Keeps-catching {P} m h hm hh = record { at = λ s p. keeps_handled P (m s) h hh (hm.at s p) }

  pub Keeps-lift : {P : S → Type 0} (r : Result A) → Keeps P (lift r)
  unfolding lift
  Keeps-lift r = record { at = λ s p. p }

  pub Keeps-if :
      {P : S → Type 0} (test : Bool) (ma mb : Exec S A)
      → (test ≡ true → Keeps P ma)
      → (test ≡ false → Keeps P mb)
      → Keeps P (if test then ma else mb)
  Keeps-if true ma mb ka kb = ka refl
  Keeps-if false ma mb ka kb = kb refl

  pub Keeps-catching_if :
      {P : S → Type 0} (c : Exc → Bool) (m : Exec S A) (h : Exc → Exec S A)
      → Keeps P m
      → ((e : Exc) → c e ≡ true → Keeps P (h e))
      → Keeps P (catching_if c m h)
  unfolding catching_if
  Keeps-catching_if c m h hm hh =
      Keeps-catching m _ hm λ e. Keeps-if (c e) (h e) (raise e) (hh e) (λ _. Keeps-raise e)

module _ {S A B : Type 0} where
  pub Keeps-on_option :
      {P : S → Type 0} (o : Option A) (m : Exec S B) (f : A → Exec S B)
      → (o ≡ none → Keeps P m)
      → ((a : A) → o ≡ some a → Keeps P (f a))
      → Keeps P (on_option o m f)
  unfolding on_option
  Keeps-on_option none m f hm hf = hm refl
  Keeps-on_option (some a) m f hm hf = hf a refl

pub ruleset keeps_rules = (
  Keeps-bind, Keeps-lift, Keeps-pure, Keeps-raise, Keeps-if, Keeps-catching, Keeps-catching_if,
  Keeps-on_option, Keeps-gets,
)

module _ {S A B : Type 0} where
  pub Keeps-lift-bind :
      {P : S → Type 0} (r : Result A) (f : A → Exec S B)
      → ((a : A) → r ≡ ok a → Keeps P (f a))
      → Keeps P (lift r >>= f)
  unfolding ◌>>=◌
  Keeps-lift-bind (ok a) f h = record { at = (h a refl).at }
  Keeps-lift-bind (err e) f h = record { at = λ s p. p }
