-- ===== src/Exec/Rules/Counts.antt =====
-- How much an action adds to a count: one rule for each way to build an action.
use manila_weka_driver.Prelude.{ℕ, ◌+◌, ◌≤◌, Bool, true, false, arith, if◌then◌else◌}
use manila_weka_driver.Exceptions.{Exc}
use manila_weka_driver.Exec.{
  Result, ok, err, Exec, pure, raise, lift, gets, handled, catching, catching_if, continue, ◌>>=◌,
}

module _ {S A : Type 0} where
  pub record Costs (count : S → ℕ) (k : ℕ) (m : Exec S A) : Type 0 where
    pub at : (s : S) → count (m s).1 ≤ count s + k

module _ {S A B : Type 0} where
  Costs-after :
      (count : S → ℕ) (k n : ℕ) (r : Result A × S) (f : A → Exec S B)
      → ((a : A) → Costs count k (f a))
      → count r.1 ≤ n
      → count (continue r f).1 ≤ n + k
  Costs-after count k n (ok a, s) f h p = omega (arith, (h a).at s)
  Costs-after count k n (err e, s) f h p = omega arith

  pub Costs-bind :
      {count : S → ℕ} {j k : ℕ} (m : Exec S A) (f : A → Exec S B)
      → Costs count j m
      → ((a : A) → Costs count k (f a))
      → Costs count (j + k) (m >>= f)
  unfolding ◌>>=◌
  Costs-bind {count} {j} {k} m f hm hf = record {
    at = λ s. omega (arith, Costs-after count k (count s + j) (m s) f hf (hm.at s));
  }

module _ {S A : Type 0} where
  pub Costs-pure : {count : S → ℕ} (a : A) → Costs count 0 (pure a)
  unfolding pure
  Costs-pure a = record { at = λ s. omega arith }

  pub Costs-raise : {count : S → ℕ} (e : Exc) → Costs count 0 (raise {A = A} e)
  unfolding raise
  Costs-raise e = record { at = λ s. omega arith }

  pub Costs-gets : {count : S → ℕ} (f : S → A) → Costs count 0 (gets f)
  unfolding gets
  Costs-gets f = record { at = λ s. omega arith }

  pub Costs-free : {count : S → ℕ} (r : Result A) → Costs count 0 (lift r)
  unfolding lift
  Costs-free r = record { at = λ s. omega arith }

  pub Costs-weaken :
      {count : S → ℕ} (j k : ℕ) (m : Exec S A) → j ≤ k → Costs count j m → Costs count k m
  Costs-weaken j k m le h = record { at = λ s. omega (arith, h.at s) }

  Costs-handled :
      (count : S → ℕ) (k n : ℕ) (r : Result A × S) (h : Exc → Exec S A)
      → ((e : Exc) → Costs count k (h e))
      → count r.1 ≤ n
      → count (handled r h).1 ≤ n + k
  Costs-handled count k n (ok a, s) h ch p = omega arith
  Costs-handled count k n (err e, s) h ch p = omega (arith, (ch e).at s)

  pub Costs-catching :
      {count : S → ℕ} {j k : ℕ} (m : Exec S A) (h : Exc → Exec S A)
      → Costs count j m
      → ((e : Exc) → Costs count k (h e))
      → Costs count (j + k) (catching m h)
  unfolding catching
  Costs-catching {count} {j} {k} m h hm hh = record {
    at = λ s. omega (arith, Costs-handled count k (count s + j) (m s) h hh (hm.at s));
  }

  pub Costs-if :
      {count : S → ℕ} {k : ℕ} (b : Bool) (m n : Exec S A)
      → Costs count k m
      → Costs count k n
      → Costs count k (if b then m else n)
  Costs-if true m n hm hn = hm
  Costs-if false m n hm hn = hn

  pub Costs-catching_if :
      {count : S → ℕ} {j k : ℕ} (c : Exc → Bool) (m : Exec S A) (h : Exc → Exec S A)
      → Costs count j m
      → ((e : Exc) → Costs count k (h e))
      → Costs count (j + k) (catching_if c m h)
  unfolding catching_if
  Costs-catching_if {count} {j} {k} c m h hm hh = Costs-catching m _ hm λ e.
      Costs-if (c e) (h e) (raise e) (hh e)
        (Costs-weaken 0 k (raise e) (omega arith) (Costs-raise e))
