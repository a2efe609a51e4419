-- ===== src/Exec.antt =====
-- Methods that mutate an object and may raise: what was written before a raise stays written, so
-- the state comes back beside the error too. `catching` is `try: m except C: handler`.
pub mod Rules
pub mod Tolerance
pub mod Follows
use manila_weka_driver.Prelude.{Bool, true, false, Option, none, some, if◌then◌else◌}
use manila_weka_driver.Exceptions.{Exc}

pub data Result {ℓ} (A : Type ℓ) : Type ℓ where
  ok : A → Result A
  err : Exc → Result A

abbrev pub Exec {ℓ} : Type ℓ → Type ℓ → Type ℓ
Exec S A = S → Result A × S

abbrev pub handled {ℓ} : {S A : Type ℓ} → Result A × S → (Exc → Exec S A) → Result A × S
handled (ok a, s) h = (ok a, s)
handled (err e, s) h = h e s

abbrev pub continue {ℓ} : {S A B : Type ℓ} → Result A × S → (A → Exec S B) → Result B × S
continue (ok a, s) f = f a s
continue (err e, s) f = (err e, s)

module _ {ℓ} {S A : Type ℓ} where
  unfoldable pub pure : A → Exec S A
  pure a s = (ok a, s)

  unfoldable pub raise : Exc → Exec S A
  raise e s = (err e, s)

  unfoldable pub lift : Result A → Exec S A
  lift r s = (r, s)

  unfoldable pub gets : (S → A) → Exec S A
  gets f s = (ok (f s), s)

  -- `try: m except Exception as e: h(e)`
  unfoldable pub catching : Exec S A → (Exc → Exec S A) → Exec S A
  catching m h s = handled (m s) h

  -- `try: m except C: h()`, for the exceptions of a class; others go on.
  unfoldable pub catching_if : (Exc → Bool) → Exec S A → (Exc → Exec S A) → Exec S A
  unfolding catching raise
  catching_if c m h = catching m (λ e. if c e then h e else raise e)

abbrev pub rethrown {ℓ} : {S A : Type ℓ} → Result A → Result (Unit {ℓ}) × S → Result A × S
rethrown r (ok done, s) = (r, s)
rethrown r (err e, s) = (err e, s)

-- `try: m finally: c`; what `c` raises takes the place of what `m` did.
unfoldable pub finally {ℓ} : {S A : Type ℓ} → Exec S A → Exec S (Unit {ℓ}) → Exec S A
finally m c s = let (r, s') = m s in rethrown r (c s')

unfoldable pub modify {ℓ} : {S : Type ℓ} → (S → S) → Exec S (Unit {ℓ})
modify f s = (ok tt, f s)

module _ {ℓ} {S A B : Type ℓ} where
  -- `m` where a value is None, `f` at the value otherwise.
  unfoldable pub on_option : Option A → Exec S B → (A → Exec S B) → Exec S B
  on_option none m f = m
  on_option (some a) m f = f a

module _ {ℓ} {S A B : Type ℓ} where
  infixl 5 ◌>>=◌ ◌>>◌
  -- Opening this opens the actions above.
  unfoldable pub ◌>>=◌ : Exec S A → (A → Exec S B) → Exec S B
  unfolding pure raise lift gets modify catching catching_if finally on_option
  ◌>>=◌ m f s = continue (m s) f

  abbrev pub ◌>>◌ : Exec S A → Exec S B → Exec S B
  m >> n = m >>= λ _. n
