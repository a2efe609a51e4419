-- ===== src/Utils/Retry.antt =====
-- utils.py: the runs of `retry_on_transient`, by what each call of the function did.
use manila_weka_driver.Prelude.{
  ℕ, zero, suc, ◌*◌, ◌≡◌, refl, Bool, true, false, ◌&&◌, List, if◌then◌else◌,
}
use manila_weka_driver.Exceptions.{Exc, is_api_error}
use manila_weka_driver.Exec.{
  Result, ok, err, Exec, raise, modify, handled, catching_if, ◌>>=◌, ◌>>◌,
}
use manila_weka_driver.Utils.{has_code, retry_on_transient}

module _ {S A : Type 0} (sleep : ℕ → S → S) (codes : List ℕ) (backoff : ℕ) (m : Exec S A) where
  abbrev pub Again : Exc → Type 0
  Again e = (is_api_error e && has_code codes e) ≡ true

  abbrev Refused : Exc → Type 0
  Refused e = (is_api_error e && has_code codes e) ≡ false

  -- `Run left delay s r`: with `left` further attempts, the first of them after `delay`, calls from
  -- the state `s` end with `r`.
  pub data Run : ℕ → ℕ → S → Result A × S → Type 0 where
    done :
        (left delay : ℕ) (s : S) (a : A) (s' : S) → m s ≡ (ok a, s') → Run left delay s (ok a, s')
    refused :
        (left delay : ℕ) (s : S) (e : Exc) (s' : S)
        → m s ≡ (err e, s')
        → Refused e
        → Run left delay s (err e, s')
    spent :
        (left delay : ℕ) (s : S) (e : Exc) (s' : S)
        → left ≡ 0
        → m s ≡ (err e, s')
        → Run left delay s (err e, s')
    again :
        (left delay : ℕ) (s : S) (e : Exc) (s' : S) (r : Result A × S)
        → m s ≡ (err e, s')
        → Again e
        → Run left (delay * backoff) (sleep delay s') r
        → Run (suc left) delay s r

  last_call : (delay : ℕ) (s : S) (r : Result A × S) → m s ≡ r → Run zero delay s r
  last_call delay s (ok a, s') e = done zero delay s a s' e
  last_call delay s (err x, s') e = spent zero delay s x s' refl e

  after_error :
      (left delay : ℕ) (s : S) (e : Exc) (s' : S) (rest : Exec S A) (api coded : Bool)
      → m s ≡ (err e, s')
      → is_api_error e ≡ api
      → has_code codes e ≡ coded
      → Run left (delay * backoff) (sleep delay s') (rest (sleep delay s'))
      → Run (suc left) delay s (
          (if api then (if coded then (modify (sleep delay) >> rest) else raise e) else raise e) s')
  unfolding ◌>>=◌
  after_error left delay s e s' rest true true h a c run =
      again left delay s e s' _ h (rw (a, c)) run
  after_error left delay s e s' rest true false h a c run =
      refused (suc left) delay s e s' h (rw (a, c))
  after_error left delay s e s' rest false coded h a c run =
      refused (suc left) delay s e s' h (rw a)

  next_call :
      (left delay : ℕ) (s : S) (rest : Exec S A) (r : Result A × S)
      → m s ≡ r
      → ((x : S) → Run left (delay * backoff) x (rest x))
      → Run (suc left) delay s (
          handled r (λ e.
            if is_api_error e
            then (if has_code codes e then (modify (sleep delay) >> rest) else raise e)
            else raise e))
  next_call left delay s rest (ok a, s') h run = done (suc left) delay s a s' h
  next_call left delay s rest (err e, s') h run =
      after_error left delay s e s' rest _ _ h refl refl (run (sleep delay s'))

  -- Whatever the function does, `retry_on_transient` ends as one of the runs above: with the first
  -- value that a call returns, with the first exception that is no WekaApiError of a transient code,
  -- or with the exception of the last of `left + 1` calls; between two calls it sleeps, each time
  -- `backoff` times as long.
  pub retry-Run :
      (left delay : ℕ) (s : S)
      → Run left delay s (retry_on_transient sleep codes backoff left delay m s)
  unfolding retry_on_transient catching_if
  retry-Run zero delay s = last_call delay s (m s) refl
  retry-Run (suc left) delay s =
      next_call left delay s (retry_on_transient sleep codes backoff left (delay * backoff) m) (m s)
        refl (λ x. retry-Run left (delay * backoff) x)
