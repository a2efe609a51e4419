-- ===== src/Utils.antt =====
-- utils.py: retries of a function and the log copy of parameters. A delay is a number of the unit
-- in which the caller counts time.
pub mod Retry
pub mod Secrets
use manila_weka_driver.Prelude.{
  ℕ, zero, suc, ◌*◌, String, Bool, true, false, ◌||◌, Option, none, some, List, [], ◌∷◌, any,
  nat_eq, if◌then◌else◌,
}
use manila_weka_driver.Text.{contains_folded}
use manila_weka_driver.Exceptions.{Exc, is_api_error, status_code}
use manila_weka_driver.Exec.{Exec, raise, modify, catching_if, ◌>>=◌, ◌>>◌}
use manila_weka_driver.Json.{Json, str, obj, Fields, end, field}

abbrev pub transient_codes : List ℕ
transient_codes = 429 ∷ 500 ∷ 502 ∷ 503 ∷ 504 ∷ []

-- `exc.status_code in transient_codes`, of a WekaApiError
unfoldable pub has_code : List ℕ → Exc → Bool
has_code codes e = elim (status_code e) [ none ↦ false | some c ↦ any (nat_eq c) codes ]

-- `retry_on_transient`: `left` further attempts, each after its delay.
unfoldable pub retry_on_transient :
    {S A : Type 0}
    → (sleep : ℕ → S → S) → (codes : List ℕ) → (backoff : ℕ) → (left delay : ℕ) → Exec S A
    → Exec S A
unfolding has_code
retry_on_transient sleep codes backoff zero delay m = m
retry_on_transient sleep codes backoff (suc left) delay m =
    let again = retry_on_transient sleep codes backoff left (delay * backoff) m in
    catching_if is_api_error m
      (λ e. if has_code codes e then (modify (sleep delay) >> again) else raise e)

-- `any(s in key.lower() for s in secret_keys)`
unfoldable pub is_secret : List String → String → Bool
unfolding contains_folded
is_secret secrets key = any (λ s. contains_folded s key) secrets

unfoldable pub sanitized_fields : List String → Fields → Fields
unfolding is_secret
sanitized_fields secrets end = end
sanitized_fields secrets (field k v rest) =
    field k (if is_secret secrets k then str "***" else v) (sanitized_fields secrets rest)

-- `sanitize_log_params`
unfoldable pub sanitize_log_params : List String → Json → Json
unfolding sanitized_fields
sanitize_log_params secrets (obj d) = obj (sanitized_fields secrets d)
sanitize_log_params secrets v = v

abbrev pub secret_keys : List String
secret_keys = "password" ∷ "token" ∷ "secret" ∷ []
