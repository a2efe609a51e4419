-- ===== src/Driver/Errors.antt =====
-- driver.py: the helpers that tell API errors apart and normalise addresses.
use manila_weka_driver.Prelude.{
  ℕ, String, Bool, true, false, ◌&&◌, ◌||◌, Option, none, some, nat_eq, if◌then◌else◌,
}
use manila_weka_driver.Text.{◌⁺⁺◌, contains, contains_folded}
use manila_weka_driver.Exceptions.{Exc, conflict, is_api_error, status_code, message, value_error}
use manila_weka_driver.Exec.{Result, ok, err}
use manila_weka_driver.Driver.{Env, Network}

-- `_is_already_attached_error`
unfoldable pub is_already_attached_error : Exc → Bool
unfolding message contains_folded
is_already_attached_error exc = is_api_error exc && contains_folded "already present" (message exc)

abbrev is_400_or_409 : Option ℕ → Bool
is_400_or_409 none = false
is_400_or_409 (some n) = nat_eq n 400 || nat_eq n 409

-- `_is_already_exists_error`
unfoldable pub is_already_exists_error : Exc → Bool
unfolding message contains_folded
is_already_exists_error (conflict reason) = true
is_already_exists_error exc =
    is_api_error exc
    && (is_400_or_409 (status_code exc)
        && (contains_folded "already exist" (message exc)
            || contains_folded "already in use" (message exc)))

-- What a re-attach may answer.
unfoldable pub is_attached_before : Exc → Bool
unfolding is_already_attached_error is_already_exists_error
is_attached_before exc = is_already_exists_error exc || is_already_attached_error exc

module _ {W : Type 0} (env : Env W) where
  -- `IPv4Network(value, strict=False)`, which raises `ValueError`
  abbrev network : String → Result Network
  network value = elim (env.ipv4_network value) [ none ↦ err (value_error value) | some n ↦ ok n ]

  -- `_cidr_to_weka_ip`
  unfoldable pub cidr_to_weka_ip : String → Result String
  unfolding contains
  cidr_to_weka_ip cidr =
      if contains "/" cidr
      then elim (network cidr) [
        | err e ↦ err e
        | ok n ↦ ok (n.network_address ⁺⁺ ("/" ⁺⁺ n.netmask))
      ]
      else ok cidr

  -- `_norm_weka_ip`
  unfoldable pub norm_weka_ip : String → String
  norm_weka_ip value = elim (env.ipv4_network value) [ none ↦ value | some n ↦ n.with_prefix ]

  -- `_policy_ip`
  unfoldable pub policy_ip : String → Result String
  unfolding contains
  policy_ip access_to =
      if contains "/" access_to
      then elim (network access_to) [ err e ↦ err e | ok n ↦ ok n.with_prefix ]
      else ok access_to
