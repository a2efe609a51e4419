-- ===== src/Utils/Secrets.antt =====
-- utils.py: what `sanitize_log_params` hides and what it leaves.
use manila_weka_driver.Prelude.{
  ◌≡◌, String, true, Option, none, some, List, ◌==◌, eq_iff, arith, if◌then◌else◌,
}
use manila_weka_driver.Json.{Json, Fields, end, field, str, obj, lookup, get}
use manila_weka_driver.Exec.{ok}
use manila_weka_driver.Utils.{is_secret, sanitized_fields, sanitize_log_params}

abbrev pub masked : Option Json → Option Json
masked none = none
masked (some v) = some (str "***")

lookup-sanitized :
    (secrets : List String) (k : String) (d : Fields)
    → lookup k (sanitized_fields secrets d)
      ≡ (if is_secret secrets k then masked (lookup k d) else lookup k d)
unfolding lookup sanitized_fields
lookup-sanitized secrets k end = ground arith
lookup-sanitized secrets k (field j v rest) =
    ground (arith, lookup-sanitized secrets k rest, same_key secrets j k)
  where
    same_key :
        (secrets : List String) (j k : String)
        → (j == k) ≡ true
        → is_secret secrets j ≡ is_secret secrets k
    same_key secrets j k e = rw ((eq_iff j k).0 e)

-- `sanitize_log_params` keeps the keys of a dict, puts '***' for the value of each key that has a
-- secret word in it, in any case, and leaves every other value.
pub get-sanitize :
    (secrets : List String) (k : String) (d : Fields)
    → get k (sanitize_log_params secrets (obj d))
      ≡ ok (if is_secret secrets k then masked (lookup k d) else lookup k d)
unfolding get sanitize_log_params
get-sanitize secrets k d = rw (lookup-sanitized secrets k d)
