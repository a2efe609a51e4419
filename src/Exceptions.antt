-- ===== src/Exceptions.antt =====
-- exceptions.py, and the exceptions of Manila, oslo, requests and Python that the driver raises or
-- tells apart. A REST error keeps the status and the reason that the driver reads; of the others
-- the model keeps the class and the value that the message is about, not the wording.
use manila_weka_driver.Prelude.{ℕ, suc, zero, String, Bool, true, false, Option, none, some}
use manila_weka_driver.Text.{◌⁺⁺◌, show_ℕ}

pub data Exc : Type 0 where
  api_error : Option ℕ → String → Exc
  auth_error not_found filesystem_not_found conflict rate_limited : String → Exc
  capacity_error mount_error unmount_error configuration_error org_error : String → Exc
  share_not_found snapshot_not_found shrinking_data_loss : String → Exc
  invalid_share manage_invalid_share share_backend invalid_access manila_error invalid_input :
      String → Exc
  connection_error timed_out process_error os_error value_error : String → Exc
  key_error attribute_error type_error : String → Exc

-- `isinstance(exc, WekaApiError)`
abbrev pub is_api_error : Exc → Bool
is_api_error (api_error code reason) = true
is_api_error (auth_error reason) = true
is_api_error (not_found reason) = true
is_api_error (filesystem_not_found reason) = true
is_api_error (conflict reason) = true
is_api_error (rate_limited reason) = true
is_api_error _ = false

-- `isinstance(exc, WekaNotFound)`
abbrev pub is_not_found : Exc → Bool
is_not_found (not_found reason) = true
is_not_found (filesystem_not_found reason) = true
is_not_found _ = false

-- `exc.status_code`, which the subclasses set to their own code
abbrev pub status_code : Exc → Option ℕ
status_code (api_error code reason) = code
status_code (auth_error reason) = some 401
status_code (not_found reason) = some 404
status_code (filesystem_not_found reason) = some 404
status_code (conflict reason) = some 409
status_code (rate_limited reason) = some 429
status_code _ = none

status_text : Option ℕ → String
status_text none = "unknown"
status_text (some zero) = "unknown"
status_text (some (suc n)) = show_ℕ (suc n)

or_default : String → String → String
or_default String.[] other = other
or_default reason other = reason

-- `str(exc)`: the class's `message` filled in.
unfoldable pub message : Exc → String
unfolding status_text or_default
message (api_error code reason) =
    "Weka API error " ⁺⁺ (status_text code ⁺⁺ (": " ⁺⁺ or_default reason "unknown error"))
message (auth_error reason) =
    "Weka authentication failed: " ⁺⁺ or_default reason "invalid credentials"
message (not_found reason) = "Weka resource not found: " ⁺⁺ or_default reason "resource not found"
message (filesystem_not_found reason) =
    "Weka filesystem not found: " ⁺⁺ or_default reason "resource not found"
message (conflict reason) =
    "Weka resource conflict: " ⁺⁺ or_default reason "resource already exists"
message (rate_limited reason) = "Weka API rate limited: " ⁺⁺ or_default reason "too many requests"
message (mount_error reason) = "WekaFS mount error: " ⁺⁺ reason
message (unmount_error reason) = "WekaFS unmount error: " ⁺⁺ reason
message (capacity_error reason) = "Weka capacity error: " ⁺⁺ reason
message (configuration_error reason) = "Weka driver configuration error: " ⁺⁺ reason
message (org_error reason) = "Weka organization error: " ⁺⁺ reason
message (share_not_found reason) = reason
message (snapshot_not_found reason) = reason
message (shrinking_data_loss reason) = reason
message (invalid_share reason) = reason
message (manage_invalid_share reason) = reason
message (share_backend reason) = reason
message (invalid_access reason) = reason
message (manila_error reason) = reason
message (connection_error reason) = reason
message (timed_out reason) = reason
message (process_error reason) = reason
message (os_error reason) = reason
message (value_error reason) = reason
message (key_error reason) = reason
message (attribute_error reason) = reason
message (type_error reason) = reason
message (invalid_input reason) = reason
