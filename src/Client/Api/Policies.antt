-- ===== src/Client/Api/Policies.antt =====
-- client.py: security policies and their attachment to filesystems.
use manila_weka_driver.Prelude.{String, Bool, none, Option, List, [], ◌∷◌, ◌++◌}
use manila_weka_driver.Text.{◌⁺⁺◌}
use manila_weka_driver.Exec.{Exec, lift, ◌>>=◌}
use manila_weka_driver.Json.{Json, bool, str, arr, dict, texts, of_list, elements, or_empty}
use manila_weka_driver.Client.{Conn, Net}
use manila_weka_driver.Client.Api.{find_named, path_of, get_data, post_data, patch_data, delete_at}

-- A list that is sent only if it is not empty.
abbrev nonempty : String → List String → List (String × Json)
nonempty k [] = []
nonempty k (x ∷ xs) = (k, arr (texts (x ∷ xs))) ∷ []

module _ {N : Type 0} (net : Net N) where
  unfoldable pub list_security_policies : Exec (Conn N) Json
  unfolding get_data
  list_security_policies = get_data net "/security/policies"

  unfoldable pub get_security_policy_by_name : String → Exec (Conn N) (Option Json)
  unfolding list_security_policies or_empty elements find_named
  get_security_policy_by_name name = do
    listed ← list_security_policies
    items ← lift (elements (or_empty listed))
    lift (find_named name items)

  unfoldable pub create_security_policy :
      (name : String) (ips : List String) (action : String) (read_only : Bool) → Exec (Conn N) Json
  unfolding post_data
  create_security_policy name ips action read_only = post_data net "/security/policies" (
      dict (
        ("name", str name)
        ∷ ("action", str action)
        ∷ ("ip", arr (texts ips))
        ∷ ("read_only", bool read_only)
        ∷ []))

  -- The name is never sent: the API would read it as a rename.
  unfoldable pub update_security_policy :
      Json → (add_ips remove_ips : List String) → Exec (Conn N) Json
  unfolding patch_data
  update_security_policy uid add_ips remove_ips =
      patch_data net (path_of net "/security/policies/" uid)
        (dict (nonempty "add_ip" add_ips ++ nonempty "remove_ip" remove_ips))

  unfoldable pub delete_security_policy : Json → Exec (Conn N) Json
  unfolding delete_at
  delete_security_policy uid = delete_at net (path_of net "/security/policies/" uid) none

  unfoldable pub get_fs_security_policies : Json → Exec (Conn N) Json
  unfolding get_data
  get_fs_security_policies fs_uid =
      get_data net (path_of net "/fileSystems/" fs_uid ⁺⁺ "/securityPolicy")

  unfoldable pub attach_fs_security_policies : Json → List Json → Exec (Conn N) Json
  unfolding post_data
  attach_fs_security_policies fs_uid policies =
      post_data net (path_of net "/fileSystems/" fs_uid ⁺⁺ "/securityPolicy/attach")
        (dict (("policies", arr (of_list policies)) ∷ []))

  unfoldable pub detach_fs_security_policies : Json → List Json → Exec (Conn N) Json
  unfolding post_data
  detach_fs_security_policies fs_uid policies =
      post_data net (path_of net "/fileSystems/" fs_uid ⁺⁺ "/securityPolicy/detach")
        (dict (("policies", arr (of_list policies)) ∷ []))
