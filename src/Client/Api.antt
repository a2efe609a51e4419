-- ===== src/Client/Api.antt =====
-- client.py: the API methods of `WekaApiClient` over `_request`: organizations, users, filesystems
-- and their groups, cluster status and capacity. Its children have the NFS, policy and snapshot
-- methods. A UID is the JSON value that the API gave out, printed into the path.
pub mod Nfs
pub mod Policies
pub mod Snapshots
use manila_weka_driver.Prelude.{
  ℕ, zero, ◌+◌, ◌*◌, ◌/◌, String, Bool, true, false, Option, none, some, List, [], ◌∷◌, ◌++◌, ◌==◌,
  nat_eq, if◌then◌else◌,
}
use manila_weka_driver.Text.{◌⁺⁺◌}
use manila_weka_driver.Exceptions.{Exc, value_error, type_error}
use manila_weka_driver.Exec.{Result, ok, err, Exec, pure, raise, lift, gets, catching, ◌>>=◌, ◌>>◌}
use manila_weka_driver.Json.{
  Json, null, bool, num, str, arr, obj, dict, to_list, elements, get, get_or, is_text, as_number,
  truthy, printed, or_else,
}
use manila_weka_driver.Client.{
  Conn, Net, Method, get_method, post, put, patch, delete, Response, request,
}

-- A text or None, as JSON.
abbrev or_null : Option String → Json
or_null none = null
or_null (some s) = str s

-- A keyword that is sent only if it is not None, and one that is sent only if it is true.
abbrev pub optional : String → Option Json → List (String × Json)
optional k none = []
optional k (some v) = (k, v) ∷ []

abbrev pub number : Option ℕ → Option Json
number none = none
number (some n) = some (num n)

abbrev pub text : Option String → Option Json
text none = none
text (some s) = some (str s)

abbrev pub flag : Option Bool → Option Json
flag none = none
flag (some b) = some (bool b)

-- `for x in listed: if x.get('name') == name: return x`, then None
unfoldable pub find_named : String → List Json → Result (Option Json)
unfolding get is_text
find_named name [] = ok none
find_named name (x ∷ xs) =
    let rest = find_named name xs in
    elim (get "name" x) [
      | err e ↦ err e
      | ok none ↦ rest
      | ok (some v) ↦ if is_text name v then ok (some x) else rest
    ]

module _ {N : Type 0} (net : Net N) where
  abbrev pub path_of : String → Json → String
  path_of prefix uid = prefix ⁺⁺ printed net.show uid

  decoded : Response → Result Json
  decoded r = elim r.json [ none ↦ err (value_error "json") | some v ↦ ok v ]

  -- `self._request(…).json()`
  unfoldable pub call : Method → String → Option Json → Option Json → Exec (Conn N) Json
  unfolding decoded
  call verb path params body = do r ← request net verb path params body; lift (decoded r)

  -- `result.get('data', result)`
  unfoldable pub unwrapped : Exec (Conn N) Json → Exec (Conn N) Json
  unfolding get_or
  unwrapped m = do result ← m; lift (get_or "data" result result)

  -- `_get`, `_post`, `_put` and `_patch` with the unwrapping that follows each
  unfoldable pub get_data : String → Exec (Conn N) Json
  unfolding call unwrapped
  get_data path = unwrapped (call get_method path none none)

  unfoldable pub post_data : String → Json → Exec (Conn N) Json
  unfolding call unwrapped
  post_data path body = unwrapped (call post path none (some body))

  unfoldable pub put_data : String → Json → Exec (Conn N) Json
  unfolding call unwrapped
  put_data path body = unwrapped (call put path none (some body))

  unfoldable pub patch_data : String → Json → Exec (Conn N) Json
  unfolding call unwrapped
  patch_data path body = unwrapped (call patch path none (some body))

  -- `_delete`: an answer without content, or one that is no JSON, is an empty dict.
  unfoldable pub delete_at : String → Option Json → Exec (Conn N) Json
  delete_at path params = do
    r ← request net delete path params none
    if r.text == "" then pure (dict []) else elim r.json [ none ↦ pure (dict []) | some v ↦ pure v ]

  unfoldable pub find_by_name : Exec (Conn N) Json → String → Exec (Conn N) (Option Json)
  unfolding find_named elements
  find_by_name listed name = do
    xs ← listed
    items ← lift (elements xs)
    lift (find_named name items)

  unfoldable pub auth_token_payload : Exec (Conn N) Json
  auth_token_payload = gets (λ c. dict (
      ("access_token", or_null c.self.access_token)
      ∷ ("refresh_token", or_null c.self.refresh_token)
      ∷ ("token_type", str "Bearer")
      ∷ []))

  unfoldable pub get_cluster_status : Exec (Conn N) Json
  unfolding call
  get_cluster_status = call get_method "/cluster" none none

  unfoldable pub list_organizations : Exec (Conn N) Json
  unfolding get_data
  list_organizations = get_data "/organizations"

  unfoldable pub get_organization_by_name : String → Exec (Conn N) (Option Json)
  unfolding list_organizations find_by_name
  get_organization_by_name = find_by_name list_organizations

  unfoldable pub create_organization :
      (name username password : String)
      → (ssd_quota total_quota : Option ℕ) → (enforce_mount_netspace_access : Bool)
      → Exec (Conn N) Json
  unfolding post_data
  create_organization name username password ssd_quota total_quota enforce =
      post_data "/organizations" (
        dict (
          (("name", str name)
            ∷ ("username", str username)
            ∷ ("password", str password)
            ∷ ("enforce_mount_netspace_access", bool enforce)
            ∷ [])
          ++ (optional "ssd_quota" (number ssd_quota)
              ++ optional "total_quota" (number total_quota))))

  unfoldable pub delete_organization : Json → Exec (Conn N) Json
  unfolding delete_at
  delete_organization uid = delete_at (path_of "/organizations/" uid) none

  unfoldable pub create_user : (username role password : String) → Exec (Conn N) Json
  unfolding post_data
  create_user username role password =
      post_data "/users"
        (dict (("username", str username) ∷ ("role", str role) ∷ ("password", str password) ∷ []))

  unfoldable pub list_filesystems : Exec (Conn N) Json
  unfolding get_data
  list_filesystems = get_data "/fileSystems"

  unfoldable pub get_filesystem : Json → Exec (Conn N) Json
  unfolding get_data
  get_filesystem uid = get_data (path_of "/fileSystems/" uid)

  unfoldable pub get_filesystem_by_name : String → Exec (Conn N) (Option Json)
  unfolding list_filesystems find_by_name
  get_filesystem_by_name = find_by_name list_filesystems

  -- The call of the driver: of the optional arguments it passes `auth_required` only.
  unfoldable pub create_filesystem :
      (name group_name : String) (total_capacity : ℕ) (auth_required : Bool) → Exec (Conn N) Json
  unfolding post_data
  create_filesystem name group_name total_capacity auth_required = post_data "/fileSystems" (
      dict (
        ("name", str name)
        ∷ ("group_name", str group_name)
        ∷ ("total_capacity", num total_capacity)
        ∷ ("encrypted", bool false)
        ∷ ("auth_required", bool auth_required)
        ∷ []))

  unfoldable pub update_filesystem :
      Json
      → (name : Option String) → (total_capacity ssd_capacity : Option ℕ)
      → (auth_required data_reduction : Option Bool) → Exec (Conn N) Json
  unfolding put_data
  update_filesystem uid name total ssd auth reduction = put_data (path_of "/fileSystems/" uid) (
      dict (
        optional "name" (text name)
        ++ (optional "total_capacity" (number total)
            ++ (optional "ssd_capacity" (number ssd)
                ++ (optional "auth_required" (flag auth)
                    ++ optional "data_reduction" (flag reduction))))))

  unfoldable pub delete_filesystem : Json → (purge_from_obs : Bool) → Exec (Conn N) Json
  unfolding delete_at
  delete_filesystem uid purge =
      delete_at (path_of "/fileSystems/" uid)
        (if purge then some (dict (("purge_from_obs", bool true) ∷ [])) else none)

  unfoldable pub list_filesystem_groups : Exec (Conn N) Json
  unfolding get_data
  list_filesystem_groups = get_data "/fileSystemGroups"

  unfoldable pub get_filesystem_group : Json → Exec (Conn N) Json
  unfolding get_data
  get_filesystem_group uid = get_data (path_of "/fileSystemGroups/" uid)

  unfoldable pub get_filesystem_group_by_name : String → Exec (Conn N) (Option Json)
  unfolding list_filesystem_groups find_by_name
  get_filesystem_group_by_name = find_by_name list_filesystem_groups

  unfoldable pub create_filesystem_group :
      (name : String) (target_ssd_retention start_demote : Option ℕ) → Exec (Conn N) Json
  unfolding post_data
  create_filesystem_group name retention demote = post_data "/fileSystemGroups" (
      dict (
        (("name", str name) ∷ [])
        ++ (optional "target_ssd_retention" (number retention)
            ++ optional "start_demote" (number demote))))
