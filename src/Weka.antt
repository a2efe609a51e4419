-- ===== src/Weka.antt =====
-- The API methods that driver.py calls, as an interface over a world `W`: a client object is a
-- number, its place in the heap of sessions (0 is the driver's own, `for_org` makes another).
-- `Client/Heap` gives it by the methods of client.py.
use manila_weka_driver.Prelude.{ℕ, String, Bool, Option, List}
use manila_weka_driver.Exec.{Exec}
use manila_weka_driver.Json.{Json}

abbrev pub Handle : Type 0
Handle = ℕ

abbrev pub admin : Handle
admin = 0

pub record Weka (W : Type 0) : Type 0 where
  pub for_org : (organization username password : String) → Exec W Handle
  pub login : Handle → Exec W (Unit {0})
  pub auth_token_payload : Handle → Exec W Json
  pub get_cluster_status : Handle → Exec W Json
  pub get_organization_by_name : Handle → String → Exec W (Option Json)
  pub create_organization : Handle → (name username password : String) → Exec W Json
  pub create_user : Handle → (username role password : String) → Exec W Json
  pub list_filesystems : Handle → Exec W Json
  pub get_filesystem : Handle → Json → Exec W Json
  pub get_filesystem_by_name : Handle → String → Exec W (Option Json)
  pub create_filesystem :
      Handle → (name group_name : String) (total_capacity : ℕ) (auth_required : Bool) → Exec W Json
  pub update_filesystem : Handle → Json → (total_capacity : ℕ) → Exec W Json
  pub delete_filesystem : Handle → Json → Exec W Json
  pub get_filesystem_group_by_name : Handle → String → Exec W (Option Json)
  pub create_filesystem_group : Handle → String → Exec W Json
  pub list_nfs_permissions : Handle → Exec W Json
  pub create_nfs_permission :
      Handle → (client_group fs_name path access_type : String) (squash : Bool) → Exec W Json
  pub delete_nfs_permission : Handle → Json → Exec W Json
  pub list_client_groups : Handle → Exec W Json
  pub create_client_group : Handle → String → Exec W Json
  pub add_client_group_rule : Handle → Json → (rule_type rule_value : String) → Exec W Json
  pub get_client_group : Handle → Json → Exec W Json
  pub delete_client_group_rule : Handle → (group_uid rule_uid : Json) → Exec W Json
  pub delete_client_group : Handle → Json → Exec W Json
  pub get_security_policy_by_name : Handle → String → Exec W (Option Json)
  pub create_security_policy :
      Handle
      → (name : String) (ips : List String) (action : String) (read_only : Bool) → Exec W Json
  pub update_security_policy : Handle → Json → (add_ips remove_ips : List String) → Exec W Json
  pub delete_security_policy : Handle → Json → Exec W Json
  pub attach_fs_security_policies : Handle → Json → List Json → Exec W Json
  pub detach_fs_security_policies : Handle → Json → List Json → Exec W Json
  pub get_snapshot_by_name : Handle → String → Option Json → Exec W (Option Json)
  pub create_snapshot : Handle → Json → (name : String) (is_writable : Bool) → Exec W Json
  pub delete_snapshot : Handle → Json → Exec W Json
  pub restore_snapshot : Handle → (snap_uid fs_uid : Json) → Exec W Json
  pub get_capacity : Handle → Exec W Json
