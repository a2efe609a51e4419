-- ===== src/Driver/Nfs/Store.antt =====
-- What driver.py relies on of the client groups and the permissions of the NFS gateway: the
-- addresses in each group, a permission type for a filesystem and a group, and how each call of the
-- API reads or changes them. These are hypotheses on code that is not in the repository; every call
-- may fail, and no one else changes the share's groups between the calls of one operation.
use manila_weka_driver.Prelude.{◌≡◌, String, Bool, true, Option, some, List}
use manila_weka_driver.Exec.{ok}
use manila_weka_driver.Exec.Rules.{Keeps, Ends}
use manila_weka_driver.Exec.Tolerance.{Ended}
use manila_weka_driver.Json.{Json, str, arr, nil, get, get_or, or_empty, index, elements}
use manila_weka_driver.Client.Api.{find_named}
use manila_weka_driver.Weka.{admin}
use manila_weka_driver.Driver.{Env}
use manila_weka_driver.Driver.Errors.{norm_weka_ip, is_already_exists_error}
use manila_weka_driver.Driver.Policies.{member}
use manila_weka_driver.Driver.Exports.{find_permission, rule_ips}

pub record NfsStore {W : Type 0} (env : Env W) : Type 1 where
  -- whether a group holds an address, in its normalised form
  pub holds : W → (group ip : String) → Bool
  -- the type of the permission of a filesystem and a group
  pub type_of : W → (fs group : String) → Option String
  -- a UID belongs to one group for good
  pub Owns : String → Json → Type 0
  pub list_groups :
      (w : W)
      → Ends
          (λ v w'.
            (name : String) (groups : List Json) (cg uid : Json)
            → elements (or_empty v) ≡ ok groups
            → find_named name groups ≡ ok (some cg)
            → index "uid" cg ≡ ok uid
            → Owns name uid)
          (λ w'. Unit {0})
          (env.weka.list_client_groups admin w)
  pub create_group :
      (name : String) (w : W)
      → Ends
          (λ cg w'. (uid : Json) → index "uid" cg ≡ ok uid → Owns name uid)
          (λ w'. Unit {0})
          (env.weka.create_client_group admin name w)
  -- The addresses among a group's rules are in it.
  pub read_group :
      (name : String) (uid : Json) (w : W)
      → Owns name uid
      → Ends
          (λ detail w'.
            (rules : Json) (items : List Json) (ips : List String) (i : String)
            → get_or "rules" (arr nil) detail ≡ ok rules
            → elements rules ≡ ok items
            → rule_ips env items ≡ ok ips
            → member i ips ≡ true
            → holds w' name i ≡ true)
          (λ w'. Unit {0})
          (env.weka.get_client_group admin uid w)
  -- An address that is refused because it exists is there.
  pub add_rule :
      (name : String) (uid : Json) (ip : String) (w : W)
      → Owns name uid
      → Ended
          (λ _ w'. holds w' name (norm_weka_ip env ip) ≡ true)
          (λ e w'. is_already_exists_error e ≡ true → holds w' name (norm_weka_ip env ip) ≡ true)
          (env.weka.add_client_group_rule admin uid "IP" ip w)
  pub list_permissions :
      (w : W)
      → Ends
          (λ v w'.
            (fs group type : String) (perms : List Json) (perm : Json)
            → elements (or_empty v) ≡ ok perms
            → find_permission fs group perms ≡ ok (some perm)
            → get "permission_type" perm ≡ ok (some (str type))
            → type_of w' fs group ≡ some type)
          (λ w'. Unit {0})
          (env.weka.list_nfs_permissions admin w)
  pub create_permission :
      (fs group type path : String) (squash : Bool) (w : W)
      → Ends
          (λ _ w'. type_of w' fs group ≡ some type)
          (λ w'. Unit {0})
          (env.weka.create_nfs_permission admin group fs path type squash w)
  -- The calls on permissions leave the groups as they are.
  pub list_permissions_groups :
      (group ip : String)
      → Keeps (λ w. holds w group ip ≡ true) (env.weka.list_nfs_permissions admin)
  pub create_permission_groups :
      (group ip group' fs path type : String) (squash : Bool)
      → Keeps
          (λ w. holds w group ip ≡ true)
          (env.weka.create_nfs_permission admin group' fs path type squash)
  pub delete_permission_groups :
      (group ip : String) (uid : Json)
      → Keeps (λ w. holds w group ip ≡ true) (env.weka.delete_nfs_permission admin uid)
