-- ===== src/Driver/Nfs.antt =====
-- driver.py: access rules of an NFS share, added, deleted and pruned. A Python set of group names
-- is a list without repeats; the order in which its groups are deleted is this list's.
pub mod Verdicts
pub mod Frame
pub mod Marker
pub mod Store
pub mod Groups
pub mod Permissions
pub mod Applied
use manila_weka_driver.Prelude.{
  ℕ, String, Bool, true, false, not, ◌&&◌, ◌||◌, ◌==◌, Option, none, some, List, [], ◌∷◌, ◌++◌, any,
  if◌then◌else◌,
}
use manila_weka_driver.Text.{contains, is_prefix, take}
use manila_weka_driver.Exceptions.{Exc, is_api_error, is_not_found, invalid_access}
use manila_weka_driver.Exec.{
  Result, ok, err, Exec, pure, raise, lift, catching, catching_if, ◌>>=◌, ◌>>◌,
}
use manila_weka_driver.Json.{
  Json, null, str, arr, nil, get, get_or, or_else, or_empty, truthy, index, elements, is_text,
  as_text,
}
use manila_weka_driver.Weka.{Weka, Handle, admin}
use manila_weka_driver.Client.Api.{find_named}
use manila_weka_driver.Driver.{Env, Share, Rule, RuleState, active, failed, assign}
use manila_weka_driver.Driver.Names.{share_name, nfs_cg_name}
use manila_weka_driver.Driver.Errors.{cidr_to_weka_ip, norm_weka_ip, is_already_exists_error}
use manila_weka_driver.Driver.Policies.{member, ignoring}
use manila_weka_driver.Driver.Wekafs.{States, is_ip, record_state}
use manila_weka_driver.Driver.Exports.{
  perm_keys, listed, delete_client_group_by_name, group_and_ips, ensure_group_rule,
  ensure_permission,
}

-- The groups that the rules of a share ask for.
abbrev pub expected_groups : Share → List Rule → List String
expected_groups share [] = []
expected_groups share (rule ∷ rules) =
    nfs_cg_name share.id (some rule.access_id) ∷ expected_groups share rules

abbrev pub nfs_type : Rule → String
nfs_type rule = if rule.access_level == "rw" then "RW" else "RO"

module _ {W : Type 0} (env : Env W) where
  -- `_apply_nfs_rule`
  unfoldable pub apply_nfs_rule : Share → String → Rule → Exec W (Unit {0})
  unfolding nfs_cg_name cidr_to_weka_ip norm_weka_ip group_and_ips ensure_group_rule
      ensure_permission
  apply_nfs_rule share fs_name rule = do
    let cg_name = nfs_cg_name share.id (some rule.access_id)
    weka_ip ← elim (cidr_to_weka_ip env rule.access_to) [
      | err e ↦ raise (invalid_access rule.access_to)
      | ok ip ↦ pure ip
    ]
    (cg, existing) ← group_and_ips env cg_name
    if member (norm_weka_ip env weka_ip) existing then pure tt else ensure_group_rule env cg weka_ip
    ensure_permission env cg_name fs_name (nfs_type rule)

  -- One rule of the first loop of `_update_nfs_access`.
  unfoldable pub add_nfs_rule : Share → String → Rule → Exec W (Option RuleState)
  unfolding apply_nfs_rule
  add_nfs_rule share fs_name rule =
      if not (is_ip rule)
      then pure (some failed)
      else if env.is_ipv6 rule.access_to
      then pure none
      else catching (apply_nfs_rule share fs_name rule >> pure (some (active none)))
          (λ e. pure (some failed))

  unfoldable pub add_nfs_rules : Share → String → List Rule → States → Exec W States
  unfolding add_nfs_rule record_state
  add_nfs_rules share fs_name [] states = pure states
  add_nfs_rules share fs_name (rule ∷ rules) states = do
    s ← add_nfs_rule share fs_name rule
    add_nfs_rules share fs_name rules (record_state rule s states)

  -- The loop of `_remove_nfs_rule`: deletes and gathers the groups' names.
  unfoldable pub remove_permissions :
      String → String → List Json → List String → Exec W (List String)
  unfolding perm_keys is_text as_text contains index
  remove_permissions fs_name marker [] names = pure names
  remove_permissions fs_name marker (perm ∷ perms) names = do
    (fs, cg) ← lift (perm_keys perm)
    names' ← if not (is_text fs_name fs) then pure names else (do
      cg_name ← lift (as_text cg)
      if contains marker cg_name
          then (do
            uid ← lift (index "uid" perm)
            env.weka.delete_nfs_permission admin uid
            pure (if cg_name == "" || member cg_name names then names else cg_name ∷ names))
          else pure names)
    remove_permissions fs_name marker perms names'

  unfoldable pub delete_groups : List String → Exec W (Unit {0})
  unfolding delete_client_group_by_name
  delete_groups [] = pure tt
  delete_groups (name ∷ names) = do delete_client_group_by_name env name; delete_groups names

  -- `_remove_nfs_rule`
  unfoldable pub remove_nfs_rule : String → Rule → Exec W (Unit {0})
  unfolding listed take remove_permissions delete_groups
  remove_nfs_rule fs_name rule = do
    perms ← listed (env.weka.list_nfs_permissions admin)
    names ← remove_permissions fs_name (take 8 rule.access_id) perms []
    delete_groups names

  unfoldable pub remove_nfs_rules : String → List Rule → Exec W (Unit {0})
  unfolding remove_nfs_rule
  remove_nfs_rules fs_name [] = pure tt
  remove_nfs_rules fs_name (rule ∷ rules) = do
    catching (remove_nfs_rule fs_name rule) (λ e. pure tt)
    remove_nfs_rules fs_name rules

  -- The loop of `_remove_all_nfs_permissions`.
  unfoldable pub remove_all : String → List Json → List String → Exec W (List String)
  unfolding perm_keys is_text truthy as_text index
  remove_all fs_name [] names = pure names
  remove_all fs_name (perm ∷ perms) names = do
    (fs, cg) ← lift (perm_keys perm)
    names' ← if not (is_text fs_name fs) then pure names else (do
      ignoring is_not_found (lift (index "uid" perm) >>= env.weka.delete_nfs_permission admin)
      if truthy cg
          then (do
            cg_name ← lift (as_text cg)
            pure (if member cg_name names then names else cg_name ∷ names))
          else pure names)
    remove_all fs_name perms names'

  -- `_remove_all_nfs_permissions`
  unfoldable pub remove_all_nfs_permissions : String → Exec W (Unit {0})
  unfolding listed remove_all delete_groups
  remove_all_nfs_permissions fs_name = do
    perms ← listed (env.weka.list_nfs_permissions admin)
    names ← remove_all fs_name perms []
    delete_groups names

  -- One permission in the loop of `_prune_nfs_rules`: the stale groups from then on.
  unfoldable pub prune_permission :
      (fs_name prefix : String) (expected : List String) → Json → List String → Exec W (List String)
  unfolding perm_keys is_text as_text is_prefix index
  prune_permission fs_name prefix expected perm stale = do
    (fs, cg) ← lift (perm_keys perm)
    if not (is_text fs_name fs) then pure stale else (do
      cg_name ← lift (as_text cg)
      if not (is_prefix prefix cg_name) || member cg_name expected
          then pure stale
          else catching
              (do
                uid ← lift (index "uid" perm)
                env.weka.delete_nfs_permission admin uid
                pure (if member cg_name stale then stale else cg_name ∷ stale))
              (λ e. pure stale))

  unfoldable pub prune_permissions :
      (fs_name prefix : String) (expected : List String)
      → List Json
      → List String
      → Exec W (List String)
  unfolding prune_permission
  prune_permissions fs_name prefix expected [] stale = pure stale
  prune_permissions fs_name prefix expected (perm ∷ perms) stale = do
    stale' ← prune_permission fs_name prefix expected perm stale
    prune_permissions fs_name prefix expected perms stale'

  unfoldable pub prune_groups : List String → Exec W (Unit {0})
  unfolding delete_client_group_by_name
  prune_groups [] = pure tt
  prune_groups (name ∷ names) = do
    catching (delete_client_group_by_name env name) (λ e. pure tt)
    prune_groups names

  -- `_prune_nfs_rules`
  unfoldable pub prune_nfs_rules : Share → String → List Rule → Exec W (Unit {0})
  unfolding nfs_cg_name listed prune_permissions prune_groups
  prune_nfs_rules share fs_name rules = do
    perms ← listed (env.weka.list_nfs_permissions admin)
    stale ←
        prune_permissions fs_name (nfs_cg_name share.id none) (expected_groups share rules) perms []
    prune_groups stale

  -- `_update_nfs_access`
  unfoldable pub update_nfs_access :
      Share → (add delete : List Rule) (full_sync : Bool) → Exec W States
  unfolding share_name add_nfs_rules remove_nfs_rules prune_nfs_rules
  update_nfs_access share add delete full_sync = do
    let fs_name = share_name env.config share.id
    states ← add_nfs_rules share fs_name add []
    remove_nfs_rules fs_name delete
    if full_sync then prune_nfs_rules share fs_name add else pure tt
    pure states
