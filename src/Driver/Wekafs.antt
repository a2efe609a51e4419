-- ===== src/Driver/Wekafs.antt =====
-- driver.py: access rules of a WEKAFS share as addresses in its own security policies.
pub mod Trimmed
pub mod Revoked
pub mod Exact
pub mod Levels
pub mod Pruning
pub mod Verdicts
use manila_weka_driver.Prelude.{
  ℕ, ◌+◌, String, Bool, true, false, not, ◌&&◌, ◌||◌, ◌==◌, Option, none, some, List, [], ◌∷◌, ◌++◌,
  any, if◌then◌else◌,
}
use manila_weka_driver.Exceptions.{Exc, is_api_error}
use manila_weka_driver.Exec.{
  Result, ok, err, Exec, pure, raise, lift, catching, catching_if, ◌>>=◌, ◌>>◌,
}
use manila_weka_driver.Json.{Json, null, index, truthy}
use manila_weka_driver.Weka.{Weka, Handle}
use manila_weka_driver.Driver.{
  Env, Driver, Share, Rule, RuleState, active, failed, lookup, assign, calling,
}
use manila_weka_driver.Driver.Names.{
  share_name, wekafs_policy_name, org_mount_user, org_mount_password,
}
use manila_weka_driver.Driver.Errors.{policy_ip, is_already_exists_error}
use manila_weka_driver.Driver.Orgs.{org_client}
use manila_weka_driver.Driver.Policies.{
  Level, read_write, read_only, level_text, other, member, policy_ips, policy_set_ip,
}

abbrev pub States : Type 0
States = List (String × RuleState)

-- `rule_state_map[rule['access_id']] = s`, where the loop sets it
unfoldable pub record_state : Rule → Option RuleState → States → States
unfolding assign
record_state rule none states = states
record_state rule (some s) states = assign rule.access_id s states

-- `_rule_level`; Manila's ACCESS_LEVEL_RW is "rw"
unfoldable pub rule_level : Rule → Level
rule_level rule = if rule.access_level == "rw" then read_write else read_only

abbrev pub is_ip : Rule → Bool
is_ip rule = rule.access_type == "ip"

-- `specs.get(self._POLICY_GROUP_SPEC) or None`
nonblank : Option String → Option String
nonblank none = none
nonblank (some String.[]) = none
nonblank (some s) = some s

module _ {W : Type 0} (env : Env W) where
  -- `_share_policy_group`; specs that cannot be read are no group
  unfoldable pub share_policy_group : Share → Option String
  unfolding nonblank lookup
  share_policy_group share = elim (nonblank share.share_type_id) [
    | none ↦ none
    | some type_id ↦ elim (env.extra_specs type_id) [
      | err e ↦ none
      | ok specs ↦ nonblank (lookup "weka:security_policy_group" specs)
    ]
  ]

module _ {W : Type 0} (env : Env W) (client : Handle) (share_id : String) (fs_uid : Json) where
  -- `_apply_wekafs_rule`
  unfoldable pub apply_wekafs_rule : Rule → Exec W (Unit {0})
  unfolding policy_ip rule_level
  apply_wekafs_rule rule = do
    ip ← lift (policy_ip env rule.access_to)
    policy_set_ip env client share_id fs_uid (rule_level rule) ip true
    policy_set_ip env client share_id fs_uid (other (rule_level rule)) ip false

  -- `_remove_wekafs_rule`
  unfoldable pub remove_wekafs_rule : Rule → Exec W (Unit {0})
  unfolding policy_ip
  remove_wekafs_rule rule = if not (is_ip rule) || env.is_ipv6 rule.access_to then pure tt else do
    ip ← lift (policy_ip env rule.access_to)
    policy_set_ip env client share_id fs_uid read_write ip false
    policy_set_ip env client share_id fs_uid read_only ip false

  -- One rule of the first loop of `_update_wekafs_access`: what the map has for it, if anything.
  unfoldable pub apply_rule : String → Rule → Exec W (Option RuleState)
  unfolding apply_wekafs_rule
  apply_rule key rule =
      if not (is_ip rule)
      then pure (some (active (some key)))
      else if env.is_ipv6 rule.access_to
      then pure none
      else catching (apply_wekafs_rule rule >> pure (some (active (some key))))
          (λ e. pure (some failed))

  unfoldable pub apply_rules : String → List Rule → States → Exec W States
  unfolding record_state
  apply_rules key [] states = pure states
  apply_rules key (rule ∷ rules) states = do
    s ← apply_rule key rule
    apply_rules key rules (record_state rule s states)

  unfoldable pub remove_rules : List Rule → Exec W (Unit {0})
  remove_rules [] = pure tt
  remove_rules (rule ∷ rules) = do
    catching (remove_wekafs_rule rule) (λ e. pure tt)
    remove_rules rules

  -- The addresses that the rules ask for at a level.
  unfoldable pub expected_ips : Level → List Rule → Result (List String)
  unfolding policy_ip rule_level
  expected_ips level [] = ok []
  expected_ips level (rule ∷ rules) =
      let rest = expected_ips level rules in
      if not (is_ip rule) || env.is_ipv6 rule.access_to
      then rest
      else elim (policy_ip env rule.access_to) [
        | err e ↦ err e
        | ok ip ↦ elim rest [
          | err e ↦ err e
          | ok ips ↦
              if level_text (rule_level rule) == level_text level then ok (ip ∷ ips) else ok ips
        ]
      ]

  unfoldable pub prune_ips : Level → (expected current : List String) → Exec W (Unit {0})
  prune_ips level expected [] = pure tt
  prune_ips level expected (ip ∷ ips) = do
    if member ip expected
        then pure tt
        else catching (policy_set_ip env client share_id fs_uid level ip false) (λ e. pure tt)
    prune_ips level expected ips

  -- One level of `_prune_wekafs_rules`.
  unfoldable pub prune_level : Level → List String → Exec W (Unit {0})
  unfolding wekafs_policy_name policy_ips prune_ips
  prune_level level expected = do
    found ←
        env.weka.get_security_policy_by_name client (wekafs_policy_name share_id (level_text level))
    elim found [ none ↦ pure tt | some pol ↦ lift (policy_ips pol) >>= prune_ips level expected ]

  -- `_prune_wekafs_rules`
  unfoldable pub prune_wekafs_rules : List Rule → Exec W (Unit {0})
  unfolding expected_ips prune_level
  prune_wekafs_rules rules = do
    expected_rw ← lift (expected_ips read_write rules)
    expected_ro ← lift (expected_ips read_only rules)
    prune_level read_write expected_rw
    prune_level read_only expected_ro

-- A share governed by a group: every rule is accepted as it is.
unfoldable pub accept_all : String → List Rule → States → States
unfolding assign
accept_all key [] states = states
accept_all key (rule ∷ rules) states =
    accept_all key rules (assign rule.access_id (active (some key)) states)

module _ {W : Type 0} (env : Env W) where
  -- The mount user, made where a rule is to be applied.
  unfoldable pub ensure_mount_user : Handle → String → List Rule → Exec W (Unit {0})
  unfolding org_mount_user is_already_exists_error
  ensure_mount_user client password [] = pure tt
  ensure_mount_user client password (rule ∷ rules) =
      catching_if is_api_error
        (env.weka.create_user client (org_mount_user env.config) "Regular" password >> pure tt)
        (λ e. if is_already_exists_error e then pure tt else raise e)

  -- `fs['uid'] if fs else None`
  unfoldable pub find_fs_uid : Handle → Share → Exec W Json
  unfolding share_name truthy index
  find_fs_uid client share = do
    fs ← env.weka.get_filesystem_by_name client (share_name env.config share.id)
    elim fs [ none ↦ pure null | some v ↦ if truthy v then lift (index "uid" v) else pure null ]

  -- The part of `_update_wekafs_access` that works on the share's own policies.
  unfoldable pub update_own_policies :
      Handle → String → Share → (add delete : List Rule) (full_sync : Bool) → Exec W States
  unfolding find_fs_uid apply_rules remove_rules prune_wekafs_rules
  update_own_policies client key share add delete full_sync = do
    fs_uid ← if any is_ip (add ++ delete) || full_sync then find_fs_uid client share else pure null
    states ← apply_rules env client share.id fs_uid key add []
    remove_rules env client share.id fs_uid delete
    if full_sync then prune_wekafs_rules env client share.id fs_uid add else pure tt
    pure states

  -- `_update_wekafs_access`
  unfoldable pub update_wekafs_access :
      Share → (add delete : List Rule) (full_sync : Bool) → Exec (Driver W) States
  unfolding org_client org_mount_password calling ensure_mount_user share_policy_group accept_all
      update_own_policies
  update_wekafs_access share add delete full_sync = do
    client ← org_client env share.project_id
    key ← lift (org_mount_password env share.project_id)
    calling (ensure_mount_user client key add)
    elim (share_policy_group env share) [
      | some group ↦ pure (accept_all key add [])
      | none ↦ calling (update_own_policies client key share add delete full_sync)
    ]
