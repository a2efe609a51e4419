-- ===== src/Driver/Wekafs/Revoked.antt =====
-- driver.py: `_prune_wekafs_rules` with none of its errors caught, which it follows.
use manila_weka_driver.Prelude.{String, false, Option, none, some, List, [], ◌∷◌, if◌then◌else◌}
use manila_weka_driver.Exec.{Exec, pure, lift, ◌>>=◌, ◌>>◌}
use manila_weka_driver.Exec.Follows.{
  Follows, Follows-self, Follows-catching, Follows-if, Follows-bind,
}
use manila_weka_driver.Json.{Json}
use manila_weka_driver.Weka.{Handle}
use manila_weka_driver.Driver.{Env, Rule}
use manila_weka_driver.Driver.Names.{wekafs_policy_name}
use manila_weka_driver.Driver.Policies.{
  Level, read_write, read_only, level_text, member, policy_ips, policy_set_ip,
}
use manila_weka_driver.Driver.Wekafs.{expected_ips, prune_ips, prune_level, prune_wekafs_rules}

module _ {W : Type 0} (env : Env W) (client : Handle) (share_id : String) (fs_uid : Json) where
  -- `_prune_wekafs_rules` with none of its errors caught.
  unfoldable pub revoke_ips : Level → (expected current : List String) → Exec W (Unit {0})
  revoke_ips level expected [] = pure tt
  revoke_ips level expected (ip ∷ ips) = do
    if member ip expected then pure tt else policy_set_ip env client share_id fs_uid level ip false
    revoke_ips level expected ips

  unfoldable pub revoke_level : Level → List String → Exec W (Unit {0})
  unfolding wekafs_policy_name policy_ips revoke_ips
  revoke_level level expected = do
    found ←
        env.weka.get_security_policy_by_name client (wekafs_policy_name share_id (level_text level))
    elim found [ none ↦ pure tt | some pol ↦ lift (policy_ips pol) >>= revoke_ips level expected ]

  unfoldable pub revoke_wekafs_rules : List Rule → Exec W (Unit {0})
  unfolding expected_ips revoke_level
  revoke_wekafs_rules rules = do
    expected_rw ← lift (expected_ips env client share_id fs_uid read_write rules)
    expected_ro ← lift (expected_ips env client share_id fs_uid read_only rules)
    revoke_level read_write expected_rw
    revoke_level read_only expected_ro

  prune_ips-Follows :
      (level : Level) (expected current : List String)
      → Follows
          (revoke_ips level expected current)
          (prune_ips env client share_id fs_uid level expected current)
  unfolding revoke_ips prune_ips
  prune_ips-Follows level expected [] = Follows-self _
  prune_ips-Follows level expected (ip ∷ ips) =
      Follows-bind _ _ _ _
        (Follows-if (member ip expected) _ _ _ _ (Follows-self _) (Follows-catching _ _))
        λ _. prune_ips-Follows level expected ips

  prune_found :
      (level : Level) (expected : List String) (o : Option Json)
      → Follows {S = W} {A = Unit {0}}
          (elim o [
            | none ↦ pure tt
            | some pol ↦ lift (policy_ips pol) >>= revoke_ips level expected
          ])
          (elim o [
            | none ↦ pure tt
            | some pol ↦
                lift (policy_ips pol) >>= prune_ips env client share_id fs_uid level expected
          ])
  prune_found level expected none = Follows-self _
  prune_found level expected (some pol) =
      Follows-bind _ _ _ _ (Follows-self _) (prune_ips-Follows level expected)

  prune_level-Follows :
      (level : Level) (expected : List String)
      → Follows
          (revoke_level level expected)
          (prune_level env client share_id fs_uid level expected)
  unfolding revoke_level prune_level
  prune_level-Follows level expected =
      Follows-bind _ _ _ _ (Follows-self _) (prune_found level expected)

  pub prune_wekafs_rules-Follows :
      (rules : List Rule)
      → Follows (revoke_wekafs_rules rules) (prune_wekafs_rules env client share_id fs_uid rules)
  unfolding revoke_wekafs_rules prune_wekafs_rules
  prune_wekafs_rules-Follows rules = Follows-bind _ _ _ _ (Follows-self _) λ rw_ips.
      Follows-bind _ _ _ _ (Follows-self _) λ ro_ips.
        Follows-bind _ _ _ _ (prune_level-Follows read_write rw_ips)
          λ _. prune_level-Follows read_only ro_ips
