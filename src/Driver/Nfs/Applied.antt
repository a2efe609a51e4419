-- ===== src/Driver/Nfs/Applied.antt =====
-- driver.py: what `_apply_nfs_rule` leaves, over any NFS gateway that behaves as `NfsStore` says.
use manila_weka_driver.Prelude.{◌≡◌, String, true, some, if◌then◌else◌}
use manila_weka_driver.Exec.{ok, pure, ◌>>=◌, ◌>>◌}
use manila_weka_driver.Exec.Rules.{Meets, Meets-bind}
use manila_weka_driver.Exec.Tolerance.{Anything, Ends-at}
use manila_weka_driver.Driver.{Env, Share, Rule}
use manila_weka_driver.Driver.Names.{nfs_cg_name}
use manila_weka_driver.Driver.Errors.{cidr_to_weka_ip, norm_weka_ip}
use manila_weka_driver.Driver.Policies.{member}
use manila_weka_driver.Driver.Exports.{group_and_ips, ensure_group_rule, ensure_permission}
use manila_weka_driver.Driver.Nfs.{apply_nfs_rule, nfs_type}
use manila_weka_driver.Driver.Nfs.Store.{NfsStore}
use manila_weka_driver.Driver.Nfs.Groups.{Holds, group_and_ips-Holds, in_group}
use manila_weka_driver.Driver.Nfs.Permissions.{Granted, ensure_permission-Granted}

module _ {W : Type 0} (env : Env W) (store : NfsStore env) where
  rule_added :
      (name fs type ip : String)
      → Meets Anything
          (do
            (cg, existing) ← group_and_ips env name
            if member (norm_weka_ip env ip) existing then pure tt else ensure_group_rule env cg ip
            ensure_permission env name fs type)
          (λ _. Granted env store fs name type ip)
          Anything
  rule_added name fs type ip = Meets-bind _ _ (group_and_ips-Holds env store name) λ (cg, existing).
      Meets-bind _ _ (in_group env store name ip cg existing)
        λ _. ensure_permission-Granted env store fs name ip type

  apply-Granted :
      (share : Share) (fs : String) (rule : Rule) (ip : String)
      → cidr_to_weka_ip env rule.access_to ≡ ok ip
      → Meets Anything
          (apply_nfs_rule env share fs rule)
          (λ _.
            Granted env store fs (nfs_cg_name share.id (some rule.access_id)) (nfs_type rule) ip)
          Anything
  unfolding apply_nfs_rule ◌>>=◌
  apply-Granted share fs rule ip e = rw e (record {
    at = (rule_added (nfs_cg_name share.id (some rule.access_id)) fs (nfs_type rule) ip).at;
  })

  -- Where `_apply_nfs_rule` returns, the permission of the filesystem and the rule's group has the
  -- type of the rule's level, and the group holds the rule's address in its normalised form: found
  -- there, added, or refused as one that exists.
  pub apply_nfs_rule-holds :
      (share : Share) (fs : String) (rule : Rule) (ip : String) (w w' : W)
      → cidr_to_weka_ip env rule.access_to ≡ ok ip
      → apply_nfs_rule env share fs rule w ≡ (ok tt, w')
      → (store.type_of w' fs (nfs_cg_name share.id (some rule.access_id)) ≡ some (nfs_type rule))
        × (store.holds w' (nfs_cg_name share.id (some rule.access_id)) (norm_weka_ip env ip) ≡ true)
  unfolding Holds
  apply_nfs_rule-holds share fs rule ip w w' e run =
      Ends-at _ Anything _ tt w' ((apply-Granted share fs rule ip e).at w tt) run
