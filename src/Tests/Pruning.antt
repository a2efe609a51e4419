-- ===== src/Tests/Pruning.antt =====
-- Instances of what is proved of the pruning of a WEKAFS share's policies.
use manila_weka_driver.Prelude.{◌≡◌, refl, String, true, false, ◌&&◌, ◌==◌, [], ◌∷◌}
use manila_weka_driver.Exec.{ok, ◌>>=◌}
use manila_weka_driver.Exec.Rules.{Keeps}
use manila_weka_driver.Json.{null}
use manila_weka_driver.Driver.{lookup, assign}
use manila_weka_driver.Driver.Names.{wekafs_policy_name}
use manila_weka_driver.Driver.Policies.{read_write, read_only, member, policy_set_ip}
use manila_weka_driver.Driver.Wekafs.{expected_ips, prune_wekafs_rules}
use manila_weka_driver.Driver.Wekafs.Revoked.{revoke_wekafs_rules}
use manila_weka_driver.Driver.Wekafs.Exact.{prune_wekafs_rules-view}
use manila_weka_driver.Driver.Wekafs.Pruning.{prune_wekafs_rules-Keeps}
use manila_weka_driver.Tests.Cluster.{Cluster, env, share, rule}
use manila_weka_driver.Tests.Policies.{store, view}

abbrev stale : Cluster
stale = ("manila-11111111-rw", "10.0.0.1" ∷ "10.0.0.7" ∷ []) ∷ []

asked : expected_ips env 1 share.id null read_write (rule ∷ []) ≡ ok ("10.0.0.1" ∷ [])
unfolding expected_ips manila_weka_driver.Driver.Errors.policy_ip
asked = refl

pruned :
    prune_wekafs_rules env 1 share.id null (rule ∷ []) stale
    ≡ (ok tt, ("manila-11111111-rw", "10.0.0.1" ∷ []) ∷ [])
unfolding prune_wekafs_rules policy_set_ip ◌>>=◌ lookup assign
    manila_weka_driver.Driver.Errors.policy_ip
pruned = refl

prune_wekafs_rules-Keeps_example :
    Keeps
      (λ w. view w "manila-11111111-rw" "10.0.0.1" ≡ true)
      (prune_wekafs_rules env 1 share.id null (rule ∷ []))
unfolding manila_weka_driver.Driver.Names.wekafs_policy_name
prune_wekafs_rules-Keeps_example =
    prune_wekafs_rules-Keeps env 1 share.id null store (rule ∷ []) read_write "10.0.0.1"
      ("10.0.0.1" ∷ []) asked refl

asked_ro : expected_ips env 1 share.id null read_only (rule ∷ []) ≡ ok []
unfolding expected_ips manila_weka_driver.Driver.Errors.policy_ip
asked_ro = refl

revoked :
    revoke_wekafs_rules env 1 share.id null (rule ∷ []) stale
    ≡ (ok tt, ("manila-11111111-rw", "10.0.0.1" ∷ []) ∷ [])
unfolding revoke_wekafs_rules policy_set_ip ◌>>=◌ lookup assign
    manila_weka_driver.Driver.Errors.policy_ip
revoked = refl

abbrev kept : Cluster
kept = ("manila-11111111-rw", "10.0.0.1" ∷ []) ∷ []

abbrev rw_name : String
rw_name = wekafs_policy_name share.id "rw"

abbrev ro_name : String
ro_name = wekafs_policy_name share.id "ro"

prune_wekafs_rules-view_example :
    (prune_wekafs_rules env 1 share.id null (rule ∷ []) stale ≡ (ok tt, kept))
    × ((i : String) → view kept rw_name i ≡ (view stale rw_name i && member i ("10.0.0.1" ∷ [])))
    × ((i : String) → view kept ro_name i ≡ (view stale ro_name i && member i []))
    × ((n i : String)
        → (rw_name == n) ≡ false
        → (ro_name == n) ≡ false
        → view kept n i ≡ view stale n i)
prune_wekafs_rules-view_example =
    prune_wekafs_rules-view env 1 share.id null store (rule ∷ []) ("10.0.0.1" ∷ []) [] stale kept
      asked asked_ro revoked
