-- ===== src/Tests/Driver.antt =====
-- Instances of what is proved of policy groups, deletions, clones, setup, statistics and adoption.
use manila_weka_driver.Prelude.{
  ◌≡◌, ◌≤◌, ◌+◌, ◌*◌, ◌/◌, ◌^◌, refl, arith, String, Bool, false, none, some, List, [], ◌∷◌, All,
  ◌==◌,
}
use manila_weka_driver.Exec.{ok, ◌>>=◌}
use manila_weka_driver.Exec.Rules.{Keeps, Ends}
use manila_weka_driver.Json.{Json, null, str}
use manila_weka_driver.Driver.{Driver, lookup, assign}
use manila_weka_driver.Driver.Policies.{read_write}
use manila_weka_driver.Driver.Orgs.Cache.{lookup-assign}
use manila_weka_driver.Driver.Orgs.Frame.{Opens}
use manila_weka_driver.Driver.Groups.{parse_policy_groups}
use manila_weka_driver.Driver.Groups.Entries.{Entry, IsTidy, ips_at, notation}
use manila_weka_driver.Driver.Groups.Notation.{parse-notation}
use manila_weka_driver.Driver.Deletion.{delete_share}
use manila_weka_driver.Driver.Deletion.Unmounted.{Deletes, delete_share-Keeps}
use manila_weka_driver.Driver.Stats.{Reserves, stats_of}
use manila_weka_driver.Driver.Stats.Capacity.{stats_of_bounds}
use manila_weka_driver.Driver.Adoption.{managed_size}
use manila_weka_driver.Driver.Adoption.Size.{managed_size_bounds}
use manila_weka_driver.Driver.Names.{derive_password}
use manila_weka_driver.Driver.Setup.{
  Options, has_separator, configured, cluster_status, ensure_filesystem_group, do_setup,
}
use manila_weka_driver.Driver.Setup.Ready.{do_setup-Ready}
use manila_weka_driver.Driver.Copies.History.{step, ended}
use manila_weka_driver.Driver.Transfer.{Job}
use manila_weka_driver.Driver.Clones.{copy_snapshot, run_snapshot_copy, create_share_from_snapshot}
use manila_weka_driver.Driver.Clones.Worker.{
  SameCopies, Filed, succeeded, run_snapshot_copy-step, create_share_from_snapshot-Filed,
}
use manila_weka_driver.Tests.Cluster.{
  Cluster, addresses, mount_lines, unmounted, share_point, after_deletion, env, share,
}
use manila_weka_driver.Tests.Hosts.{mount_table}

abbrev NoneUnderMount : Cluster → Type 0
NoneUnderMount w = addresses (lookup "deleted under its mount" w) ≡ []

NoneUnderMount-assign :
    (name : String) (ips : List String) (w : Cluster)
    → (name == "deleted under its mount") ≡ false
    → NoneUnderMount w
    → NoneUnderMount (assign name ips w)
NoneUnderMount-assign name ips w other p =
    ground (arith, lookup-assign name "deleted under its mount" ips w)

NoneUnderMount-cleared :
    (name : String) (w : Cluster) → NoneUnderMount w → NoneUnderMount (assign name [] w)
NoneUnderMount-cleared name w p = ground (arith, lookup-assign name "deleted under its mount" [] w)

NoneUnderMount-after_deletion :
    (uid : Json) (b : Bool) (w : Cluster)
    → b ≡ false
    → NoneUnderMount w
    → NoneUnderMount (after_deletion uid b w)
NoneUnderMount-after_deletion uid b w free p = rw free (NoneUnderMount-assign "deleted" _ w refl p)

opens : Opens env NoneUnderMount
opens = record {
  org_by_name = λ name. record { at = λ w p. p };
  new_org = λ name user password. record { at = λ w p. p };
  login = λ name user password. record { at = λ w p. p };
}

deletes : Deletes env mount_table NoneUnderMount share_point
unfolding manila_weka_driver.Host.umount
deletes = record {
  opens = opens;
  by_name = λ h name. record { at = λ w p. p };
  policy = λ h name. record { at = λ w p. p };
  detach = λ h fs uid. record { at = λ w p. p };
  policy_gone = λ h uid. record { at = λ w p. NoneUnderMount-cleared _ w p };
  unmounting = record {
    at = λ w p.
        NoneUnderMount-assign "/proc/mounts" (unmounted share_point (mount_lines w)) w refl p;
  };
  filesystem_gone =
      λ h uid. record { at = λ w (p, free). NoneUnderMount-after_deletion uid _ w free p };
}

delete_share-Keeps_example : Keeps (λ d. NoneUnderMount d.weka) (delete_share env share)
delete_share-Keeps_example = delete_share-Keeps env mount_table NoneUnderMount share deletes

abbrev reserves : Reserves
reserves = record {
  reserved_percentage = 0;
  reserved_snapshot_percentage = 0;
  reserved_share_extend_percentage = 0;
  max_over_subscription_ratio = "20.0";
}

stats_of_bounds_example :
    let s = stats_of "default" reserves 3221225472 1073741824 in
    (s.free_capacity_gb ≤ s.total_capacity_gb)
    × (3221225472 ≤ 1073741824 → s.free_capacity_gb ≡ 0)
    × (s.total_capacity_gb * 2 ^ 30 ≤ 3221225472 * 100 + 2 ^ 29)
    × (3221225472 * 100 ≤ s.total_capacity_gb * 2 ^ 30 + 2 ^ 29)
stats_of_bounds_example = stats_of_bounds "default" reserves 3221225472 1073741824 (omega arith)

managed_size_bounds_example :
    (1 ≤ managed_size 1) × (1 / 2 ^ 30 ≤ managed_size 1) × (managed_size 1 ≤ 1 / 2 ^ 30 + 1)
managed_size_bounds_example = managed_size_bounds 1

abbrev pub job : Job
job = record {
  share = share;
  snapshot_id = "99999999-0000-0000-0000-000000000000";
  snap = null;
  src_fs_name = "source";
  new_fs_name = "copy";
}

abbrev idle : Driver Cluster
idle = record { org_clients = []; async_copies = []; weka = [] }

run_snapshot_copy-step_example :
    (d' : Driver Cluster) × (run_snapshot_copy env job idle ≡ (ok tt, d'))
    × (d'.async_copies ≡ step (ended share.id (succeeded (copy_snapshot env job idle).0)) [])
run_snapshot_copy-step_example = run_snapshot_copy-step env job idle

create_share_from_snapshot-Filed_example :
    Ends
      (Filed env share "s" [])
      (SameCopies env [])
      (create_share_from_snapshot env share "s" idle)
create_share_from_snapshot-Filed_example = create_share_from_snapshot-Filed env share "s" idle

abbrev entry : Entry
entry = record { group = "ops"; level = read_write; first = "10.0.0.0/8"; others = "10.1.1.1" ∷ [] }

entry-IsTidy : All IsTidy (entry ∷ [])
unfolding manila_weka_driver.Text.Split.is_space
entry-IsTidy = ground arith

parse-notation_example :
    ips_at "ops" read_write (parse_policy_groups (some (notation entry [])))
    ≡ "10.0.0.0/8" ∷ "10.1.1.1" ∷ []
parse-notation_example = parse-notation entry [] "ops" read_write entry-IsTidy

abbrev options : Options
options = record {
  weka_api_server = some "weka";
  weka_username = some "admin";
  weka_password = some "admin";
  weka_org_prefix = "manila-";
  weka_org_user = "manila";
  weka_org_admin_secret = some "secret";
  weka_auth_token_dir = "/tokens";
  weka_security_policy_group = none;
  weka_nfs_server = none;
  weka_filesystem_group = "default";
  weka_share_name_prefix = "manila_";
  weka_mount_point_base = "/mnt";
  weka_num_cores = 1;
  weka_net_device = none;
}

sets_up : do_setup env.weka env.host options [] ≡ (ok (env.config, str "default"), [])
unfolding do_setup ◌>>=◌ has_separator cluster_status ensure_filesystem_group parse_policy_groups
sets_up = refl

do_setup-Ready_example :
    (env.config ≡ configured options)
    × (has_separator env.config.org_prefix ≡ false)
    × ((password : String) × (derive_password env (some "abc") ":mount" ≡ ok password))
do_setup-Ready_example =
    do_setup-Ready env options [] [] (str "default") (some "abc") ":mount" sets_up
