-- ===== src/Driver/Transfer.antt =====
-- driver.py: the two ways to copy the data of a snapshot, over NFS and over mounts of the cluster's
-- own filesystem, with their cleanups. The arguments of the worker's thread are a `Job`.
use manila_weka_driver.Prelude.{
  String, Bool, true, false, Option, none, some, List, [], ◌∷◌, if◌then◌else◌,
}
use manila_weka_driver.Text.{◌⁺⁺◌, take}
use manila_weka_driver.Text.Paths.{join_path, rstrip_slashes}
use manila_weka_driver.Exceptions.{manila_error}
use manila_weka_driver.Exec.{
  Result, ok, err, Exec, pure, raise, lift, gets, modify, catching, finally, on_option, ◌>>=◌, ◌>>◌,
}
use manila_weka_driver.Json.{
  Json, null, obj, lookup, get, or_else, truthy, index, is_text, as_text, elements,
}
use manila_weka_driver.Weka.{admin}
use manila_weka_driver.Host.{nfs_mount, umount, rsync}
use manila_weka_driver.Posix.{WekaMount, weka_mount, with_mount}
use manila_weka_driver.Driver.{Env, Driver, Share, calling}
use manila_weka_driver.Driver.Names.{snapshot_name}
use manila_weka_driver.Driver.Deletion.{if_truthy}
use manila_weka_driver.Driver.Tokens.{org_token_file}

-- The arguments of `_run_snapshot_copy`.
pub record Job : Type 0 where
  pub share : Share
  pub snapshot_id : String
  pub snap : Json
  pub src_fs_name : String
  pub new_fs_name : String

-- `self._nfs_server`, if it is set
abbrev pub nonblank : Option String → Option String
nonblank none = none
nonblank (some String.[]) = none
nonblank (some s) = some s

-- `snap.get('accessPoint') or snap_name`
unfoldable pub access_point : Json → String → Result String
unfolding get truthy as_text
access_point snap snap_name = elim (get "accessPoint" snap) [
  | err e ↦ err e
  | ok found ↦ if truthy (or_else found null) then as_text (or_else found null) else ok snap_name
]

-- The locals of `_copy_snapshot_nfs` that its cleanup reads, beside the cluster and the host.
pub record Work (W : Type 0) : Type 0 where
  pub cg_uid : Option Json
  pub rule_uid : Option Json
  pub src_mounted : Bool
  pub dst_mounted : Bool
  pub world : W

unfoldable pub within : {W A : Type 0} → Exec W A → Exec (Work W) A
within m k = let (r, w) = m k.world in (r, record k { world = w })

abbrev pub start_work : {W : Type 0} → W → Work W
start_work w = record {
  cg_uid = none;
  rule_uid = none;
  src_mounted = false;
  dst_mounted = false;
  world = w;
}

-- `rule.get('uid') if isinstance(rule, dict) else None`
abbrev pub uid_of_rule : Json → Option Json
unfolding lookup
uid_of_rule (obj d) = lookup "uid" d
uid_of_rule v = none

abbrev pub best_effort : {S A : Type 0} → Exec S A → Exec S (Unit {0})
best_effort m = catching (m >> pure tt) (λ e. pure tt)

module _ {W : Type 0} (env : Env W) where
  -- `_rsync_snapshot`
  unfoldable pub rsync_snapshot : (src_snap_dir dst_mnt : String) → Exec W (Unit {0})
  unfolding rsync rstrip_slashes
  rsync_snapshot src_snap_dir dst_mnt =
      rsync env.host (rstrip_slashes src_snap_dir ⁺⁺ "/") (rstrip_slashes dst_mnt ⁺⁺ "/")

  unfoldable pub copy_data : Job → (src_mnt dst_mnt : String) → Exec W (Unit {0})
  unfolding access_point snapshot_name join_path rsync_snapshot
  copy_data job src_mnt dst_mnt = do
    point ← lift (access_point job.snap (snapshot_name job.snapshot_id))
    rsync_snapshot (join_path (join_path src_mnt ".snapshots") point) dst_mnt

  unfoldable pub temp_group : Job → String
  unfolding take
  temp_group job = "manila-snap-" ⁺⁺ take 8 job.share.id

  -- The local IP that routes to the NFS server.
  unfoldable pub local_ip : String → Exec W String
  local_ip server = catching (env.host.route_address server) (λ e. env.host.own_address)

  -- The `try` of `_copy_snapshot_nfs`.
  unfoldable pub nfs_copy : Job → (server ip src_mnt dst_mnt : String) → Exec (Work W) (Unit {0})
  unfolding temp_group index lookup uid_of_rule within nfs_mount copy_data
  nfs_copy job server ip src_mnt dst_mnt = do
    let group = temp_group job
    cg ← within (env.weka.create_client_group admin group)
    cg_uid ← lift (index "uid" cg)
    modify (λ k. record k { cg_uid = some cg_uid })
    rule ← within (env.weka.add_client_group_rule admin cg_uid "IP" ip)
    modify (λ k. record k { rule_uid = uid_of_rule rule })
    within (env.weka.create_nfs_permission admin group job.src_fs_name "/" "RO" false)
    within (env.weka.create_nfs_permission admin group job.new_fs_name "/" "RW" false)
    within (env.host.retry (nfs_mount env.host (server ⁺⁺ (":/" ⁺⁺ job.src_fs_name)) src_mnt))
    modify (λ k. record k { src_mounted = true })
    within (env.host.retry (nfs_mount env.host (server ⁺⁺ (":/" ⁺⁺ job.new_fs_name)) dst_mnt))
    modify (λ k. record k { dst_mounted = true })
    within (copy_data job src_mnt dst_mnt)

  unfoldable pub unmount_if : Bool → String → Exec W (Unit {0})
  unfolding umount
  unmount_if mounted point = if mounted then best_effort (umount env.host point false) else pure tt

  unfoldable pub delete_group_permissions : String → List Json → Exec W (Unit {0})
  unfolding get index is_text
  delete_group_permissions group [] = pure tt
  delete_group_permissions group (perm ∷ perms) = do
    found ← lift (get "group" perm)
    if is_text group (or_else found null)
        then best_effort
            (do uid ← lift (index "uid" perm); env.weka.delete_nfs_permission admin uid)
        else pure tt
    delete_group_permissions group perms

  unfoldable pub delete_temp_group : Option Json → Option Json → Exec W (Unit {0})
  unfolding if_truthy
  delete_temp_group cg_uid rule_uid = on_option (if_truthy cg_uid) (pure tt) (λ uid. do
    on_option (if_truthy rule_uid) (pure tt)
        (λ rule. best_effort (env.weka.delete_client_group_rule admin uid rule))
    best_effort (env.weka.delete_client_group admin uid))

  -- The `finally` of `_copy_snapshot_nfs`.
  unfoldable pub nfs_cleanup : Job → (src_mnt dst_mnt : String) → Exec (Work W) (Unit {0})
  unfolding within unmount_if delete_group_permissions temp_group delete_temp_group elements
  nfs_cleanup job src_mnt dst_mnt = do
    dst ← gets (λ k. k.dst_mounted)
    within (unmount_if dst dst_mnt)
    src ← gets (λ k. k.src_mounted)
    within (unmount_if src src_mnt)
    within (best_effort (env.host.remove_dir src_mnt))
    within (best_effort (env.host.remove_dir dst_mnt))
    within (
        best_effort (do
          v ← env.weka.list_nfs_permissions admin
          perms ← lift (elements v)
          delete_group_permissions (temp_group job) perms))
    cg_uid ← gets (λ k. k.cg_uid)
    rule_uid ← gets (λ k. k.rule_uid)
    within (delete_temp_group cg_uid rule_uid)

  -- A worker's locals begin and end with it.
  unfoldable pub working : {A : Type 0} → Exec (Work W) A → Exec W A
  working m w = let (r, k) = m (start_work w) in (r, k.world)

  -- `_copy_snapshot_nfs`
  unfoldable pub copy_snapshot_nfs : Job → Exec W (Unit {0})
  unfolding local_ip nfs_copy nfs_cleanup working
  copy_snapshot_nfs job =
      on_option (nonblank env.config.nfs_server)
        (raise (manila_error "weka_nfs_server must be configured for create_share_from_snapshot"))
        (λ server. do
          ip ← local_ip server
          src_mnt ← env.host.make_temp_dir "manila_weka_snap_src_"
          dst_mnt ← env.host.make_temp_dir "manila_weka_snap_dst_"
          working
              (finally (nfs_copy job server ip src_mnt dst_mnt) (nfs_cleanup job src_mnt dst_mnt)))

  abbrev pub temp_mount : (fs_name point token : String) → WekaMount
  temp_mount fs_name point token = record (weka_mount none fs_name point) {
    auth_token_path = some token;
    num_cores = env.config.num_cores;
    net = env.config.net_device;
  }

  -- The copy between the two mounts, and the removal of their directories.
  unfoldable pub wekafs_copy : Job → (token : String) → Exec W (Unit {0})
  unfolding with_mount copy_data
  wekafs_copy job token = do
    src_mnt ← env.host.make_temp_dir "manila_weka_snap_src_"
    dst_mnt ← env.host.make_temp_dir "manila_weka_snap_dst_"
    finally
        (with_mount env.host (temp_mount job.src_fs_name src_mnt token) (
          with_mount env.host (temp_mount job.new_fs_name dst_mnt token)
            (copy_data job src_mnt dst_mnt)))
        (best_effort (env.host.remove_dir src_mnt) >> best_effort (env.host.remove_dir dst_mnt))

  -- `_copy_snapshot_wekafs`
  unfoldable pub copy_snapshot_wekafs : Job → Exec (Driver W) (Unit {0})
  unfolding org_token_file wekafs_copy calling
  copy_snapshot_wekafs job = do
    token ← org_token_file env job.share.project_id
    calling (wekafs_copy job token)
