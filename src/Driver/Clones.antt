-- ===== src/Driver/Clones.antt =====
-- driver.py: `create_share_from_snapshot` and the background worker that copies the data. The call
-- returns what Manila polls for.
pub mod Worker
pub mod Mounts
use manila_weka_driver.Prelude.{
  String, Bool, true, false, not, ◌&&◌, Option, none, some, List, [], ◌∷◌, if◌then◌else◌,
}
use manila_weka_driver.Text.{◌⁺⁺◌, take}
use manila_weka_driver.Text.Paths.{join_path, rstrip_slashes}
use manila_weka_driver.Exceptions.{Exc, share_backend, snapshot_not_found, manila_error}
use manila_weka_driver.Exec.{
  Result, ok, err, Exec, pure, raise, lift, gets, modify, catching, finally, on_option, ◌>>=◌, ◌>>◌,
}
use manila_weka_driver.Json.{
  Json, null, obj, lookup, get, or_else, truthy, index, is_text, as_text, elements,
}
use manila_weka_driver.Weka.{Handle, admin}
use manila_weka_driver.Host.{nfs_mount, umount, rsync}
use manila_weka_driver.Posix.{WekaMount, weka_mount, with_mount}
use manila_weka_driver.Driver.{
  Env, Driver, Share, Location, creating_from_snapshot, calling, is_nfs, is_isolated_wekafs,
}
use manila_weka_driver.Driver.Names.{share_name, snapshot_name}
use manila_weka_driver.Driver.Orgs.{client_for_share}
use manila_weka_driver.Driver.Resolve.{create_filesystem_idempotent, build_export_locations}
use manila_weka_driver.Driver.Shares.{gb_to_bytes}
use manila_weka_driver.Driver.Deletion.{if_truthy}
use manila_weka_driver.Driver.Tokens.{org_token_file}
use manila_weka_driver.Driver.Copies.{Status, begin_copy, end_copy}
use manila_weka_driver.Driver.Transfer.{Job, nonblank, copy_snapshot_nfs, copy_snapshot_wekafs}

module _ {W : Type 0} (env : Env W) where
  unfoldable pub record_end : String → Bool → Exec (Driver W) (Unit {0})
  unfolding end_copy
  record_end share_id succeeded =
      modify (λ d. record d { async_copies = end_copy share_id succeeded d.async_copies })

  -- The copy of `_run_snapshot_copy`, by the protocol of the share.
  unfoldable pub copy_snapshot : Job → Exec (Driver W) (Unit {0})
  unfolding copy_snapshot_nfs copy_snapshot_wekafs is_nfs calling
  copy_snapshot job =
      if is_nfs job.share then calling (copy_snapshot_nfs env job) else copy_snapshot_wekafs env job

  -- `_run_snapshot_copy`
  unfoldable pub run_snapshot_copy : Job → Exec (Driver W) (Unit {0})
  unfolding copy_snapshot record_end
  run_snapshot_copy job =
      catching (copy_snapshot job >> record_end job.share.id true)
        (λ e. record_end job.share.id false)

  -- The snapshot, and the name of its filesystem, which is a text.
  unfoldable pub find_source : Handle → String → Exec W (Json × String)
  unfolding snapshot_name if_truthy index as_text
  find_source client snapshot_id = do
    found ← env.weka.get_snapshot_by_name client (snapshot_name snapshot_id) none
    on_option (if_truthy found) (raise (snapshot_not_found snapshot_id)) (λ snap. do
      fs_uid ← lift (index "filesystemUid" snap)
      src_fs ← env.weka.get_filesystem client fs_uid
      name ← lift (index "name" src_fs)
      text ← lift (as_text name)
      pure (snap, text))

  -- The filesystem of the copy, its entry in the map, and the job.
  unfoldable pub begin_clone :
      Handle → Share → String → Json × String → Exec (Driver W) (List Location × Job)
  unfolding create_filesystem_idempotent share_name gb_to_bytes is_isolated_wekafs index
      build_export_locations begin_copy calling
  begin_clone client share snapshot_id (snap, src_fs_name) = do
    let name = share_name env.config share.id
    fs ← calling (
        create_filesystem_idempotent env client name env.config.filesystem_group
          (gb_to_bytes share.size) (is_isolated_wekafs share))
    fs_uid ← lift (index "uid" fs)
    let locations = build_export_locations env share name fs_uid (is_isolated_wekafs share)
    modify (λ d. record d { async_copies = begin_copy share.id fs_uid name d.async_copies })
    pure (
      locations,
      record {
        share = share;
        snapshot_id = snapshot_id;
        snap = snap;
        src_fs_name = src_fs_name;
        new_fs_name = name;
      },
    )

  -- `create_share_from_snapshot`: what it returns, and the job of the thread that it starts.
  unfoldable pub create_share_from_snapshot : Share → String → Exec (Driver W) (List Location × Job)
  unfolding is_nfs find_source client_for_share begin_clone calling
  create_share_from_snapshot share snapshot_id =
      on_option (if is_nfs share then nonblank env.config.nfs_server else some "none is needed")
        (raise (share_backend "weka_nfs_server must be configured"))
        (λ _. do
          client ← client_for_share env share
          source ← calling (find_source client snapshot_id)
          begin_clone client share snapshot_id source)
