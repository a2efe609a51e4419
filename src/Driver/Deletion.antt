-- ===== src/Driver/Deletion.antt =====
-- driver.py: `delete_share` and the cleanup of the share's own security policies.
pub mod Unmounted
use manila_weka_driver.Prelude.{
  String, Bool, true, false, Option, none, some, List, [], ◌∷◌, if◌then◌else◌,
}
use manila_weka_driver.Text.Paths.{join_path}
use manila_weka_driver.Exceptions.{Exc, is_not_found}
use manila_weka_driver.Exec.{Exec, pure, raise, lift, catching, on_option, ◌>>=◌, ◌>>◌}
use manila_weka_driver.Json.{Json, truthy, index}
use manila_weka_driver.Weka.{Handle}
use manila_weka_driver.Posix.{WekaMount, weka_mount, is_mounted, unmount}
use manila_weka_driver.Driver.{Config, Env, Driver, Share, calling, is_isolated_wekafs}
use manila_weka_driver.Driver.Names.{share_name, wekafs_policy_name}
use manila_weka_driver.Driver.Orgs.{client_for_share}
use manila_weka_driver.Driver.Policies.{
  Level, read_write, read_only, level_text, policy_uid, ignoring,
}
use manila_weka_driver.Driver.Resolve.{find_filesystem}

-- `_mount_point`
unfoldable pub mount_point : Config → String → String
unfolding join_path
mount_point c fs_name = join_path c.mount_point_base fs_name

-- `if not pol`
unfoldable pub if_truthy : Option Json → Option Json
unfolding truthy
if_truthy none = none
if_truthy (some v) = if truthy v then some v else none

module _ {W : Type 0} (env : Env W) where
  module _ (client : Handle) (share_id : String) (fs_uid : Json) where
    -- Detaches and deletes a policy; neither failure is an error.
    unfoldable pub discard_policy : Json → Exec W (Unit {0})
    unfolding policy_uid truthy
    discard_policy pol = do
      uid ← lift (policy_uid pol)
      if truthy fs_uid
          then catching (env.weka.detach_fs_security_policies client fs_uid (uid ∷ []) >> pure tt)
              (λ e. pure tt)
          else pure tt
      catching (env.weka.delete_security_policy client uid >> pure tt) (λ e. pure tt)

    unfoldable pub cleanup_level : Level → Exec W (Unit {0})
    unfolding wekafs_policy_name if_truthy discard_policy
    cleanup_level level = do
      found ←
          catching
            (env.weka.get_security_policy_by_name client
              (wekafs_policy_name share_id (level_text level)))
            (λ e. pure none)
      on_option (if_truthy found) (pure tt) discard_policy

    -- `_cleanup_wekafs_policies`
    unfoldable pub cleanup_wekafs_policies : Exec W (Unit {0})
    unfolding cleanup_level
    cleanup_wekafs_policies = cleanup_level read_write >> cleanup_level read_only

  -- A mount of the filesystem goes first; where it cannot, nothing is deleted.
  unfoldable pub release_mount : String → Exec W (Unit {0})
  unfolding mount_point is_mounted unmount
  release_mount fs_name = do
    mounted ← is_mounted env.host (mount_point env.config fs_name)
    if mounted
        then unmount env.host
            (weka_mount (some env.config.api_server) fs_name (mount_point env.config fs_name)) true
        else pure tt

  -- `delete_share`, of a filesystem that was found
  unfoldable pub delete_found : Handle → Share → Json → Exec W (Unit {0})
  unfolding share_name index cleanup_wekafs_policies release_mount is_isolated_wekafs
  delete_found client share fs = do
    fs_uid ← lift (index "uid" fs)
    if is_isolated_wekafs share
        then catching (cleanup_wekafs_policies client share.id fs_uid) (λ e. pure tt)
        else pure tt
    release_mount (share_name env.config share.id)
    ignoring is_not_found (env.weka.delete_filesystem client fs_uid)

  -- `delete_share`
  unfoldable pub delete_share : Share → Exec (Driver W) (Unit {0})
  unfolding client_for_share share_name find_filesystem delete_found calling
  delete_share share = do
    client ← client_for_share env share
    found ← calling (find_filesystem env client (share_name env.config share.id))
    on_option found (pure tt) (λ fs. calling (delete_found client share fs))
