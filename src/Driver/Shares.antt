-- ===== src/Driver/Shares.antt =====
-- driver.py: shares and snapshots over their Weka filesystems. A share's size is in GiB.
pub mod Shrinking
use manila_weka_driver.Prelude.{
  ℕ, ◌*◌, ◌^◌, String, Bool, true, false, not, ◌||◌, Option, none, some, List, [], ◌∷◌, ltb,
  if◌then◌else◌,
}
use manila_weka_driver.Exceptions.{
  Exc, invalid_share, share_not_found, snapshot_not_found, shrinking_data_loss, is_not_found,
}
use manila_weka_driver.Exec.{
  Result, ok, err, Exec, pure, raise, lift, catching, catching_if, ◌>>=◌, ◌>>◌,
}
use manila_weka_driver.Json.{Json, num, get_or, truthy, index, as_number}
use manila_weka_driver.Weka.{Handle}
use manila_weka_driver.Driver.{
  Env, Driver, Share, Group, Location, lookup, calling, is_nfs, is_isolated_wekafs,
}
use manila_weka_driver.Driver.Names.{share_name, snapshot_name, group_policy_name}
use manila_weka_driver.Driver.Errors.{is_attached_before}
use manila_weka_driver.Driver.Orgs.{org_client, client_for_share}
use manila_weka_driver.Driver.Policies.{
  Level, read_write, read_only, level_text, is_read_only, policy_uid, ignoring,
}
use manila_weka_driver.Driver.Wekafs.{share_policy_group}
use manila_weka_driver.Driver.Resolve.{
  fs_uid_for_share, create_filesystem_idempotent, build_export_locations,
}

-- `gb_to_bytes`
unfoldable pub gb_to_bytes : ℕ → ℕ
gb_to_bytes size_gb = size_gb * 2 ^ 30

-- `fs.get('used_total', fs.get('usedSizeBytes', 0)) or 0`
unfoldable pub used_bytes : Json → Result ℕ
unfolding get_or truthy as_number
used_bytes fs = elim (get_or "usedSizeBytes" (num 0) fs) [
  | err e ↦ err e
  | ok old ↦ elim (get_or "used_total" old fs) [
    | err e ↦ err e
    | ok v ↦ if truthy v then as_number v else ok 0
  ]
]

module _ {W : Type 0} (env : Env W) where
  -- One level of `_ensure_group_policies`: the policy is made once and then attached.
  unfoldable pub ensure_group_level :
      Handle → Json → String → Level → List String → Exec W (Unit {0})
  unfolding group_policy_name policy_uid is_attached_before
  ensure_group_level client fs_uid group level [] = pure tt
  ensure_group_level client fs_uid group level (ip ∷ ips) = do
    let name = group_policy_name group (level_text level)
    found ← env.weka.get_security_policy_by_name client name
    pol ← elim found [
      | some p ↦ pure p
      | none ↦ env.weka.create_security_policy client name (ip ∷ ips) "Allow" (is_read_only level)
    ]
    catching
        (do
          uid ← lift (policy_uid pol)
          env.weka.attach_fs_security_policies client fs_uid (uid ∷ [])
          pure tt)
        (λ e. if is_attached_before e then pure tt else raise e)

  -- `if not profile`: an unknown group, or one with no level
  abbrev profile_of : String → Option Group
  profile_of group = lookup group env.config.policy_groups

  -- `_ensure_group_policies`
  unfoldable pub ensure_group_policies : Share → Json → Exec (Driver W) (Unit {0})
  unfolding share_policy_group lookup org_client calling ensure_group_level
  ensure_group_policies share fs_uid = elim (share_policy_group env share) [
    | none ↦ pure tt
    | some group ↦ elim (profile_of group) [
      | none ↦ pure tt
      | some profile ↦ (do
        client ← org_client env share.project_id
        calling (ensure_group_level client fs_uid group read_write profile.read_write)
        calling (ensure_group_level client fs_uid group read_only profile.read_only))
    ]
  ]

  -- `create_share`
  unfoldable pub create_share : Share → Exec (Driver W) (List Location)
  unfolding is_nfs is_isolated_wekafs share_name gb_to_bytes client_for_share
      create_filesystem_idempotent ensure_group_policies calling index build_export_locations
  create_share share =
      if not (is_isolated_wekafs share || is_nfs share)
      then raise (invalid_share share.share_proto)
      else do
        let fs_name = share_name env.config share.id
        client ← client_for_share env share
        fs ← calling (
            create_filesystem_idempotent env client fs_name env.config.filesystem_group
              (gb_to_bytes share.size) (is_isolated_wekafs share))
        fs_uid ← lift (index "uid" fs)
        if is_isolated_wekafs share then ensure_group_policies share fs_uid else pure tt
        pure (build_export_locations env share fs_name fs_uid (is_isolated_wekafs share))

  -- `extend_share`
  unfoldable pub extend_share : Share → ℕ → Exec (Driver W) (Unit {0})
  unfolding client_for_share fs_uid_for_share gb_to_bytes calling
  extend_share share new_size = do
    client ← client_for_share env share
    fs_uid ← calling (fs_uid_for_share env client share)
    calling (env.weka.update_filesystem client fs_uid (gb_to_bytes new_size))
    pure tt

  -- The decision of `shrink_share` at the filesystem that the API reports.
  unfoldable pub shrink_to : Handle → Json → String → ℕ → Json → Exec W (Unit {0})
  unfolding used_bytes
  shrink_to client fs_uid share_id new_bytes fs = do
    used ← lift (used_bytes fs)
    if ltb new_bytes used
        then raise (shrinking_data_loss share_id)
        else (env.weka.update_filesystem client fs_uid new_bytes >> pure tt)

  -- `shrink_share`
  unfoldable pub shrink_share : Share → ℕ → Exec (Driver W) (Unit {0})
  unfolding client_for_share fs_uid_for_share gb_to_bytes calling shrink_to
  shrink_share share new_size = do
    client ← client_for_share env share
    fs_uid ← calling (fs_uid_for_share env client share)
    fs ← calling (env.weka.get_filesystem client fs_uid)
    calling (shrink_to client fs_uid share.id (gb_to_bytes new_size) fs)

  -- `create_snapshot`
  unfoldable pub create_snapshot : Share → String → Exec (Driver W) (Unit {0})
  unfolding client_for_share fs_uid_for_share snapshot_name calling
  create_snapshot share snapshot_id = do
    client ← client_for_share env share
    fs_uid ← calling (fs_uid_for_share env client share)
    calling (env.weka.create_snapshot client fs_uid (snapshot_name snapshot_id) false)
    pure tt

  abbrev is_share_not_found : Exc → Bool
  is_share_not_found (share_not_found id) = true
  is_share_not_found e = false

  -- `if not snap`
  unfoldable pub find_snapshot : Handle → String → Json → Exec W (Option Json)
  unfolding snapshot_name truthy
  find_snapshot client snapshot_id fs_uid = do
    found ← env.weka.get_snapshot_by_name client (snapshot_name snapshot_id) (some fs_uid)
    elim found [ none ↦ pure none | some s ↦ if truthy s then pure (some s) else pure none ]

  -- `delete_snapshot`; a parent or a snapshot that is gone ends it
  unfoldable pub delete_snapshot : Share → String → Exec (Driver W) (Unit {0})
  unfolding client_for_share fs_uid_for_share find_snapshot index calling
  delete_snapshot share snapshot_id = do
    client ← client_for_share env share
    parent ←
        catching_if is_share_not_found
          (do uid ← calling (fs_uid_for_share env client share); pure (some uid)) (λ e. pure none)
    elim parent [
      | none ↦ pure tt
      | some fs_uid ↦ (do
        found ← calling (find_snapshot client snapshot_id fs_uid)
        elim found [
          | none ↦ pure tt
          | some snap ↦ calling (
              ignoring is_not_found
                (do uid ← lift (index "uid" snap); env.weka.delete_snapshot client uid))
        ])
    ]

  -- `revert_to_snapshot`
  unfoldable pub revert_to_snapshot : Share → String → Exec (Driver W) (Unit {0})
  unfolding client_for_share fs_uid_for_share find_snapshot index calling
  revert_to_snapshot share snapshot_id = do
    client ← client_for_share env share
    fs_uid ← calling (fs_uid_for_share env client share)
    found ← calling (find_snapshot client snapshot_id fs_uid)
    elim found [
      | none ↦ raise (snapshot_not_found snapshot_id)
      | some snap ↦ (do
        uid ← lift (index "uid" snap)
        calling (env.weka.restore_snapshot client uid fs_uid)
        pure tt)
    ]
