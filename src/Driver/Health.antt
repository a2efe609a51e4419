-- ===== src/Driver/Health.antt =====
-- driver.py: `ensure_shares`, which verifies every share and mounts WEKAFS shares again.
pub mod Intact
use manila_weka_driver.Prelude.{
  String, Bool, true, false, Option, none, some, List, [], ◌∷◌, if◌then◌else◌,
}
use manila_weka_driver.Exceptions.{Exc, share_not_found}
use manila_weka_driver.Exec.{Exec, pure, raise, lift, catching_if, on_option, ◌>>=◌, ◌>>◌}
use manila_weka_driver.Json.{Json, is_text, truthy, index}
use manila_weka_driver.Weka.{admin}
use manila_weka_driver.Posix.{WekaMount, weka_mount, is_mounted, mount}
use manila_weka_driver.Driver.{Env, Driver, Share, Location, assign, calling, is_isolated_wekafs}
use manila_weka_driver.Driver.Names.{share_name, org_name}
use manila_weka_driver.Driver.Orgs.{org_client}
use manila_weka_driver.Driver.Exports.{listed}
use manila_weka_driver.Driver.Resolve.{find_filesystem, build_export_locations}
use manila_weka_driver.Driver.Deletion.{mount_point, if_truthy}
use manila_weka_driver.Driver.Tokens.{org_token_file}

abbrev pub is_share_not_found : Exc → Bool
is_share_not_found (share_not_found id) = true
is_share_not_found e = false

abbrev pub Listing : Type 0
Listing = List (Json × Json)

-- What `ensure_shares` reports of a share.
pub data Update : Type 0 where
  exported : List Location → Update
  missing : Update

-- `fs_by_name.get(name)`: of filesystems of one name the last one is in the dict.
unfoldable pub latest : String → Listing → Option Json
unfolding is_text
latest name [] = none
latest name ((key, fs) ∷ entries) = elim (latest name entries) [
  | some later ↦ some later
  | none ↦ if is_text name key then some fs else none
]

module _ {W : Type 0} (env : Env W) where
  unfoldable pub by_name : List Json → Exec W Listing
  unfolding index
  by_name [] = pure []
  by_name (fs ∷ rest) = do
    name ← lift (index "name" fs)
    entries ← by_name rest
    pure ((name, fs) ∷ entries)

  -- An isolated share's filesystem: of an organization that is gone there is none.
  unfoldable pub find_isolated : Share → Exec (Driver W) (Option Json)
  unfolding org_name if_truthy org_client share_name find_filesystem calling
  find_isolated share = do
    org ← calling (env.weka.get_organization_by_name admin (org_name env.config share.project_id))
    on_option (if_truthy org) (raise (share_not_found share.id)) (λ found. do
      client ← org_client env share.project_id
      calling (find_filesystem env client (share_name env.config share.id)))

  unfoldable pub share_mount : (fs_name token : String) → WekaMount
  unfolding mount_point
  share_mount fs_name token =
      record (weka_mount (some env.config.api_server) fs_name (mount_point env.config fs_name)) {
        auth_token_path = some token;
        num_cores = env.config.num_cores;
        net = env.config.net_device;
      }

  -- The mount of a WEKAFS share, if it is not there.
  unfoldable pub remount : Share → Exec (Driver W) (Unit {0})
  unfolding share_name mount_point is_mounted org_token_file share_mount mount calling
  remount share = do
    let fs_name = share_name env.config share.id
    mounted ← calling (is_mounted env.host (mount_point env.config fs_name))
    if mounted then pure tt else (do
      token ← org_token_file env share.project_id
      calling (mount env.host (share_mount fs_name token)))

  -- `_ensure_share`, as `ensure_shares` calls it
  unfoldable pub ensure_share : Listing → Share → Exec (Driver W) (List Location)
  unfolding find_isolated latest if_truthy share_name index remount build_export_locations
      is_isolated_wekafs
  ensure_share listing share = do
    found ←
        if is_isolated_wekafs share
        then find_isolated share
        else pure (if_truthy (latest (share_name env.config share.id) listing))
    on_option found (raise (share_not_found share.id)) (λ fs. do
      fs_uid ← lift (index "uid" fs)
      if is_isolated_wekafs share then remount share else pure tt
      pure (
          build_export_locations env share (share_name env.config share.id) fs_uid
            (is_isolated_wekafs share)))

  -- One share of the loop in `ensure_shares`.
  unfoldable pub checked : Listing → Share → Exec (Driver W) Update
  unfolding ensure_share
  checked listing share =
      catching_if is_share_not_found
        (do locations ← ensure_share listing share; pure (exported locations)) (λ e. pure missing)

  unfoldable pub check_shares :
      Listing → List Share → List (String × Update) → Exec (Driver W) (List (String × Update))
  unfolding checked assign
  check_shares listing [] updates = pure updates
  check_shares listing (share ∷ shares) updates = do
    u ← checked listing share
    check_shares listing shares (assign share.id u updates)

  -- `ensure_shares`
  unfoldable pub ensure_shares : List Share → Exec (Driver W) (List (String × Update))
  unfolding listed by_name check_shares calling
  ensure_shares shares = do
    listing ← calling (listed (env.weka.list_filesystems admin) >>= by_name)
    check_shares listing shares []
