-- ===== src/Driver/Setup.antt =====
-- driver.py: `do_setup` and `check_for_setup_error`. The options are a record; a set-up driver's
-- fields are the `Config` that the other methods read.
pub mod Ready
use manila_weka_driver.Prelude.{
  ℕ, String, Bool, true, false, ◌||◌, Option, none, some, List, [], ◌∷◌, ◌==◌, if◌then◌else◌,
}
use manila_weka_driver.Text.{contains}
use manila_weka_driver.Text.Paths.{has}
use manila_weka_driver.Text.Split.{join}
use manila_weka_driver.Exceptions.{
  Exc, auth_error, configuration_error, manila_error, invalid_input, message,
}
use manila_weka_driver.Exec.{
  Result, Exec, pure, raise, lift, catching, catching_if, on_option, ◌>>=◌, ◌>>◌,
}
use manila_weka_driver.Json.{Json, str, get_or, truthy, index}
use manila_weka_driver.Weka.{Weka, admin}
use manila_weka_driver.Host.{Host}
use manila_weka_driver.Posix.{is_os_error}
use manila_weka_driver.Driver.{Config}
use manila_weka_driver.Driver.Names.{or_blank}
use manila_weka_driver.Driver.Groups.{parse_policy_groups}
use manila_weka_driver.Driver.Deletion.{if_truthy}

-- The options of config.py that the driver reads at setup; the server, the user and the password
-- are missing where they are not set.
pub record Options : Type 0 where
  pub weka_api_server : Option String
  pub weka_username : Option String
  pub weka_password : Option String
  pub weka_org_prefix : String
  pub weka_org_user : String
  pub weka_org_admin_secret : Option String
  pub weka_auth_token_dir : String
  pub weka_security_policy_group : Option String
  pub weka_nfs_server : Option String
  pub weka_filesystem_group : String
  pub weka_share_name_prefix : String
  pub weka_mount_point_base : String
  pub weka_num_cores : ℕ
  pub weka_net_device : Option String

-- `'/' in prefix or '\\' in prefix`; `os.sep` is '/'
unfoldable pub has_separator : String → Bool
unfolding has
has_separator prefix = has b'/' prefix || has b'\\' prefix

-- What `self` holds after the setup.
abbrev pub configured : Options → Config
unfolding parse_policy_groups
configured o = record {
  share_name_prefix = o.weka_share_name_prefix;
  org_prefix = o.weka_org_prefix;
  org_user = o.weka_org_user;
  org_admin_secret = or_blank o.weka_org_admin_secret;
  nfs_server = o.weka_nfs_server;
  api_server = or_blank o.weka_api_server;
  filesystem_group = o.weka_filesystem_group;
  policy_groups = parse_policy_groups o.weka_security_policy_group;
  mount_point_base = o.weka_mount_point_base;
  auth_token_dir = o.weka_auth_token_dir;
  num_cores = o.weka_num_cores;
  net_device = o.weka_net_device;
}

abbrev missing_option : String → Option String → List String → List String
missing_option name none rest = name ∷ rest
missing_option name (some String.[]) rest = name ∷ rest
missing_option name (some s) rest = rest

unfoldable pub missing_options : Options → List String
missing_options o = missing_option "weka_api_server" o.weka_api_server (
    missing_option "weka_username" o.weka_username
      (missing_option "weka_password" o.weka_password []))

module _ {W : Type 0} (weka : Weka W) (host : Host W) where
  -- `_ensure_filesystem_group`; its result is the group's UID
  unfoldable pub ensure_filesystem_group : String → Exec W Json
  unfolding if_truthy index
  ensure_filesystem_group group_name = do
    found ← weka.get_filesystem_group_by_name admin group_name
    on_option (if_truthy found)
        (do made ← weka.create_filesystem_group admin group_name; lift (index "uid" made))
        (λ group. lift (index "uid" group))

  -- The name and the version that are logged.
  unfoldable pub cluster_status : Exec W (Json × Json)
  unfolding get_or
  cluster_status =
      catching
        (do
          status ← weka.get_cluster_status admin
          name ← lift (get_or "name" (str "unknown") status)
          release ← lift (get_or "release" (str "unknown") status)
          pure (name, release))
        (λ e. pure (str "unknown", str "unknown"))

  -- `do_setup`: the configuration of the driver, and the UID of the filesystem group
  unfoldable pub do_setup : Options → Exec W (Config × Json)
  unfolding has_separator parse_policy_groups configured cluster_status ensure_filesystem_group
  do_setup o = do
    weka.login admin
    if has_separator o.weka_org_prefix
        then raise (configuration_error "weka_org_prefix must not contain path separators")
        else pure tt
    if or_blank o.weka_org_admin_secret == ""
        then raise (configuration_error "weka_org_admin_secret must be set")
        else pure tt
    cluster_status
    group_uid ← ensure_filesystem_group o.weka_filesystem_group
    pure (configured o, group_uid)

  -- `'wekafs' in fh.read()`
  unfoldable pub wekafs_available : Exec W Bool
  unfolding contains
  wekafs_available =
      catching_if is_os_error
        (do text ← host.read_text "/proc/filesystems"; pure (contains "wekafs" text))
        (λ e. pure false)

  abbrev refuse_auth : Exc → Exec W (Unit {0})
  unfolding message
  refuse_auth (auth_error reason) = raise (manila_error (message (auth_error reason)))
  refuse_auth e = pure tt

  -- `check_for_setup_error`, of a driver that has its client
  unfoldable pub check_for_setup_error : Options → Exec W (Unit {0})
  unfolding missing_options wekafs_available refuse_auth join
  check_for_setup_error o = elim (missing_options o) [
    | [] ↦ wekafs_available >> catching (weka.get_cluster_status admin >> pure tt) refuse_auth
    | name ∷ names ↦ raise (invalid_input (join ", " (name ∷ names)))
  ]
