-- ===== src/Tests/Cluster.antt =====
-- A cluster for tests: its security policies are a list of named address lists, and every call that
-- the tests do not use raises.
use manila_weka_driver.Prelude.{
  Bool, true, not, ◌||◌, ℕ, ltb, if◌then◌else◌, String, Option, none, some, List, [], ◌∷◌, ◌==◌,
}
use manila_weka_driver.Exceptions.{attribute_error, process_error, os_error}
use manila_weka_driver.Exec.{Result, ok, err}
use manila_weka_driver.Json.{Json, str, num, null, arr, texts, dict}
use manila_weka_driver.Weka.{Weka}
use manila_weka_driver.Host.{Host}
use manila_weka_driver.Text.{◌⁺⁺◌}
use manila_weka_driver.Text.Split.{words}
use manila_weka_driver.Posix.{is_mount_fields, mounted_in}
use manila_weka_driver.Driver.{Config, Env, Share, Rule, lookup, assign}
use manila_weka_driver.Driver.Policies.{without, member}
use manila_weka_driver.Driver.Names.{share_name}
use manila_weka_driver.Driver.Deletion.{mount_point}

abbrev pub Cluster : Type 0
Cluster = List (String × List String)

abbrev no_call : {A W : Type 0} → W → Result A × W
no_call w = (err (attribute_error "no call"), w)

abbrev pub addresses : Option (List String) → List String
addresses none = []
addresses (some ips) = ips

abbrev pub policy_json : String → List String → Json
policy_json name ips = dict (("uid", str name) ∷ ("ips", arr (texts ips)) ∷ [])

abbrev pub reported : String → List String → Option Json
reported name [] = none
reported name (ip ∷ ips) = some (policy_json name (ip ∷ ips))

abbrev pub name_of : Json → String
name_of (str s) = s
name_of v = ""

-- An update adds the addresses of one list and removes those of the other; the driver sends one.
abbrev pub updated : List String → List String → List String → List String
updated (ip ∷ rest) remove old = ip ∷ old
updated [] (ip ∷ rest) old = without ip old
updated [] [] old = old

abbrev pub change : Json → (List String → List String) → Cluster → Result Json × Cluster
change uid f w = (ok null, assign (name_of uid) (f (addresses (lookup (name_of uid) w))) w)

abbrev pub config : Config
config = record {
  share_name_prefix = "manila_";
  org_prefix = "manila-";
  org_user = "manila";
  org_admin_secret = "secret";
  nfs_server = none;
  api_server = "weka";
  filesystem_group = "default";
  policy_groups = [];
  mount_point_base = "/mnt";
  auth_token_dir = "/tokens";
  num_cores = 1;
  net_device = none;
}

abbrev pub share : Share
share = record {
  id = "11111111-2222-3333-4444-555555555555";
  share_proto = "WEKAFS";
  size = 1;
  project_id = some "abc";
  share_type_id = none;
  export_locations = [];
}

-- The host keeps its table of mounts in the cluster's list.
abbrev pub mount_lines : Cluster → List String
mount_lines w = addresses (lookup "/proc/mounts" w)

abbrev pub share_point : String
share_point = mount_point config (share_name config share.id)

-- A deletion under the mount of the share is noted.
abbrev pub after_deletion : Json → Bool → Cluster → Cluster
after_deletion uid mounted w =
    assign (if mounted then "deleted under its mount" else "deleted") (name_of uid ∷ []) w

-- Every filesystem of the cluster uses 3 GiB; a resize below that is noted.
abbrev pub used : ℕ
used = 3221225472

abbrev pub weka : Weka Cluster
weka = record {
  for_org = λ organization username password w. (ok 1, w);
  login = λ h w. (ok tt, w);
  auth_token_payload = λ h w. (ok (dict []), w);
  get_cluster_status = λ h. no_call;
  get_organization_by_name = λ h name w. (ok none, w);
  create_organization = λ h name username password w. (ok null, w);
  create_user = λ h username role password. no_call;
  list_filesystems = λ h. no_call;
  get_filesystem = λ h uid w. (ok (dict (("used_total", num used) ∷ [])), w);
  get_filesystem_by_name = λ h name w. (ok (some (dict (("uid", str name) ∷ []))), w);
  create_filesystem = λ h name group total auth. no_call;
  update_filesystem =
      λ h uid total w. (ok null, if ltb total used then assign "cut below use" [] w else w);
  delete_filesystem =
      λ h uid w. (ok null, after_deletion uid (mounted_in share_point (mount_lines w)) w);
  get_filesystem_group_by_name = λ h name w. (ok (some (dict (("uid", str name) ∷ []))), w);
  create_filesystem_group = λ h name. no_call;
  list_nfs_permissions = λ h w. (ok (arr (texts [])), w);
  create_nfs_permission = λ h group fs path access squash. no_call;
  delete_nfs_permission = λ h uid w. (ok null, ("deleted permission", name_of uid ∷ []) ∷ w);
  list_client_groups = λ h w. (ok (arr (texts [])), w);
  create_client_group = λ h name. no_call;
  add_client_group_rule = λ h uid kind value. no_call;
  get_client_group = λ h uid. no_call;
  delete_client_group_rule = λ h uid rule. no_call;
  delete_client_group = λ h uid. no_call;
  get_security_policy_by_name = λ h name w. (ok (reported name (addresses (lookup name w))), w);
  create_security_policy =
      λ h name ips action read_only w. (ok (policy_json name ips), assign name ips w);
  update_security_policy = λ h uid add remove. change uid (updated add remove);
  delete_security_policy = λ h uid. change uid (λ old. []);
  attach_fs_security_policies = λ h fs uids w. (ok null, w);
  detach_fs_security_policies = λ h fs uids w. (ok null, w);
  get_snapshot_by_name = λ h name fs. no_call;
  create_snapshot = λ h fs name writable. no_call;
  delete_snapshot = λ h uid. no_call;
  restore_snapshot = λ h snap fs. no_call;
  get_capacity = λ h. no_call;
}

-- A temporary directory that is there already, or has a mount, is refused.
abbrev pub new_dir : String → Cluster → Result String × Cluster
new_dir path w =
    if member path (addresses (lookup "directories" w)) || mounted_in path (mount_lines w)
    then (err (os_error "mkdtemp"), w)
    else (ok path, assign "directories" (path ∷ addresses (lookup "directories" w)) w)

-- Every directory of the host is one that can be mounted at.
abbrev pub last_word : List String → String
last_word [] = ""
last_word (s ∷ []) = s
last_word (s ∷ ss) = last_word ss

abbrev pub kind_of : List String → String
kind_of (a ∷ b ∷ kind ∷ rest) = kind
kind_of args = ""

abbrev pub mount_line : (kind point : String) → String
mount_line kind point = "weka " ⁺⁺ (point ⁺⁺ (" " ⁺⁺ (kind ⁺⁺ " rw 0 0")))

-- The lines without the WekaFS mounts of a point.
unfoldable pub unmounted : String → List String → List String
unmounted point [] = []
unmounted point (line ∷ lines) =
    let rest = unmounted point lines in
    if is_mount_fields point (words line) then rest else line ∷ rest

-- A mount whose line would not read back is refused.
abbrev pub mounted_at : String → String → Cluster → Result (Unit {0}) × Cluster
mounted_at kind point w =
    if is_mount_fields point (words (mount_line kind point)) || not (kind == "wekafs")
    then (ok tt, assign "/proc/mounts" (mount_line kind point ∷ mount_lines w) w)
    else (err (process_error "mount"), w)

abbrev pub command : List String → Cluster → Result (Unit {0}) × Cluster
command [] w = (ok tt, w)
command (name ∷ args) w =
    if name == "mount"
    then mounted_at (kind_of (name ∷ args)) (last_word args) w
    else if name == "umount"
    then (ok tt, assign "/proc/mounts" (unmounted (last_word args) (mount_lines w)) w)
    else (ok tt, w)

abbrev pub host : Host Cluster
host = record {
  execute = command;
  read_lines = λ path w. (ok (addresses (lookup path w)), w);
  read_text = λ path. no_call;
  is_dir = λ path w. true;
  exists = λ path w. member path (addresses (lookup "directories" w));
  make_dirs = λ path mode w. (ok tt, w);
  chmod = λ path mode w. (ok tt, w);
  remove_dir = λ path w. (ok tt, w);
  remove_tree = λ path w. (ok tt, w);
  inode = λ path. no_call;
  make_temp_dir = λ prefix. new_dir ("/tmp/" ⁺⁺ prefix);
  make_temp_file = λ dir prefix suffix w. (ok "/tokens/tmp", w);
  write_json = λ path v w. (ok tt, w);
  replace = λ source target w. (ok tt, w);
  unlink = λ path w. (ok tt, w);
  route_address = λ server w. (ok "10.0.0.9", w);
  own_address = no_call;
  retry = λ m. m;
}

abbrev pub env : Env Cluster
env = record {
  config = config;
  weka = weka;
  host = host;
  hmac_sha256 = λ key text. "0123456789abcdef0123456789abcdef";
  ipv4_network = λ value. none;
  is_ipv6 = λ value. value == "::1";
  extra_specs = λ type_id. ok [];
}

abbrev pub rule : Rule
rule = record {
  access_id = "aaaaaaaa-0000-0000-0000-000000000000";
  access_type = "ip";
  access_to = "10.0.0.1";
  access_level = "rw";
}

abbrev pub user_rule : Rule
user_rule = record {
  access_id = "bbbbbbbb-0000-0000-0000-000000000000";
  access_type = "user";
  access_to = "bob";
  access_level = "ro";
}
