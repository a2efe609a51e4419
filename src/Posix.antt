-- ===== src/Posix.antt =====
-- posix.py: `WekaMount`, over the host. The lock of a mount point makes each method one step.
use Prim.Native.Char.{code}
pub mod Table
pub mod Mounting
pub mod Context
pub mod Stacking
use Prim.Native.String
use manila_weka_driver.Prelude.{
  ℕ, String, Bool, true, false, not, ◌&&◌, Option, none, some, List, [], ◌∷◌, ◌++◌, ◌==◌, any,
  nat_eq, if◌then◌else◌,
}
use manila_weka_driver.Text.{◌⁺⁺◌, show_ℕ}
use manila_weka_driver.Text.Paths.{strip_slashes, join_path}
use manila_weka_driver.Text.Split.{words, join}
use manila_weka_driver.Exceptions.{
  Exc, mount_error, unmount_error, process_error, os_error, message,
}
use manila_weka_driver.Exec.{
  Result, ok, Exec, pure, raise, gets, catching, catching_if, finally, ◌>>=◌, ◌>>◌,
}
use manila_weka_driver.Host.{Host, wekafs_mount, umount}

pub record WekaMount : Type 0 where
  pub backends : Option String
  pub fs_name : String
  pub mount_point : String
  pub auth_token_path : Option String
  pub num_cores : ℕ
  pub net : Option String
  pub read_cache : Bool
  pub writecache : Bool
  pub sync_on_close : Bool
  pub max_io_size : Option ℕ
  pub iops_limit : Option ℕ

-- The defaults of the constructor.
abbrev pub weka_mount : (backends : Option String) → (fs_name mount_point : String) → WekaMount
weka_mount backends fs_name mount_point = record {
  backends = backends;
  fs_name = fs_name;
  mount_point = mount_point;
  auth_token_path = none;
  num_cores = 1;
  net = none;
  read_cache = true;
  writecache = false;
  sync_on_close = false;
  max_io_size = none;
  iops_limit = none;
}

abbrev pub is_process_error : Exc → Bool
is_process_error (process_error reason) = true
is_process_error _ = false

abbrev pub is_os_error : Exc → Bool
is_os_error (os_error reason) = true
is_os_error _ = false

-- An option for a text that is not empty, one for a number, and one for a flag.
abbrev pub text_option : String → Option String → List String
text_option key none = []
text_option key (some String.[]) = []
text_option key (some value) = (key ⁺⁺ value) ∷ []

abbrev pub number_option : String → Option ℕ → List String
unfolding show_ℕ
number_option key none = []
number_option key (some value) = (key ⁺⁺ show_ℕ value) ∷ []

abbrev pub flag_option : String → Bool → List String
flag_option key b = if b then key ∷ [] else []

-- `_build_mount_options`
unfoldable pub build_mount_options : WekaMount → List String
unfolding show_ℕ number_option
build_mount_options m =
    ("num_cores=" ⁺⁺ show_ℕ m.num_cores)
    ∷ (text_option "auth_token_path=" m.auth_token_path
        ++ (text_option "net=" m.net
            ++ (flag_option "readcache=off" (not m.read_cache)
                ++ (flag_option "writecache" m.writecache
                    ++ (flag_option "sync_on_close" m.sync_on_close
                        ++ (number_option "max_io_size=" m.max_io_size
                            ++ number_option "iops_limit=" m.iops_limit))))))

unfoldable pub mount_source : WekaMount → String
mount_source m = elim m.backends [
  | none ↦ m.fs_name
  | some String.[] ↦ m.fs_name
  | some backends ↦ backends ⁺⁺ ("/" ⁺⁺ m.fs_name)
]

-- The fields of a line of /proc/mounts: device, mount point, type, and others.
unfoldable pub is_mount_fields : String → List String → Bool
is_mount_fields point (device ∷ path ∷ kind ∷ rest) = path == point && kind == "wekafs"
is_mount_fields point _ = false

unfoldable pub mounted_in : String → List String → Bool
unfolding is_mount_fields words
mounted_in point lines = any (λ line. is_mount_fields point (words line)) lines

module _ {S : Type 0} (host : Host S) where
  -- `is_mounted`
  unfoldable pub is_mounted : String → Exec S Bool
  unfolding mounted_in
  is_mounted point =
      catching_if is_os_error
        (host.read_lines "/proc/mounts" >>= λ lines. pure (mounted_in point lines))
        (λ e. pure false)

  -- `_ensure_mount_point_dir`
  unfoldable pub ensure_mount_point_dir : String → Exec S (Unit {0})
  unfolding message
  ensure_mount_point_dir path = do
    found ← gets (host.is_dir path)
    if found
        then pure tt
        else catching_if is_os_error (host.make_dirs path none) (λ e.
          raise (mount_error ("Cannot create mount point " ⁺⁺ (path ⁺⁺ (": " ⁺⁺ message e)))))

  -- `mount`
  unfoldable pub mount : WekaMount → Exec S (Unit {0})
  unfolding is_mounted ensure_mount_point_dir mount_source build_mount_options wekafs_mount join
      message
  mount m = do
    mounted ← is_mounted m.mount_point
    if mounted then pure tt else (do
      ensure_mount_point_dir m.mount_point
      catching_if is_process_error
          (wekafs_mount host (mount_source m) m.mount_point
            (some (join "," (build_mount_options m))))
          (λ e. raise (mount_error ("mount command failed: " ⁺⁺ message e))))

  -- `unmount`
  unfoldable pub unmount : WekaMount → (force : Bool) → Exec S (Unit {0})
  unfolding is_mounted umount message
  unmount m force = do
    mounted ← is_mounted m.mount_point
    if mounted
        then catching_if is_process_error (umount host m.mount_point force)
            (λ e. raise (unmount_error ("umount command failed: " ⁺⁺ message e)))
        else pure tt

  -- `with WekaMount(…): body`: the exit tries to unmount and lets its failure pass.
  unfoldable pub with_mount : {A : Type 0} → WekaMount → Exec S A → Exec S A
  unfolding mount unmount
  with_mount m body = mount m >> finally body (catching (unmount m false) (λ e. pure tt))

  -- `get_or_create_share_path`
  unfoldable pub get_or_create_share_path :
      (mount_point sub_path : String) (mode : ℕ) → Exec S String
  unfolding strip_slashes join_path message
  get_or_create_share_path mount_point sub_path mode = do
    let path = join_path mount_point (strip_slashes sub_path)
    found ← gets (host.is_dir path)
    if found
        then catching_if is_os_error (host.chmod path mode) (λ e. pure tt)
        else catching_if is_os_error (host.make_dirs path (some mode)) (λ e.
          raise
            (mount_error ("Failed to create share directory " ⁺⁺ (path ⁺⁺ (": " ⁺⁺ message e)))))
    pure path

  -- `remove_share_path`
  unfoldable pub remove_share_path :
      (mount_point sub_path : String) (force : Bool) → Exec S (Unit {0})
  unfolding strip_slashes join_path message
  remove_share_path mount_point sub_path force = do
    let path = join_path mount_point (strip_slashes sub_path)
    there ← gets (host.exists path)
    if there
        then catching_if is_os_error (if force then host.remove_tree path else host.remove_dir path)
            (λ e.
              raise (
                mount_error ("Failed to remove share directory " ⁺⁺ (path ⁺⁺ (": " ⁺⁺ message e)))))
        else pure tt

  -- `get_directory_inode`
  unfoldable pub get_directory_inode : String → Exec S ℕ
  unfolding message
  get_directory_inode path =
      catching_if is_os_error (host.inode path)
        (λ e. raise (mount_error ("Failed to stat " ⁺⁺ (path ⁺⁺ (": " ⁺⁺ message e)))))
