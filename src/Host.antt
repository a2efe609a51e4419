-- ===== src/Host.antt =====
-- What the driver and its mount helper take from the host: `processutils.execute`, files and
-- directories, the network's own address, and Manila's retry decorator. They are parameters; the
-- commands themselves are those of manila/privsep/weka.py, below.
use manila_weka_driver.Prelude.{
  ℕ, String, Bool, Option, none, some, List, [], ◌∷◌, ◌++◌, if◌then◌else◌,
}
use manila_weka_driver.Exec.{Exec}
use manila_weka_driver.Json.{Json}

pub record Host (S : Type 0) : Type 0 where
  -- a command that fails raises ProcessExecutionError
  pub execute : List String → Exec S (Unit {0})
  -- the lines and the text of a file
  pub read_lines : String → Exec S (List String)
  pub read_text : String → Exec S String
  pub is_dir : String → S → Bool
  pub exists : String → S → Bool
  pub make_dirs : String → (mode : Option ℕ) → Exec S (Unit {0})
  pub chmod : String → ℕ → Exec S (Unit {0})
  pub remove_dir : String → Exec S (Unit {0})
  pub remove_tree : String → Exec S (Unit {0})
  pub inode : String → Exec S ℕ
  -- `tempfile.mkdtemp` and `mkstemp`, `json.dump` into a file, `os.replace`, `os.unlink`
  pub make_temp_dir : (prefix : String) → Exec S String
  pub make_temp_file : (dir prefix suffix : String) → Exec S String
  pub write_json : String → Json → Exec S (Unit {0})
  pub replace : String → String → Exec S (Unit {0})
  pub unlink : String → Exec S (Unit {0})
  -- the address of the route to a server, and that of the host's name
  pub route_address : String → Exec S String
  pub own_address : Exec S String
  -- `manila.utils.retry` with the settings of `_nfs_mount_with_retry`
  pub retry : Exec S (Unit {0}) → Exec S (Unit {0})

module _ {S : Type 0} (host : Host S) where
  -- `nfs_mount`
  unfoldable pub nfs_mount : (export mount_path : String) → Exec S (Unit {0})
  nfs_mount export mount_path = host.execute ("mount" ∷ "-t" ∷ "nfs" ∷ export ∷ mount_path ∷ [])

  abbrev pub option_words : Option String → List String
  option_words none = []
  option_words (some options) = "-o" ∷ options ∷ []

  -- `wekafs_mount`; a caller passes None or options that are not empty
  unfoldable pub wekafs_mount : (source mount_path : String) → Option String → Exec S (Unit {0})
  wekafs_mount source mount_path options =
      host.execute
        ("mount" ∷ "-t" ∷ "wekafs" ∷ (option_words options ++ (source ∷ mount_path ∷ [])))

  -- `umount`
  unfoldable pub umount : String → (lazy : Bool) → Exec S (Unit {0})
  umount mount_path lazy =
      host.execute ("umount" ∷ ((if lazy then "-l" ∷ [] else []) ++ (mount_path ∷ [])))

  -- `rsync`
  unfoldable pub rsync : (source target : String) → Exec S (Unit {0})
  rsync source target = host.execute ("rsync" ∷ "-a" ∷ "--omit-dir-times" ∷ source ∷ target ∷ [])
