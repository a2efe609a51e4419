-- ===== src/Driver/Adoption.antt =====
-- driver.py: `manage_existing` adopts a filesystem as an NFS share.
pub mod Size
use manila_weka_driver.Prelude.{
  ℕ, ◌/◌, String, Bool, true, false, Option, none, some, List, [], ◌∷◌, ◌==◌, ltb, if◌then◌else◌,
}
use manila_weka_driver.Text.Paths.{after_last}
use manila_weka_driver.Exceptions.{manage_invalid_share}
use manila_weka_driver.Exec.{
  Result, ok, err, Exec, pure, raise, lift, catching, on_option, ◌>>=◌, ◌>>◌,
}
use manila_weka_driver.Json.{Json, null, num, str, get, get_or, or_else, truthy, as_number}
use manila_weka_driver.Weka.{admin}
use manila_weka_driver.Driver.{Env, Share, Location, is_isolated_wekafs}
use manila_weka_driver.Driver.Nfs.{remove_all_nfs_permissions}
use manila_weka_driver.Driver.Resolve.{find_filesystem, build_export_locations}
use manila_weka_driver.Driver.Stats.{bytes_to_gb}

-- The last part of the first path that is not empty.
unfoldable pub managed_name : List Location → String
unfolding after_last
managed_name [] = ""
managed_name (loc ∷ locs) =
    let rest = managed_name locs in if loc.path == "" then rest else after_last b'/' loc.path

-- `fs.get('total_budget', fs.get('totalCapacity', 0)) or 0`
unfoldable pub budget : Json → Result ℕ
unfolding get_or truthy as_number
budget fs = elim (get_or "totalCapacity" (num 0) fs) [
  | err e ↦ err e
  | ok old ↦ elim (get_or "total_budget" old fs) [
    | err e ↦ err e
    | ok v ↦ if truthy v then as_number v else ok 0
  ]
]

-- `max(1, int(bytes_to_gb(size_bytes)))`
unfoldable pub managed_size : ℕ → ℕ
unfolding bytes_to_gb
managed_size size_bytes = let gb = bytes_to_gb size_bytes / 100 in if ltb 1 gb then gb else 1

-- `fs.get('uid') or fs.get('id', '')`
unfoldable pub managed_uid : Json → Result Json
unfolding get get_or truthy
managed_uid fs = elim (get "uid" fs) [
  | err e ↦ err e
  | ok found ↦
      if truthy (or_else found null) then ok (or_else found null) else get_or "id" (str "") fs
]

pub record Managed : Type 0 where
  pub size : ℕ
  pub export_locations : List Location

module _ {W : Type 0} (env : Env W) where
  unfoldable pub adopt : Share → String → Json → Exec W Managed
  unfolding budget managed_uid managed_size build_export_locations remove_all_nfs_permissions
  adopt share fs_name fs = do
    size_bytes ← lift (budget fs)
    fs_uid ← lift (managed_uid fs)
    let locations = build_export_locations env share fs_name fs_uid false
    catching (remove_all_nfs_permissions env fs_name) (λ e. pure tt)
    pure (record { size = managed_size size_bytes; export_locations = locations })

  -- `manage_existing`
  unfoldable pub manage_existing : Share → Exec W Managed
  unfolding is_isolated_wekafs managed_name find_filesystem adopt
  manage_existing share =
      if is_isolated_wekafs share
      then raise (manage_invalid_share "Managing existing WEKAFS shares is not supported")
      else if managed_name share.export_locations == ""
      then raise (manage_invalid_share "Cannot determine filesystem name")
      else (do
        let fs_name = managed_name share.export_locations
        found ← find_filesystem env admin fs_name
        on_option found (raise (manage_invalid_share fs_name)) (adopt share fs_name))

-- `unmanage`, which only logs
unfoldable pub unmanage : {W : Type 0} → Share → Exec W (Unit {0})
unmanage share = pure tt
