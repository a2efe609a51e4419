-- ===== src/Driver/Access.antt =====
-- driver.py: `update_access`, which tells the two modes of Manila's contract apart and dispatches on
-- the protocol.
use manila_weka_driver.Prelude.{Bool, true, false, List, [], ◌∷◌, ◌++◌, if◌then◌else◌}
use manila_weka_driver.Exec.{Exec}
use manila_weka_driver.Driver.{Env, Driver, Share, Rule, is_nfs, calling}
use manila_weka_driver.Driver.Wekafs.{States, update_wekafs_access}
use manila_weka_driver.Driver.Nfs.{update_nfs_access}

abbrev is_empty : List Rule → Bool
is_empty [] = true
is_empty (rule ∷ rules) = false

-- `full_sync`: nothing to add, delete or update
unfoldable pub is_full_sync : (add delete update : List Rule) → Bool
is_full_sync add delete update = is_empty (add ++ (delete ++ update))

module _ {W : Type 0} (env : Env W) where
  -- `update_access`
  unfoldable pub update_access :
      Share → (access_rules add delete update : List Rule) → Exec (Driver W) States
  unfolding is_full_sync is_nfs calling
  update_access share access_rules add delete update =
      let full_sync = is_full_sync add delete update in
      let apply = (if full_sync then access_rules else add) ++ update in
      if is_nfs share
      then calling (update_nfs_access env share apply delete full_sync)
      else update_wekafs_access env share apply delete full_sync
