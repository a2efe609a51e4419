-- ===== src/Driver/Resolve.antt =====
-- driver.py: the UID of a share's filesystem, its creation and its export location.
pub mod Frame
use manila_weka_driver.Prelude.{
  ℕ, String, Bool, false, ◌||◌, ◌==◌, Option, none, some, List, [], ◌∷◌, ◌++◌, nat_eq,
  if◌then◌else◌,
}
use Prim.Native.Char.{code}
use manila_weka_driver.Text.{◌⁺⁺◌}
use manila_weka_driver.Text.Paths.{has, after_last, after_first, strip_slashes}
use manila_weka_driver.Exceptions.{
  Exc, share_not_found, share_backend, conflict, capacity_error, message,
}
use manila_weka_driver.Exec.{Exec, pure, raise, lift, catching, ◌>>=◌}
use manila_weka_driver.Json.{Json, str, truthy, index}
use manila_weka_driver.Weka.{Handle}
use manila_weka_driver.Driver.{Config, Env, Share, Location, lookup}
use manila_weka_driver.Driver.Names.{share_name, org_name, org_mount_user}

-- The filesystem's name in an export path.
unfoldable pub path_name : String → String
unfolding after_last after_first strip_slashes
path_name path =
    let candidate = after_last b'/' path in
    if has b':' candidate then strip_slashes (after_first b':' candidate) else candidate

-- The UID in the export metadata, if a location has one that is not empty.
unfoldable pub cached_uid : List Location → Option Json
unfolding lookup truthy
cached_uid [] = none
cached_uid (loc ∷ locs) =
    let rest = cached_uid locs in
    elim (lookup "weka_fs_uid" loc.metadata) [
      | none ↦ rest
      | some uid ↦ if truthy uid then some uid else rest
    ]

-- `self.configuration.safe_get('weka_nfs_server') or backends`
abbrev nfs_host : Config → String
nfs_host c = elim c.nfs_server [
  | none ↦ c.api_server
  | some s ↦ if s == "" then c.api_server else s
]

module _ {W : Type 0} (env : Env W) where
  -- `fs = client.get_filesystem_by_name(name); if fs: …`
  unfoldable pub find_filesystem : Handle → String → Exec W (Option Json)
  unfolding truthy
  find_filesystem client name = do
    found ← env.weka.get_filesystem_by_name client name
    elim found [ none ↦ pure none | some fs ↦ if truthy fs then pure (some fs) else pure none ]

  -- The last part of `_get_fs_uid_for_share`: by the names in the export paths.
  unfoldable pub uid_by_paths : Handle → String → List Location → Exec W Json
  unfolding path_name find_filesystem index
  uid_by_paths client share_id [] = raise (share_not_found share_id)
  uid_by_paths client share_id (loc ∷ locs) =
      let rest = uid_by_paths client share_id locs in
      if loc.path == "" || path_name loc.path == "" then rest else do
        found ← find_filesystem client (path_name loc.path)
        elim found [ some fs ↦ lift (index "uid" fs) | none ↦ rest ]

  -- `_get_fs_uid_for_share`
  unfoldable pub fs_uid_for_share : Handle → Share → Exec W Json
  unfolding cached_uid share_name find_filesystem index uid_by_paths
  fs_uid_for_share client share = elim (cached_uid share.export_locations) [
    | some uid ↦ pure uid
    | none ↦ (do
      found ← find_filesystem client (share_name env.config share.id)
      elim found [
        | some fs ↦ lift (index "uid" fs)
        | none ↦ uid_by_paths client share.id share.export_locations
      ])
  ]

  -- The handlers of `_create_filesystem_idempotent`.
  unfoldable pub creation_failed : Handle → String → Exc → Exec W Json
  unfolding find_filesystem message
  creation_failed client fs_name (conflict reason) = do
    found ← find_filesystem client fs_name
    elim found [ some fs ↦ pure fs | none ↦ raise (conflict reason) ]
  creation_failed client fs_name (capacity_error reason) =
      raise (share_backend (message (capacity_error reason)))
  creation_failed client fs_name e = raise e

  -- `_create_filesystem_idempotent`
  unfoldable pub create_filesystem_idempotent :
      Handle → (fs_name group_name : String) (size_bytes : ℕ) (auth_required : Bool) → Exec W Json
  unfolding find_filesystem creation_failed
  create_filesystem_idempotent client fs_name group_name size_bytes auth_required = do
    existing ← find_filesystem client fs_name
    elim existing [
      | some fs ↦ pure fs
      | none ↦
          catching (env.weka.create_filesystem client fs_name group_name size_bytes auth_required)
            (creation_failed client fs_name)
    ]

  org_metadata : Share → List (String × Json)
  unfolding org_name org_mount_user
  org_metadata share = elim share.project_id [
    | none ↦ []
    | some p ↦
        if p == ""
        then []
        else ("weka_org_name", str (org_name env.config (some p)))
          ∷ ("weka_org_user", str (org_mount_user env.config))
          ∷ []
  ]

  -- `_build_export_locations`
  unfoldable pub build_export_locations :
      Share → (fs_name : String) (fs_uid : Json) (is_wekafs : Bool) → List Location
  unfolding org_metadata
  build_export_locations share fs_name fs_uid is_wekafs =
      let common : List (String × Json) =
        ("weka_fs_uid", fs_uid) ∷ ("weka_fs_name", str fs_name) ∷ [] in
      (if is_wekafs
        then record {
          path = env.config.api_server ⁺⁺ ("/" ⁺⁺ fs_name);
          metadata = common ++ org_metadata share;
        }
        else record { path = nfs_host env.config ⁺⁺ (":/" ⁺⁺ fs_name); metadata = common })
      ∷ []
