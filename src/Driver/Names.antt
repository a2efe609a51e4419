-- ===== src/Driver/Names.antt =====
-- driver.py: the names of filesystems, snapshots, organizations, policies and client groups, and
-- the credentials derived for a project.
pub mod Limits
pub mod Isolation
use manila_weka_driver.Prelude.{
  ℕ, ◌+◌, ◌-◌, ◌≤◌, ◌≡◌, String, Bool, Option, none, some, arith, leb, if◌then◌else◌,
}
use manila_weka_driver.Text.{◌⁺⁺◌, len, take, undashed, len-take, len-append}
use manila_weka_driver.Exceptions.{Exc, configuration_error}
use manila_weka_driver.Exec.{Result, ok, err}
use manila_weka_driver.Driver.{Config, Env}

-- `id_hex[:n]` for n = a - b, which counts from the end where it is negative
slice_to : ℕ → ℕ → String → String
unfolding take
slice_to a b s = if leb b a then take (a - b) s else take (len s - (b - a)) s

-- `_share_name`
unfoldable pub share_name : Config → String → String
unfolding undashed slice_to
share_name c share_id =
    c.share_name_prefix ⁺⁺ slice_to 32 (len c.share_name_prefix) (undashed share_id)

-- `_snapshot_name`
unfoldable pub snapshot_name : String → String
unfolding undashed take
snapshot_name snapshot_id = "s_" ⁺⁺ take 30 (undashed snapshot_id)

abbrev pub or_blank : Option String → String
or_blank none = ""
or_blank (some s) = s

-- `_org_name`
unfoldable pub org_name : Config → Option String → String
unfolding undashed
org_name c project_id = c.org_prefix ⁺⁺ undashed (or_blank project_id)

module _ {W : Type 0} (env : Env W) where
  -- `_derive_password`
  unfoldable pub derive_password : Option String → String → Result String
  unfolding take
  derive_password project_id tag = elim env.config.org_admin_secret [
    | String.[] ↦ err (configuration_error "weka_org_admin_secret is not set")
    | String.◌∷◌ c s ↦ ok (
        "Wk"
        ⁺⁺ (take 20 (env.hmac_sha256 env.config.org_admin_secret (or_blank project_id ⁺⁺ tag))
            ⁺⁺ "1!"))
  ]

  -- `_org_password`
  unfoldable pub org_password : Option String → Result String
  unfolding derive_password
  org_password project_id = derive_password project_id ""

  -- `_org_mount_password`
  unfoldable pub org_mount_password : Option String → Result String
  unfolding derive_password
  org_mount_password project_id = derive_password project_id ":mount"

-- `_org_mount_user`
unfoldable pub org_mount_user : Config → String
org_mount_user c = c.org_user ⁺⁺ "-mnt"

-- `_wekafs_policy_name`, at the level's text
unfoldable pub wekafs_policy_name : String → String → String
unfolding take
wekafs_policy_name share_id level = "manila-" ⁺⁺ (take 8 share_id ⁺⁺ ("-" ⁺⁺ level))

-- `_nfs_cg_name` with an access ID, and without one, the prefix
unfoldable pub nfs_cg_name : String → Option String → String
unfolding take
nfs_cg_name share_id access_id =
    "manila-" ⁺⁺ (take 8 share_id ⁺⁺ ("-" ⁺⁺ take 8 (or_blank access_id)))

-- `_group_policy_name`
unfoldable pub group_policy_name : String → String → String
group_policy_name group level = "manila-grp-" ⁺⁺ (group ⁺⁺ ("-" ⁺⁺ level))
