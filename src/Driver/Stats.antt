-- ===== src/Driver/Stats.antt =====
-- driver.py and utils.py: `_update_share_stats` and `get_backend_info`. `bytes_to_gb` rounds a
-- float to two places; here it is a number of hundredths, which below 2 ** 53 bytes is the decimal
-- that the float prints as.
pub mod Capacity
use manila_weka_driver.Prelude.{
  ℕ, ◌+◌, ◌-◌, ◌*◌, ◌/◌, ◌%◌, ◌^◌, String, Bool, true, false, ◌||◌, ◌&&◌, Option, none, some, List,
  [], ◌∷◌, ltb, nat_eq, if◌then◌else◌,
}
use manila_weka_driver.Exec.{Result, ok, err, Exec, pure, lift, catching, ◌>>=◌}
use manila_weka_driver.Json.{Json, num, dict, get_or, truthy, as_number}
use manila_weka_driver.Weka.{admin}
use manila_weka_driver.Driver.{Config, Env}

-- `bytes_to_gb`, in hundredths of a GiB: to the nearest, a tie to the even one. This is what the
-- source computes of a size below 2 ** 53 bytes, 8 PiB, which its float holds exactly; a larger size
-- is rounded to a float first, which is not modelled.
unfoldable pub bytes_to_gb : ℕ → ℕ
bytes_to_gb size =
    let q = size * 100 / 2 ^ 30 in
    let r = size * 100 % 2 ^ 30 in
    if ltb (2 ^ 29) r || (nat_eq r (2 ^ 29) && nat_eq (q % 2) 1) then q + 1 else q

-- `d.get(key, default) or 0`
unfoldable pub number_at : String → ℕ → Json → Result ℕ
unfolding get_or truthy as_number
number_at key default d = elim (get_or key (num default) d) [
  | err e ↦ err e
  | ok v ↦ if truthy v then as_number v else ok 0
]

-- The options that the statistics pass on.
pub record Reserves : Type 0 where
  pub reserved_percentage : ℕ
  pub reserved_snapshot_percentage : ℕ
  pub reserved_share_extend_percentage : ℕ
  pub max_over_subscription_ratio : String

pub record Pool : Type 0 where
  pub pool_name : String
  pub total_capacity_gb : ℕ
  pub free_capacity_gb : ℕ
  pub reserves : Reserves

-- The statistics; the constants among them (vendor, version, protocols, flags) are left out.
pub record ShareStats : Type 0 where
  pub total_capacity_gb : ℕ
  pub free_capacity_gb : ℕ
  pub reserves : Reserves
  pub pools : List Pool

unfoldable pub stats_of : String → Reserves → (total used : ℕ) → ShareStats
unfolding bytes_to_gb
stats_of group_name reserves total used =
    let total_gb = bytes_to_gb total in
    let free_gb = bytes_to_gb (total - used) in
    record {
      total_capacity_gb = total_gb;
      free_capacity_gb = free_gb;
      reserves = reserves;
      pools =
          record {
            pool_name = group_name;
            total_capacity_gb = total_gb;
            free_capacity_gb = free_gb;
            reserves = reserves;
          }
          ∷ [];
    }

module _ {W : Type 0} (env : Env W) where
  -- `_update_share_stats`; capacity that cannot be read is none
  unfoldable pub update_share_stats : Reserves → Exec W ShareStats
  unfolding number_at stats_of
  update_share_stats reserves = do
    capacity ← catching (env.weka.get_capacity admin) (λ e. pure (dict []))
    total ← lift (number_at "totalBytes" 0 capacity)
    used ← lift (number_at "usedBytes" 0 capacity)
    pure (stats_of env.config.filesystem_group reserves total used)

-- `get_backend_info`
unfoldable pub get_backend_info : Config → List (String × String)
get_backend_info c =
    ("weka_api_server", c.api_server) ∷ ("weka_mount_point_base", c.mount_point_base) ∷ []
