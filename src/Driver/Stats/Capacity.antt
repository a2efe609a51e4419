-- ===== src/Driver/Stats/Capacity.antt =====
-- driver.py and utils.py: the capacities that `_update_share_stats` reports.
use manila_weka_driver.Prelude.{ℕ, ◌+◌, ◌-◌, ◌*◌, ◌^◌, ◌≤◌, ◌<◌, ◌≡◌, String, arith}
use manila_weka_driver.Driver.Stats.{bytes_to_gb, Reserves, stats_of}

-- Hundredths of a GiB are to the nearest.
pub bytes_to_gb_nearest :
    (size : ℕ)
    → (bytes_to_gb size * 2 ^ 30 ≤ size * 100 + 2 ^ 29)
      × (size * 100 ≤ bytes_to_gb size * 2 ^ 30 + 2 ^ 29)
unfolding bytes_to_gb
bytes_to_gb_nearest size = ground arith

bytes_to_gb_mono : (a b : ℕ) → a ≤ b → bytes_to_gb a ≤ bytes_to_gb b
unfolding bytes_to_gb
bytes_to_gb_mono a b h = ground arith

bytes_to_gb_zero : (n : ℕ) → n ≡ 0 → bytes_to_gb n ≡ 0
unfolding bytes_to_gb
bytes_to_gb_zero n h = ground arith

-- Where the cluster reports a total below 2**53 bytes, which a float holds exactly, the statistics
-- never report more free capacity than total capacity, whatever it reports as used; with everything
-- used they report none as free; the total is within a half of a hundredth of a GiB of what the
-- cluster reports.
pub stats_of_bounds :
    (group_name : String) (reserves : Reserves) (total used : ℕ)
    → total < 2 ^ 53
    → let s = stats_of group_name reserves total used in
      (s.free_capacity_gb ≤ s.total_capacity_gb)
      × (total ≤ used → s.free_capacity_gb ≡ 0)
      × (s.total_capacity_gb * 2 ^ 30 ≤ total * 100 + 2 ^ 29)
      × (total * 100 ≤ s.total_capacity_gb * 2 ^ 30 + 2 ^ 29)
unfolding stats_of
stats_of_bounds group_name reserves total used exact = (
  bytes_to_gb_mono (total - used) total (omega arith),
  (λ h. bytes_to_gb_zero (total - used) (omega arith)),
  (bytes_to_gb_nearest total).0,
  (bytes_to_gb_nearest total).1,
)
