-- ===== src/Driver/Adoption/Size.antt =====
-- driver.py: the size that `manage_existing` reports of a filesystem.
use manila_weka_driver.Prelude.{ℕ, ◌+◌, ◌/◌, ◌^◌, ◌≤◌, arith}
use manila_weka_driver.Driver.Stats.Capacity.{bytes_to_gb_nearest}
use manila_weka_driver.Driver.Adoption.{managed_size}

-- A managed share has at least one GiB and at least the whole GiB of its filesystem, and at most one
-- GiB more than these.
pub managed_size_bounds :
    (size_bytes : ℕ)
    → (1 ≤ managed_size size_bytes)
      × (size_bytes / 2 ^ 30 ≤ managed_size size_bytes)
      × (managed_size size_bytes ≤ size_bytes / 2 ^ 30 + 1)
unfolding managed_size
managed_size_bounds size_bytes = ground (arith, bytes_to_gb_nearest size_bytes)
