-- ===== src/Driver/Names/Limits.antt =====
-- driver.py: the 32 characters that the cluster allows in a name, and when they are kept.
use manila_weka_driver.Prelude.{ℕ, ◌-◌, ◌≤◌, String, arith}
use manila_weka_driver.Text.{len, take, undashed, len-take, len-append}
use manila_weka_driver.Driver.{Config}
use manila_weka_driver.Driver.Names.{share_name, snapshot_name, slice_to}

slice_to-len : (b : ℕ) (s : String) → b ≤ 32 → len (slice_to 32 b s) ≤ 32 - b
unfolding slice_to
slice_to-len b s h = ground (arith, len-take (32 - b) s)

-- With a prefix of at most 32 characters, a share's filesystem name has at most 32.
pub len-share_name :
    (c : Config) (share_id : String)
    → len c.share_name_prefix ≤ 32
    → len (share_name c share_id) ≤ 32
unfolding share_name
len-share_name c share_id h =
    let rest = slice_to 32 (len c.share_name_prefix) (undashed share_id) in
    omega (
      arith,
      len-append c.share_name_prefix rest,
      slice_to-len (len c.share_name_prefix) (undashed share_id) h,
    )

-- A snapshot's name has at most 32 characters.
pub len-snapshot_name : (snapshot_id : String) → len (snapshot_name snapshot_id) ≤ 32
unfolding snapshot_name
len-snapshot_name snapshot_id =
    omega
      (arith, len-append "s_" (take 30 (undashed snapshot_id)), len-take 30 (undashed snapshot_id))
