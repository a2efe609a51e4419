-- ===== src/Driver/Clones/Mounts.antt =====
-- driver.py: the temporary mounts of a copy of a WEKAFS share.
use manila_weka_driver.Prelude.{◌≡◌, String, true, false, ◌==◌, arith}
use manila_weka_driver.Exec.Rules.{
  Keeps, Keeps-pure, Keeps-bind, Keeps-lift, Keeps-catching, Keeps-Meets, Meets, Meets-bind,
  Meets-Keeps, Meets-finally,
}
use manila_weka_driver.Host.{Host, rsync}
use manila_weka_driver.Posix.{with_mount}
use manila_weka_driver.Posix.Mounting.{Points, point_set, MountTable, Sees}
use manila_weka_driver.Posix.Context.{Unmounts, with_mount-Restores}
use manila_weka_driver.Driver.{Env}
use manila_weka_driver.Driver.Transfer.{
  Job, best_effort, rsync_snapshot, copy_data, temp_mount, wekafs_copy,
}

-- What the host does for a copy: a temporary directory is new, so it is no mount point; copying and
-- removing a directory leave the mounts.
pub record CopyHost {S : Type 0} (host : Host S) (table : MountTable host) : Type 0 where
  pub unmounts : Unmounts host table
  pub first_dir :
      (prefix : String) (v : Points)
      → Meets
          (Sees host table v)
          (host.make_temp_dir prefix)
          (λ q s. Sees host table v s × (v q ≡ false) × (host.exists q s ≡ true))
          (Sees host table v)
  pub next_dir :
      (prefix p : String) (v : Points)
      → Meets
          (λ s. Sees host table v s × (v p ≡ false) × (host.exists p s ≡ true))
          (host.make_temp_dir prefix)
          (λ q s. Sees host table v s × (v p ≡ false) × (v q ≡ false) × ((p == q) ≡ false))
          (Sees host table v)
  pub copies :
      (source target : String) (v : Points) → Keeps (Sees host table v) (rsync host source target)
  pub removes : (path : String) (v : Points) → Keeps (Sees host table v) (host.remove_dir path)

module _ {W : Type 0} (env : Env W) (table : MountTable env.host) (laws : CopyHost env.host table)
    (job : Job) where
  copy_data-Sees :
      (source target : String) (v : Points)
      → Keeps (Sees env.host table v) (copy_data env job source target)
  unfolding copy_data rsync_snapshot
  copy_data-Sees source target v = Keeps-bind _ _ (Keeps-lift _) λ point. laws.copies _ _ v

  best_effort-Sees :
      (path : String) (v : Points)
      → Keeps (Sees env.host table v) (best_effort (env.host.remove_dir path))
  best_effort-Sees path v =
      Keeps-catching _ _ (Keeps-bind _ _ (laws.removes path v) λ _. Keeps-pure tt)
        (λ e. Keeps-pure tt)

  nested_free :
      (v : Points) (p q : String) → v q ≡ false → (p == q) ≡ false → point_set v p true q ≡ false
  nested_free v p q free apart = ground arith

  mounted_copy-Sees :
      (source target token : String) (v : Points)
      → v source ≡ false
      → v target ≡ false
      → (source == target) ≡ false
      → Keeps (Sees env.host table v) (
          with_mount env.host (temp_mount env job.src_fs_name source token) (
            with_mount env.host
              (temp_mount env job.new_fs_name target token)
              (copy_data env job source target)))
  mounted_copy-Sees source target token v free free' apart =
      with_mount-Restores env.host table laws.unmounts _ _ v free (
        with_mount-Restores env.host table laws.unmounts _ _ (point_set v source true)
          (nested_free v source target free' apart) (copy_data-Sees source target _))

  -- Whatever fails in a copy of a WEKAFS share, and where nothing does, the host has the mounts that
  -- it had before, if `umount` of a mounted point does not fail.
  pub wekafs_copy-Restores :
      (token : String) (v : Points) → Keeps (Sees env.host table v) (wekafs_copy env job token)
  unfolding wekafs_copy
  wekafs_copy-Restores token v = Keeps-Meets _ (
      Meets-bind _ _ (laws.first_dir "manila_weka_snap_src_" v) λ source.
        Meets-bind _ _ (laws.next_dir "manila_weka_snap_dst_" source v) λ target. record {
          at = λ s (sees, free, free', apart).
              (Meets-finally _ _ (mounted_copy-Sees source target token v free free' apart) (
                  Meets-Keeps _
                    (Keeps-bind _ _ (best_effort-Sees source v) λ _. best_effort-Sees target v))).at
                s sees;
        })
