-- ===== src/Driver/Deletion/Unmounted.antt =====
-- driver.py: `delete_share` deletes no filesystem under its mount.
use manila_weka_driver.Prelude.{
  ◌≡◌, refl, ◌∙◌, String, true, false, eq_refl, none, some, [], ◌∷◌, arith,
}
use manila_weka_driver.Exceptions.{is_not_found}
use manila_weka_driver.Exec.{catching_if}
use manila_weka_driver.Exec.Rules.{
  Keeps, Keeps-pure, Keeps-raise, Keeps-lift, Keeps-bind, Keeps-if, Keeps-catching,
  Keeps-catching_if, Keeps-on_option, Keeps-Meets, Meets, Meets-bind, Meets-Keeps, Meets-if,
  Meets-pure, Meets-and, Meets-weaken, ends_into, Meets-catching,
}
use manila_weka_driver.Json.{Json, truthy, index}
use manila_weka_driver.Weka.{Handle}
use manila_weka_driver.Host.{umount}
use manila_weka_driver.Posix.{WekaMount, weka_mount, is_mounted, unmount, is_process_error}
use manila_weka_driver.Posix.Mounting.{MountTable, points, is_mounted_lem, unmount-Sees}
use manila_weka_driver.Driver.{Env, Share, is_isolated_wekafs}
use manila_weka_driver.Driver.Names.{share_name}
use manila_weka_driver.Driver.Orgs.Frame.{Opens, calling-Held, client_for_share-Held}
use manila_weka_driver.Driver.Policies.{Level, read_write, read_only, policy_uid, ignoring}
use manila_weka_driver.Driver.Resolve.Frame.{find_filesystem-Keeps}
use manila_weka_driver.Driver.Deletion.{
  mount_point, if_truthy, discard_policy, cleanup_level, cleanup_wekafs_policies, release_mount,
  delete_found, delete_share,
}

-- What a deletion may do without breaking `P`: of a filesystem, only while `point` has no mount.
pub record Deletes {W : Type 0} (env : Env W) (table : MountTable env.host) (P : W → Type 0)
    (point : String) : Type 0 where
  pub opens : Opens env P
  pub by_name : (h : Handle) (name : String) → Keeps P (env.weka.get_filesystem_by_name h name)
  pub policy : (h : Handle) (name : String) → Keeps P (env.weka.get_security_policy_by_name h name)
  pub detach :
      (h : Handle) (fs uid : Json) → Keeps P (env.weka.detach_fs_security_policies h fs (uid ∷ []))
  pub policy_gone : (h : Handle) (uid : Json) → Keeps P (env.weka.delete_security_policy h uid)
  pub unmounting : Keeps P (umount env.host point true)
  pub filesystem_gone :
      (h : Handle) (uid : Json)
      → Meets
          (λ w. P w × (points env.host table w point ≡ false))
          (env.weka.delete_filesystem h uid)
          (λ _. P)
          P

module _ {W : Type 0} (env : Env W) (table : MountTable env.host) (P : W → Type 0) (share : Share)
    (deletes : Deletes env table P (mount_point env.config (share_name env.config share.id))) where
  abbrev point : String
  point = mount_point env.config (share_name env.config share.id)

  discard_policy-Keeps :
      (h : Handle) (uid pol : Json) → Keeps P (discard_policy env h share.id uid pol)
  unfolding discard_policy
  discard_policy-Keeps h uid pol = Keeps-bind _ _ (Keeps-lift (policy_uid pol)) λ found.
      Keeps-bind _ _
        (Keeps-if (truthy uid) _ _
          (λ _.
            Keeps-catching _ _ (Keeps-bind _ _ (deletes.detach h uid found) λ _. Keeps-pure tt)
              (λ e. Keeps-pure tt))
          (λ _. Keeps-pure tt))
        λ _.
          Keeps-catching _ _ (Keeps-bind _ _ (deletes.policy_gone h found) λ _. Keeps-pure tt)
            (λ e. Keeps-pure tt)

  cleanup_level-Keeps :
      (h : Handle) (uid : Json) (level : Level) → Keeps P (cleanup_level env h share.id uid level)
  unfolding cleanup_level
  cleanup_level-Keeps h uid level =
      Keeps-bind _ _ (Keeps-catching _ _ (deletes.policy h _) (λ e. Keeps-pure none)) λ found.
        Keeps-on_option (if_truthy found) _ _ (λ _. Keeps-pure tt)
          λ pol _. discard_policy-Keeps h uid pol

  cleanup-Keeps : (h : Handle) (uid : Json) → Keeps P (cleanup_wekafs_policies env h share.id uid)
  unfolding cleanup_wekafs_policies
  cleanup-Keeps h uid =
      Keeps-bind _ _ (cleanup_level-Keeps h uid read_write) λ _. cleanup_level-Keeps h uid read_only

  unmount-Keeps : (m : WekaMount) → m.mount_point ≡ point → Keeps P (unmount env.host m true)
  unfolding unmount
  unmount-Keeps m e = Keeps-bind _ _ (is_mounted-Keeps m.mount_point) λ b.
      Keeps-if b _ _
        (λ _.
          Keeps-catching_if is_process_error _ _ (rw e deletes.unmounting) (λ x _. Keeps-raise _))
        λ _. Keeps-pure tt
    where
      is_mounted-Keeps : (p : String) → Keeps P (is_mounted env.host p)
      is_mounted-Keeps p = record { at = λ w k. rw (is_mounted_lem env.host table p w) k }

  abbrev Free : W → Type 0
  Free w = P w × (points env.host table w point ≡ false)

  is_mounted-Points :
      (p : String)
      → Meets P (is_mounted env.host p) (λ b w. P w × (points env.host table w p ≡ b)) P
  is_mounted-Points p = record { at = λ w k. rw (is_mounted_lem env.host table p w) (k, refl) }

  unmount-Free :
      (m : WekaMount) → m.mount_point ≡ point → Meets P (unmount env.host m true) (λ _. Free) P
  unmount-Free m e = record {
    at = λ w p.
        ends_into _ _ _ _ (unmount env.host m true w)
          (λ a x (sees, k). (k, ground (arith, sees point, eq_refl point))) (λ x (sees, k). k)
          ((Meets-and _ (unmount-Sees env.host table m true (points env.host table w))
              (unmount-Keeps m e)).at
            w (λ q. refl, p));
  }

  release_mount-Free : Meets P (release_mount env (share_name env.config share.id)) (λ _. Free) P
  unfolding release_mount
  release_mount-Free = Meets-bind _ _ (is_mounted-Points point) λ b.
      Meets-if b _ _
        (λ there.
          Meets-weaken _ (λ w (p, _). p) (λ a w q. q) (λ w r. r)
            (unmount-Free
              (weka_mount (some env.config.api_server) (share_name env.config share.id) point)
              refl))
        λ absent. Meets-pure tt (λ w (p, e). (p, e ∙ absent))

  delete_released :
      (h : Handle) (uid : Json)
      → Meets Free (ignoring is_not_found (env.weka.delete_filesystem h uid)) (λ _. P) P
  unfolding catching_if
  delete_released h uid =
      Meets-catching _ _
        (Meets-bind _ _ (deletes.filesystem_gone h uid) λ _. Meets-pure tt (λ w k. k))
        λ e. Meets-Keeps _ (Keeps-if (is_not_found e) _ _ (λ _. Keeps-pure tt) (λ _. Keeps-raise e))

  delete_found-Keeps : (h : Handle) (fs : Json) → Keeps P (delete_found env h share fs)
  unfolding delete_found
  delete_found-Keeps h fs = Keeps-bind _ _ (Keeps-lift (index "uid" fs)) λ uid.
      Keeps-bind _ _
        (Keeps-if (is_isolated_wekafs share) _ _
          (λ _. Keeps-catching _ _ (cleanup-Keeps h uid) (λ e. Keeps-pure tt)) (λ _. Keeps-pure tt))
        λ _. Keeps-Meets _ (Meets-bind _ _ release_mount-Free λ _. delete_released h uid)

-- `delete_share` keeps, whether it returns or raises, every property of a cluster and a host as in
-- `Deletes` that is kept by opening an organization, by looking filesystems and policies up, by
-- detaching and deleting policies, by unmounting the share's mount point, and by deleting a
-- filesystem while that mount point is not mounted.
pub delete_share-Keeps :
    {W : Type 0} (env : Env W) (table : MountTable env.host) (P : W → Type 0) (share : Share)
    → Deletes env table P (mount_point env.config (share_name env.config share.id))
    → Keeps (λ d. P d.weka) (delete_share env share)
unfolding delete_share
delete_share-Keeps env table P share deletes =
    Keeps-bind _ _ (client_for_share-Held env P deletes.opens share) λ h.
      Keeps-bind _ _ (calling-Held env P _ (find_filesystem-Keeps env P deletes.by_name h _))
        λ found.
          Keeps-on_option found _ _ (λ _. Keeps-pure tt)
            λ fs _. calling-Held env P _ (delete_found-Keeps env table P share deletes h fs)
