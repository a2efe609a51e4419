-- ===== src/Posix/Context.antt =====
-- posix.py: a mount as a context manager.
use manila_weka_driver.Prelude.{◌≡◌, ◌∙◌, String, Bool, true, false, eq_iff, eq_refl, arith}
use manila_weka_driver.Exec.{Exec}
use manila_weka_driver.Exec.Rules.{
  Keeps, Keeps-Meets, Meets, Meets-bind, Meets-if, Meets-weaken, Meets-catching, Meets-finally,
}
use manila_weka_driver.Host.{Host, umount}
use manila_weka_driver.Posix.{WekaMount, is_process_error, is_mounted, unmount, with_mount}
use manila_weka_driver.Posix.Mounting.{
  Points, point_set, MountTable, Meets-relabel, Sees, is_mounted_lem, mount-Sees,
}

-- `umount` of a point that is mounted succeeds.
pub record Unmounts {S : Type 0} (host : Host S) (table : MountTable host) : Type 0 where
  pub sure :
      (point : String) (v : Points)
      → v point ≡ true
      → Meets
          (Sees host table v)
          (umount host point false)
          (λ _. Sees host table (point_set v point false))
          (λ _. ⊥)

module _ {S : Type 0} (host : Host S) (table : MountTable host)
    (unmounts : Unmounts host table) where
  mounted_known :
      (point : String) (v : Points)
      → Meets
          (Sees host table v)
          (is_mounted host point)
          (λ b s. Sees host table v s × (b ≡ v point))
          (λ _. ⊥)
  mounted_known point v = record {
    at = λ s sees. rw (is_mounted_lem host table point s) (sees, sees point);
  }

  unmount_sure :
      (m : WekaMount) (v : Points)
      → v m.mount_point ≡ true
      → Meets
          (Sees host table v)
          (unmount host m false)
          (λ _. Sees host table (point_set v m.mount_point false))
          (λ _. ⊥)
  unfolding unmount
  unmount_sure m v there = Meets-bind _ _ (mounted_known m.mount_point v) λ b.
      Meets-if b _ _
        (λ _.
          Meets-weaken _ (λ s h. h.0) (λ a s h. h) (λ s h. h)
            (Meets-relabel is_process_error _ _ (unmounts.sure m.mount_point v there)))
        λ absent. record { at = λ s (h, e). absurd (clash b (v m.mount_point) absent there e) }
    where
      clash : (b c : Bool) → b ≡ false → c ≡ true → b ≡ c → ⊥
      clash b c x y e = ground arith

  taken_back :
      (v : Points) (point : String) (s : S)
      → v point ≡ false
      → Sees host table (point_set (point_set v point true) point false) s
      → Sees host table v s
  taken_back v point s free h = λ q. h q ∙ ground (arith, eq_iff point q)

  pub with_mount-Restores :
      {A : Type 0} (m : WekaMount) (body : Exec S A) (v : Points)
      → v m.mount_point ≡ false
      → Keeps (Sees host table (point_set v m.mount_point true)) body
      → Keeps (Sees host table v) (with_mount host m body)
  unfolding with_mount
  with_mount-Restores m body v free k = Keeps-Meets _ (
      Meets-bind _ _ (mount-Sees host table m v) λ _. Meets-finally body _ k (
        Meets-catching {R = λ _. ⊥} _ _
          (Meets-weaken _ (λ s h. h) (λ a s h. taken_back v m.mount_point s free h) (λ s h. h)
            (unmount_sure m (point_set v m.mount_point true)
              (ground (arith, eq_refl m.mount_point))))
          λ e. record { at = λ s no. absurd no }))
