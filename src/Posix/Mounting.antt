-- ===== src/Posix/Mounting.antt =====
-- posix.py: what `mount` and `unmount` do to the table of mounts, over a host that meets
-- `MountTable`.
use manila_weka_driver.Prelude.{
  ◌≡◌, sym, ◌∙◌, String, Bool, true, false, ◌==◌, eq_iff, Option, none, some, List, arith,
  if◌then◌else◌,
}
use manila_weka_driver.Text.Split.{join}
use manila_weka_driver.Exceptions.{Exc}
use manila_weka_driver.Exec.{ok, Exec, raise, catching_if, ◌>>=◌}
use manila_weka_driver.Exec.Rules.{
  Keeps, Meets, Meets-bind, Meets-if, Meets-pure, Meets-from, Meets-catching, Keeps-pure,
  Keeps-raise, Keeps-bind, Keeps-gets, Keeps-if, Keeps-catching_if, Meets-Keeps,
}
use manila_weka_driver.Host.{Host, wekafs_mount, umount}
use manila_weka_driver.Posix.{
  WekaMount, is_process_error, is_os_error, mounted_in, mount_source, build_mount_options,
  is_mounted, ensure_mount_point_dir, mount, unmount,
}

-- Whether a point has a WekaFS mount.
abbrev pub Points : Type 0
Points = String → Bool

abbrev pub point_set : Points → String → Bool → Points
point_set v point b q = if point == q then b else v q

-- The condition of these lemmas on a host: the table can be read, names every point as the driver
-- does, with no white space escaped and no link resolved, and has no two mounts of one point; `mount`
-- and `umount` change the one point, or nothing if they fail.
pub record MountTable {S : Type 0} (host : Host S) : Type 0 where
  pub lines : S → List String
  pub reads : (s : S) → host.read_lines "/proc/mounts" s ≡ (ok (lines s), s)
  pub makes_dirs :
      (path : String) (v : Points)
      → Keeps (λ s. (q : String) → mounted_in q (lines s) ≡ v q) (host.make_dirs path none)
  pub mounts :
      (source point : String) (options : Option String) (v : Points)
      → Meets
          (λ s. (q : String) → mounted_in q (lines s) ≡ v q)
          (wekafs_mount host source point options)
          (λ _ s. (q : String) → mounted_in q (lines s) ≡ point_set v point true q)
          (λ s. (q : String) → mounted_in q (lines s) ≡ v q)
  pub umounts :
      (point : String) (lazy : Bool) (v : Points)
      → Meets
          (λ s. (q : String) → mounted_in q (lines s) ≡ v q)
          (umount host point lazy)
          (λ _ s. (q : String) → mounted_in q (lines s) ≡ point_set v point false q)
          (λ s. (q : String) → mounted_in q (lines s) ≡ v q)

-- An error that is made into another changes nothing.
pub Meets-relabel :
    {S A : Type 0} {P : S → Type 0} {Q : A → S → Type 0} {R : S → Type 0} (c : Exc → Bool)
    (m : Exec S A) (f : Exc → Exc)
    → Meets P m Q R
    → Meets P (catching_if c m (λ e. raise (f e))) Q R
unfolding catching_if raise
Meets-relabel {Q} {R} c m f h = Meets-catching {R = R} m _ h λ e.
    Meets-if {Q = Q} {R = R} (c e) _ _ (λ _. record { at = λ s r. r })
      (λ _. record { at = λ s r. r })

module _ {S : Type 0} (host : Host S) (table : MountTable host) where
  -- The mounts of a state.
  abbrev pub points : S → Points
  points s q = mounted_in q (table.lines s)

  abbrev pub Sees : Points → S → Type 0
  Sees v s = (q : String) → points s q ≡ v q

  pub is_mounted_lem : (point : String) (s : S) → is_mounted host point s ≡ (ok (points s point), s)
  unfolding is_mounted catching_if ◌>>=◌
  is_mounted_lem point s = rw (table.reads s)

  is_mounted-Sees :
      (v : Points) (point : String)
      → Meets (Sees v) (is_mounted host point) (λ b s. Sees v s × (b ≡ v point)) (Sees v)
  is_mounted-Sees v point = record { at = λ s sees. rw (is_mounted_lem point s) (sees, sees point) }

  as_before :
      (v : Points) (point : String) (b : Bool) (s : S)
      → Sees v s
      → v point ≡ b
      → Sees (point_set v point b) s
  as_before v point b s h e = λ q. ground (arith, h q, eq_iff point q)

  ensure_dir-Sees : (v : Points) (path : String) → Keeps (Sees v) (ensure_mount_point_dir host path)
  unfolding ensure_mount_point_dir
  ensure_dir-Sees v path = Keeps-bind _ _ (Keeps-gets _) λ found.
      Keeps-if found _ _ (λ _. Keeps-pure tt)
        λ _. Keeps-catching_if is_os_error _ _ (table.makes_dirs path v) (λ e _. Keeps-raise _)

  -- `mount` leaves its point mounted and every other point as it was; where it raises, all is as it
  -- was.
  pub mount-Sees :
      (m : WekaMount) (v : Points)
      → Meets (Sees v) (mount host m) (λ _. Sees (point_set v m.mount_point true)) (Sees v)
  unfolding mount
  mount-Sees m v = Meets-bind _ _ (is_mounted-Sees v m.mount_point) λ b.
      Meets-if b _ _
        (λ there. Meets-pure tt (λ s (h, e). as_before v m.mount_point true s h (sym e ∙ there)))
        λ absent.
          Meets-from _ (λ s (h, e). (h, λ a s' q. q))
            (Meets-bind _ _ (Meets-Keeps _ (ensure_dir-Sees v m.mount_point)) λ _.
              Meets-relabel is_process_error _ _ (
                table.mounts (mount_source m) m.mount_point
                  (some (join "," (build_mount_options m))) v))

  -- `unmount` leaves its point unmounted and every other point as it was; where it raises, all is
  -- as it was.
  pub unmount-Sees :
      (m : WekaMount) (force : Bool) (v : Points)
      → Meets (Sees v) (unmount host m force) (λ _. Sees (point_set v m.mount_point false)) (Sees v)
  unfolding unmount
  unmount-Sees m force v = Meets-bind _ _ (is_mounted-Sees v m.mount_point) λ b.
      Meets-if b _ _
        (λ there.
          Meets-from _ (λ s (h, e). (h, λ a s' q. q))
            (Meets-relabel is_process_error _ _ (table.umounts m.mount_point force v)))
        λ absent. Meets-pure tt (λ s (h, e). as_before v m.mount_point false s h (sym e ∙ absent))
