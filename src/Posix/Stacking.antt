-- ===== src/Posix/Stacking.antt =====
-- posix.py: `mount` and `unmount` never stack the mounts of one point.
use manila_weka_driver.Prelude.{
  ℕ, zero, suc, ◌≡◌, ◌≤◌, refl, String, Bool, Option, none, some, List, [], ◌∷◌, ltb, arith,
  if◌then◌else◌,
}
use manila_weka_driver.Text.Split.{words, join}
use manila_weka_driver.Exec.{ok, Exec, catching_if, ◌>>=◌, ◌>>◌}
use manila_weka_driver.Exec.Rules.{
  Keeps, Meets, Meets-bind, Meets-if, Meets-pure, Meets-Keeps, Meets-weaken, Keeps-pure,
  Keeps-raise, Keeps-bind, Keeps-gets, Keeps-if, Keeps-catching_if,
}
use manila_weka_driver.Host.{Host, wekafs_mount, umount}
use manila_weka_driver.Posix.{
  WekaMount, is_process_error, is_os_error, is_mount_fields, mounted_in, mount_source,
  build_mount_options, is_mounted, ensure_mount_point_dir, mount, unmount,
}
use manila_weka_driver.Posix.Mounting.{Meets-relabel}

-- How many WekaFS mounts a table has at a point.
abbrev pub times : String → List String → ℕ
times point [] = 0
times point (line ∷ lines) =
    let rest = times point lines in if is_mount_fields point (words line) then suc rest else rest

mounted_in-times :
    (point : String) (lines : List String) → mounted_in point lines ≡ ltb 0 (times point lines)
unfolding mounted_in
mounted_in-times point [] = refl
mounted_in-times point (line ∷ lines) = ground (arith, mounted_in-times point lines)

-- A host whose table can be read and names the point as it is called. Over a point with no mount,
-- `mount` adds one or fails; `umount` takes the one mount of a point away or fails.
pub record Mountable {S : Type 0} (host : Host S) (point : String) : Type 0 where
  pub lines : S → List String
  pub reads : (s : S) → host.read_lines "/proc/mounts" s ≡ (ok (lines s), s)
  pub makes_dirs : (n : ℕ) → Keeps (λ s. times point (lines s) ≡ n) (host.make_dirs point none)
  pub mounts :
      (source : String) (options : Option String)
      → Meets
          (λ s. times point (lines s) ≡ 0)
          (wekafs_mount host source point options)
          (λ _ s. times point (lines s) ≡ 1)
          (λ s. times point (lines s) ≡ 0)
  pub umounts :
      (lazy : Bool)
      → Meets
          (λ s. times point (lines s) ≡ 1)
          (umount host point lazy)
          (λ _ s. times point (lines s) ≡ 0)
          (λ s. times point (lines s) ≡ 1)

module _ {S : Type 0} (host : Host S) (m : WekaMount) where
  -- Mounting some times, and then unmounting.
  abbrev pub mounted_times : ℕ → (force : Bool) → Exec S (Unit {0})
  mounted_times zero force = unmount host m force
  mounted_times (suc n) force = mount host m >> mounted_times n force

  module _ (table : Mountable host m.mount_point) where
    abbrev pub Has : (ℕ → Type 0) → S → Type 0
    Has P s = P (times m.mount_point (table.lines s))

    abbrev pub AtMostOne : S → Type 0
    AtMostOne = Has (λ n. n ≤ 1)

    sees :
        Meets AtMostOne
          (is_mounted host m.mount_point)
          (λ b s. AtMostOne s × (b ≡ ltb 0 (times m.mount_point (table.lines s))))
          AtMostOne
    unfolding is_mounted catching_if ◌>>=◌
    sees = record {
      at = λ s h. rw (table.reads s) (h, mounted_in-times m.mount_point (table.lines s));
    }

    ensure_dir-Keeps :
        (n : ℕ) → Keeps (Has (λ k. k ≡ n)) (ensure_mount_point_dir host m.mount_point)
    unfolding ensure_mount_point_dir
    ensure_dir-Keeps n = Keeps-bind _ _ (Keeps-gets _) λ found.
        Keeps-if found _ _ (λ _. Keeps-pure tt)
          λ _. Keeps-catching_if is_os_error _ _ (table.makes_dirs n) (λ e _. Keeps-raise _)

    mount-One : Meets AtMostOne (mount host m) (λ _. Has (λ n. n ≡ 1)) AtMostOne
    unfolding mount
    mount-One = Meets-bind _ _ sees λ b.
        Meets-if b _ _ (λ there. Meets-pure tt (λ s (h, e). ground (arith, h, e, there)))
          λ absent.
            Meets-weaken {P = Has (λ n. n ≡ 0)} _ (λ s (h, e). ground (arith, h, e, absent))
              (λ a s h. h) (λ s h. omega (arith, h))
              (Meets-bind _ _ (Meets-Keeps _ (ensure_dir-Keeps 0)) λ _.
                Meets-relabel is_process_error _ _
                  (table.mounts (mount_source m) (some (join "," (build_mount_options m)))))

    unmount-None :
        (force : Bool) → Meets AtMostOne (unmount host m force) (λ _. Has (λ n. n ≡ 0)) AtMostOne
    unfolding unmount
    unmount-None force = Meets-bind _ _ sees λ b.
        Meets-if b _ _
          (λ there.
            Meets-weaken {P = Has (λ n. n ≡ 1)} _ (λ s (h, e). ground (arith, h, e, there))
              (λ a s h. h) (λ s h. omega (arith, h))
              (Meets-relabel is_process_error _ _ (table.umounts force)))
          λ absent. Meets-pure tt (λ s (h, e). ground (arith, h, e, absent))

  -- Where the table of mounts can be read and a point has at most one mount, mounting it any number
  -- of times and then unmounting it leaves it without a mount; where a step raises, it still has at
  -- most one.
  pub mounted_times-None :
      (table : Mountable host m.mount_point) (n : ℕ) (force : Bool)
      → Meets
          (AtMostOne table)
          (mounted_times n force)
          (λ _. Has table (λ k. k ≡ 0))
          (AtMostOne table)
  mounted_times-None table zero force = unmount-None table force
  mounted_times-None table (suc n) force = Meets-bind _ _ (mount-One table) λ _.
      Meets-weaken _ (λ s h. omega (arith, h)) (λ a s h. h) (λ s h. h)
        (mounted_times-None table n force)
