-- ===== src/Tests/Hosts.antt =====
-- The test host's mounts behave as `MountTable` says.
use manila_weka_driver.Prelude.{
  ◌≡◌, refl, ◌∙◌, String, Bool, true, false, not, ◌||◌, Option, none, some, List, [], ◌∷◌, ◌==◌,
  eq_iff, arith, if◌then◌else◌, inl, inr, Bool-cases,
}
use manila_weka_driver.Text.Split.{words}
use manila_weka_driver.Exceptions.{process_error}
use manila_weka_driver.Exec.{ok, err}
use manila_weka_driver.Exec.Rules.{Meets, Ends}
use manila_weka_driver.Host.{wekafs_mount, umount}
use manila_weka_driver.Posix.{is_mount_fields, mounted_in}
use manila_weka_driver.Posix.Stacking.{times, Mountable}
use manila_weka_driver.Posix.Mounting.{MountTable, Points, point_set}
use manila_weka_driver.Driver.{assign}
use manila_weka_driver.Driver.Orgs.Cache.{lookup-assign}
use manila_weka_driver.Tests.Cluster.{Cluster, mount_lines, mount_line, unmounted, mounted_at, host}

fields_two :
    (p q : String) (fs : List String)
    → is_mount_fields p fs ≡ true
    → is_mount_fields q fs ≡ (p == q)
unfolding is_mount_fields
fields_two p q [] h = cc
fields_two p q (a ∷ []) h = cc
fields_two p q (a ∷ b ∷ []) h = cc
fields_two p q (device ∷ path ∷ kind ∷ rest) h =
    ground (arith, eq_iff path p, eq_iff path q, eq_iff p q)

fields_same :
    (p q : String) (fs : List String)
    → (p == q) ≡ true
    → is_mount_fields p fs ≡ false
    → is_mount_fields q fs ≡ false
fields_same p q fs e h = rw ((eq_iff p q).0 e) at h

table_after :
    (lines : List String) (w : Cluster) → mount_lines (assign "/proc/mounts" lines w) ≡ lines
table_after lines w = rw lookup-assign

abbrev Seen : Points → Cluster → Type 0
Seen v w = (q : String) → mounted_in q (mount_lines w) ≡ v q

mounted_more :
    (v : Points) (point line : String) (w : Cluster)
    → is_mount_fields point (words line) ≡ true
    → Seen v w
    → Seen (point_set v point true) (assign "/proc/mounts" (line ∷ mount_lines w) w)
unfolding mounted_in
mounted_more v point line w e h = λ q.
    rw (table_after (line ∷ mount_lines w) w) (ground (arith, fields_two point q (words line), h q))

unmounted_lem :
    (point q : String) (lines : List String)
    → mounted_in q (unmounted point lines) ≡ (if point == q then false else mounted_in q lines)
unfolding mounted_in unmounted
unmounted_lem point q [] = ground arith
unmounted_lem point q (line ∷ lines) = elim (Bool-cases (is_mount_fields point (words line))) [
  | inl gone ↦
      rw gone (ground (arith, unmounted_lem point q lines, fields_two point q (words line)))
  | inr kept ↦
      rw kept (ground (arith, unmounted_lem point q lines, fields_same point q (words line)))
]

mounting :
    (v : Points) (point line : String) (w : Cluster) (b : Bool)
    → is_mount_fields point (words line) ≡ b
    → Seen v w
    → Ends {S = Cluster} {A = Unit {0}}
        (λ _. Seen (point_set v point true))
        (Seen v)
        (if b || not ("wekafs" == "wekafs")
          then (ok tt, assign "/proc/mounts" (line ∷ mount_lines w) w)
          else (err (process_error "mount"), w))
mounting v point line w true e h = mounted_more v point line w e h
mounting v point line w false e h = h

pub mount_lem :
    (source point : String) (options : Option String) (v : Points)
    → Meets
        (Seen v)
        (wekafs_mount host source point options)
        (λ _. Seen (point_set v point true))
        (Seen v)
unfolding wekafs_mount
mount_lem source point none v = record {
  at = λ w h. mounting v point (mount_line "wekafs" point) w _ refl h;
}
mount_lem source point (some options) v = record {
  at = λ w h. mounting v point (mount_line "wekafs" point) w _ refl h;
}

pub umounted :
    (point : String) (v : Points) (w : Cluster)
    → Seen v w
    → Seen (point_set v point false) (assign "/proc/mounts" (unmounted point (mount_lines w)) w)
umounted point v w h = λ q.
    rw (table_after (unmounted point (mount_lines w)) w)
      (unmounted_lem point q (mount_lines w) ∙ ground (arith, h q))

pub umount_lem :
    (point : String) (lazy : Bool) (v : Points)
    → Meets (Seen v) (umount host point lazy) (λ _. Seen (point_set v point false)) (Seen v)
unfolding umount
umount_lem point true v = record { at = λ w h. umounted point v w h }
umount_lem point false v = record { at = λ w h. umounted point v w h }

abbrev pub mount_table : MountTable host
mount_table = record {
  lines = mount_lines;
  reads = λ w. refl;
  makes_dirs = λ path v. record { at = λ w h. h };
  mounts = mount_lem;
  umounts = umount_lem;
}

-- It mounts and unmounts one point as `Mountable` says, whose name is a field of its lines.
times_none : (point : String) (lines : List String) → times point (unmounted point lines) ≡ 0
unfolding unmounted
times_none point [] = refl
times_none point (line ∷ lines) = ground (arith, times_none point lines)

module _ (point : String)
    (named : is_mount_fields point (words (mount_line "wekafs" point)) ≡ true) where
  one_more :
      (w : Cluster)
      → times point (mount_lines w) ≡ 0
      → Ends {S = Cluster} {A = Unit {0}}
          (λ _ s. times point (mount_lines s) ≡ 1)
          (λ s. times point (mount_lines s) ≡ 0)
          (mounted_at "wekafs" point w)
  one_more w h =
      rw (named, table_after (mount_line "wekafs" point ∷ mount_lines w) w)
        (rw named (omega (arith, h)))

  mounts_one :
      (source : String) (options : Option String)
      → Meets
          (λ s. times point (mount_lines s) ≡ 0)
          (wekafs_mount host source point options)
          (λ _ s. times point (mount_lines s) ≡ 1)
          (λ s. times point (mount_lines s) ≡ 0)
  unfolding wekafs_mount
  mounts_one source none = record { at = one_more }
  mounts_one source (some options) = record { at = one_more }

  none_left :
      (w : Cluster)
      → times point (mount_lines (assign "/proc/mounts" (unmounted point (mount_lines w)) w)) ≡ 0
  none_left w =
      rw (table_after (unmounted point (mount_lines w)) w) (times_none point (mount_lines w))

  umounts_one :
      (lazy : Bool)
      → Meets
          (λ s. times point (mount_lines s) ≡ 1)
          (umount host point lazy)
          (λ _ s. times point (mount_lines s) ≡ 0)
          (λ s. times point (mount_lines s) ≡ 1)
  unfolding umount
  umounts_one true = record { at = λ w h. none_left w }
  umounts_one false = record { at = λ w h. none_left w }

  pub mountable : Mountable host point
  mountable = record {
    lines = mount_lines;
    reads = λ w. refl;
    makes_dirs = λ n. record { at = λ w h. h };
    mounts = mounts_one;
    umounts = umounts_one;
  }
