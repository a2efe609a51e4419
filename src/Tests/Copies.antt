-- ===== src/Tests/Copies.antt =====
-- The test host makes and removes directories as a copy expects, and an instance of what is proved
-- of the copy's mounts.
use manila_weka_driver.Prelude.{
  ◌≡◌, refl, sym, ◌∙◌, String, Bool, true, false, ◌||◌, ◌==◌, eq_iff, eq_refl, List, ◌∷◌, arith,
  if◌then◌else◌,
}
use manila_weka_driver.Exceptions.{os_error}
use manila_weka_driver.Exec.{ok, err}
use manila_weka_driver.Exec.Rules.{Keeps, Meets, Ends, ends_into}
use manila_weka_driver.Host.{umount, rsync}
use manila_weka_driver.Posix.{mounted_in}
use manila_weka_driver.Posix.Mounting.{Points, Sees}
use manila_weka_driver.Posix.Context.{Unmounts}
use manila_weka_driver.Driver.{lookup, assign}
use manila_weka_driver.Driver.Policies.{member}
use manila_weka_driver.Driver.Orgs.Cache.{lookup-assign}
use manila_weka_driver.Driver.Transfer.{wekafs_copy}
use manila_weka_driver.Driver.Clones.Mounts.{CopyHost, wekafs_copy-Restores}
use manila_weka_driver.Tests.Cluster.{Cluster, addresses, mount_lines, new_dir, host, env}
use manila_weka_driver.Tests.Hosts.{mount_table, umounted}
use manila_weka_driver.Tests.Driver.{job}

abbrev Seen : Points → Cluster → Type 0
Seen v w = (q : String) → mounted_in q (mount_lines w) ≡ v q

abbrev dirs : Cluster → List String
dirs w = addresses (lookup "directories" w)

lines_after :
    (ds : List String) (w : Cluster) → mount_lines (assign "directories" ds w) ≡ mount_lines w
lines_after ds w = rw lookup-assign

dirs_after : (ds : List String) (w : Cluster) → dirs (assign "directories" ds w) ≡ ds
dirs_after ds w = rw lookup-assign

Seen-assign :
    (ds : List String) (v : Points) (w : Cluster) → Seen v w → Seen v (assign "directories" ds w)
Seen-assign ds v w h = λ q. rw (lines_after ds w) (h q)

abbrev Fresh : Points → String → Cluster → Type 0
Fresh v q w = Seen v w × (v q ≡ false) × (member q (dirs w) ≡ true)

made :
    (v : Points) (path : String) (w : Cluster) (known mounted : Bool)
    → member path (dirs w) ≡ known
    → mounted_in path (mount_lines w) ≡ mounted
    → Seen v w
    → Ends
        (λ q w'. Fresh v q w' × ((p : String) → member p (dirs w) ≡ true → (p == q) ≡ false))
        (Seen v)
        (if known || mounted
          then (err (os_error "mkdtemp"), w)
          else (ok path, assign "directories" (path ∷ dirs w) w))
made v path w true mounted d m h = h
made v path w false true d m h = h
made v path w false false d m h = (
  (
    Seen-assign _ v w h,
    sym (h path) ∙ m,
    rw (dirs_after (path ∷ dirs w) w) (ground (arith, eq_refl path)),
  ),
  λ p there. ground (arith, eq_iff p path),
)

abbrev new_dir_lem :
    (v : Points) (path : String) (w : Cluster)
    → Seen v w
    → Ends
        (λ q w'. Fresh v q w' × ((p : String) → member p (dirs w) ≡ true → (p == q) ≡ false))
        (Seen v)
        (new_dir path w)
new_dir_lem v path w h = made v path w _ _ refl refl h

first :
    (v : Points) (path : String)
    → Meets
        (Seen v)
        (new_dir path)
        (λ q w. Seen v w × (v q ≡ false) × (member q (dirs w) ≡ true))
        (Seen v)
first v path = record {
  at = λ w h.
      ends_into _ _ _ _ (new_dir path w) (λ q w' (fresh, other). fresh) (λ w' h'. h')
        (new_dir_lem v path w h);
}

next :
    (v : Points) (path p : String)
    → Meets
        (λ w. Seen v w × (v p ≡ false) × (member p (dirs w) ≡ true))
        (new_dir path)
        (λ q w. Seen v w × (v p ≡ false) × (v q ≡ false) × ((p == q) ≡ false))
        (Seen v)
next v path p = record {
  at = λ w (h, free, there).
      ends_into
        (λ q w'. Fresh v q w' × ((p : String) → member p (dirs w) ≡ true → (p == q) ≡ false))
        (λ q w'. Seen v w' × (v p ≡ false) × (v q ≡ false) × ((p == q) ≡ false)) (Seen v) (Seen v)
        (new_dir path w) (λ q w' ((seen, free', known), other). (seen, free, free', other p there))
        (λ w' h'. h') (new_dir_lem v path w h);
}

unmounts : Unmounts host mount_table
unfolding umount
unmounts = record { sure = λ point v there. record { at = λ w h. umounted point v w h } }

laws : CopyHost host mount_table
unfolding rsync
laws = record {
  unmounts = unmounts;
  first_dir = λ prefix v. first v _;
  next_dir = λ prefix p v. next v _ p;
  copies = λ source target v. record { at = λ w h. h };
  removes = λ path v. record { at = λ w h. h };
}

wekafs_copy-Restores_example :
    Keeps (Sees host mount_table (λ q. q == "/mnt/a")) (wekafs_copy env job "/tokens/abc.json")
wekafs_copy-Restores_example =
    wekafs_copy-Restores env mount_table laws job "/tokens/abc.json" (λ q. q == "/mnt/a")
