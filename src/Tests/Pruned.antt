-- ===== src/Tests/Pruned.antt =====
-- A full sync of an NFS share leaves another filesystem's permission at the test gateway.
use manila_weka_driver.Prelude.{
  ◌≡◌, inl, inr, refl, String, ◌==◌, some, List, [], ◌∷◌, if◌then◌else◌,
}
use manila_weka_driver.Exec.{ok, ◌>>=◌}
use manila_weka_driver.Json.{Json, null}
use manila_weka_driver.Driver.{Env, lookup, assign}
use manila_weka_driver.Driver.Names.{nfs_cg_name}
use manila_weka_driver.Driver.Nfs.{prune_nfs_rules}
use manila_weka_driver.Driver.Nfs.Frame.{Among}
use manila_weka_driver.Tests.Cluster.{Cluster, name_of, share, rule}
use manila_weka_driver.Tests.Gateway.{
  table, permission_json, permissions_json, groups_json, permissions, type_of, gateway,
}

-- The permissions without those of a filesystem.
unfoldable dropped : String → List String → List String
dropped fs (f ∷ g ∷ t ∷ rest) =
    let later = dropped fs rest in if f == fs then later else f ∷ g ∷ t ∷ later
dropped fs _ = []

-- The gateway, where a filesystem's permissions go with the UID, and a group with its own.
abbrev deleting : Env Cluster
deleting = record gateway {
  weka = record gateway.weka {
    delete_nfs_permission =
        λ h uid w. (ok null, assign table (dropped (name_of uid) (permissions w)) w);
    delete_client_group = λ h uid w. (ok null, assign (name_of uid) [] w);
  };
}

abbrev Kept : Cluster → Type 0
Kept w = type_of w "other" "manila-11111111-cccccccc" ≡ some "RW"

-- A permission of the list is written for some filesystem, group and type.
written :
    (perm : Json) (ts : List String)
    → Among perm (permissions_json ts)
    → (f : String) × (g : String) × (t : String) × (perm ≡ permission_json f g t)
unfolding permissions_json
written perm (f ∷ g ∷ t ∷ ts) (inl e) = (f, g, t, e)
written perm (f ∷ g ∷ t ∷ ts) (inr m) = written perm ts m
written perm [] m = absurd m
written perm (f ∷ []) m = absurd m
written perm (f ∷ g ∷ []) m = absurd m

-- A permission of the filesystem that no rule backs, and one of another filesystem.
abbrev before : Cluster
before =
    (
      table,
      "manila_1" ∷ "manila-11111111-bbbbbbbb" ∷ "RW" ∷ "other" ∷ "manila-11111111-cccccccc" ∷ "RW"
          ∷ [],
    )
    ∷ ("manila-11111111-bbbbbbbb", "10.0.0.1" ∷ [])
    ∷ []

pruned :
    (prune_nfs_rules deleting share "manila_1" (rule ∷ []) before).1
    ≡ (table, "other" ∷ "manila-11111111-cccccccc" ∷ "RW" ∷ [])
      ∷ ("manila-11111111-bbbbbbbb", [])
      ∷ []
unfolding prune_nfs_rules nfs_cg_name ◌>>=◌ groups_json permissions_json lookup assign dropped
pruned = refl
