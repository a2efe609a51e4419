-- ===== src/Driver/Nfs/Frame.antt =====
-- driver.py: what a full sync's pruning can touch. `_prune_nfs_rules` keeps every property of the
-- cluster that is kept by reads, by the deletion of a permission of the share's filesystem whose
-- group has the share's prefix and backs no rule, and by the deletion of such a group.
use manila_weka_driver.Prelude.{
  ◌≡◌, ◌⊎◌, ap, ◌∙◌, String, Bool, true, false, Option, some, List, [], ◌∷◌, if◌then◌else◌,
}
use manila_weka_driver.Text.{is_prefix}
use manila_weka_driver.Exceptions.{is_not_found}
use manila_weka_driver.Exec.{ok, Exec, pure, lift, on_option, ◌>>=◌}
use manila_weka_driver.Exec.Rules.{
  Keeps, Keeps-bind, Keeps-pure, Keeps-on_option, Keeps-catching_if, Keeps-lift-bind,
}
use manila_weka_driver.Json.{Json, is_text, index, as_text, elements, or_empty}
use manila_weka_driver.Client.Api.{find_named}
use manila_weka_driver.Weka.{admin}
use manila_weka_driver.Driver.{Env}
use manila_weka_driver.Driver.Policies.{member, ignoring}
use manila_weka_driver.Driver.Exports.{perm_keys}

-- A group that pruning may delete: it has the prefix, and no rule backs it.
abbrev pub IsStale : (prefix : String) (expected : List String) → String → Type 0
IsStale prefix expected name = (is_prefix prefix name ≡ true) × (member name expected ≡ false)

abbrev AllStale : (prefix : String) (expected : List String) → List String → Type 0
AllStale prefix expected [] = Unit
AllStale prefix expected (name ∷ names) =
    IsStale prefix expected name × AllStale prefix expected names

abbrev pub Among : Json → List Json → Type 0
Among v [] = ⊥
Among v (x ∷ xs) = (v ≡ x) ⊎ Among v xs

-- A list that a call gave in some state where `P` holds.
abbrev pub Given : {W : Type 0} → (W → Type 0) → Exec W Json → List Json → Type 0
Given {W} P m xs =
    (w : W) × (w' : W) × (v : Json) × P w × (m w ≡ (ok v, w')) × (elements (or_empty v) ≡ ok xs)

-- What pruning may do to a cluster without breaking `P`: what it deletes it has from a listing of
-- the cluster where `P` holds.
pub record Spares {W : Type 0} (env : Env W) (P : W → Type 0) (fs_name prefix : String)
    (expected : List String) : Type 0 where
  pub reads_permissions : Keeps P (env.weka.list_nfs_permissions admin)
  pub reads_groups : Keeps P (env.weka.list_client_groups admin)
  pub permission :
      (perms : List Json) (perm fs cg uid : Json) (name : String)
      → Given P (env.weka.list_nfs_permissions admin) perms
      → Among perm perms
      → perm_keys perm ≡ ok (fs, cg)
      → is_text fs_name fs ≡ true
      → as_text cg ≡ ok name
      → IsStale prefix expected name
      → index "uid" perm ≡ ok uid
      → Keeps P (env.weka.delete_nfs_permission admin uid)
  pub group :
      (name : String) (groups : List Json) (cg uid : Json)
      → Given P (env.weka.list_client_groups admin) groups
      → IsStale prefix expected name
      → find_named name groups ≡ ok (some cg)
      → index "uid" cg ≡ ok uid
      → Keeps P (env.weka.delete_client_group admin uid)

module _ {W : Type 0} (env : Env W) (P : W → Type 0) (fs_name prefix : String)
    (expected : List String) (spares : Spares env P fs_name prefix expected) where
  abbrev Kept : List String → W → Type 0
  Kept names w = AllStale prefix expected names × P w

  added :
      (b : Bool) (name : String) (stale : List String)
      → IsStale prefix expected name
      → AllStale prefix expected stale
      → AllStale prefix expected (if b then stale else name ∷ stale)
  added true name stale g h = h
  added false name stale g h = (g, h)

  delete_found :
      (name : String) (o : Option Json) (groups : List Json)
      → Given P (env.weka.list_client_groups admin) groups
      → IsStale prefix expected name
      → find_named name groups ≡ ok o
      → Keeps P (
          on_option o (pure tt) (λ cg.
            ignoring is_not_found (lift (index "uid" cg) >>= env.weka.delete_client_group admin)))
  delete_found name o groups given stale found =
      Keeps-on_option o _ _ (λ _. Keeps-pure tt)
        λ cg e.
          Keeps-catching_if is_not_found _ _
            (Keeps-bind _ _
              (Keeps-lift-bind (index "uid" cg) _
                (λ uid i. spares.group name groups cg uid given stale (found ∙ ap ok e) i))
              (λ _. Keeps-pure tt))
            (λ x _. Keeps-pure tt)
