-- ===== src/Driver/Resolve/Frame.antt =====
-- driver.py: what looking a filesystem up by its name keeps of the cluster.
use manila_weka_driver.Prelude.{String, Option, none, some, if◌then◌else◌}
use manila_weka_driver.Exec.{pure}
use manila_weka_driver.Exec.Rules.{Keeps, Keeps-pure, Keeps-bind, keeps_rules}
use manila_weka_driver.Json.{Json, truthy}
use manila_weka_driver.Weka.{Handle}
use manila_weka_driver.Driver.{Env}
use manila_weka_driver.Driver.Resolve.{find_filesystem}

module _ {W : Type 0} (env : Env W) (P : W → Type 0)
    (by_name : (h : Handle) (name : String)
      → Keeps P (env.weka.get_filesystem_by_name h name)) where
  kept_if_found :
      (o : Option Json)
      → Keeps {A = Option Json} P
          (elim o [ none ↦ pure none | some fs ↦ if truthy fs then pure (some fs) else pure none ])
  kept_if_found none = Keeps-pure none
  kept_if_found (some fs) = search keeps_rules

  pub find_filesystem-Keeps : (h : Handle) (name : String) → Keeps P (find_filesystem env h name)
  unfolding find_filesystem
  find_filesystem-Keeps h name = Keeps-bind _ _ (by_name h name) kept_if_found
