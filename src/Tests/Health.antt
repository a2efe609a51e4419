-- ===== src/Tests/Health.antt =====
-- An instance of what is proved of the check of shares, on a cluster with a list of organizations.
use manila_weka_driver.Prelude.{
  ◌≡◌, ◌≢◌, refl, arith, String, Bool, true, false, Option, none, some, List, [], ◌∷◌, ◌==◌, any,
  if◌then◌else◌,
}
use manila_weka_driver.Exec.{ok}
use manila_weka_driver.Exec.Rules.{Keeps}
use manila_weka_driver.Json.{Json, null, str, dict, arr, texts}
use manila_weka_driver.Weka.{Weka}
use manila_weka_driver.Host.{Host}
use manila_weka_driver.Driver.{Env, lookup, assign}
use manila_weka_driver.Driver.Orgs.Cache.{lookup-assign}
use manila_weka_driver.Driver.Orgs.Entered.{Finds}
use manila_weka_driver.Driver.Health.{ensure_shares}
use manila_weka_driver.Driver.Health.Intact.{Checks, ensure_shares-Keeps}
use manila_weka_driver.Tests.Cluster.{Cluster, addresses, weka, host, env, share}

abbrev has_org : String → Cluster → Bool
has_org name w = any (λ org. org == name) (addresses (lookup "organizations" w))

abbrev org_json : Bool → String → Option Json
org_json b name = if b then some (dict (("uid", str name) ∷ [])) else none

abbrev guarded_weka : Weka Cluster
guarded_weka = record weka {
  get_organization_by_name = λ h name w. (ok (org_json (has_org name w) name), w);
  create_organization =
      λ h name user password w. (ok null, assign "organizations made" (name ∷ []) w);
  list_filesystems = λ h w. (ok (arr (texts [])), w);
}

abbrev noting_host : Host Cluster
noting_host = record host { execute = λ words w. (ok tt, assign "command" words w) }

abbrev guarded : Env Cluster
guarded = record env { weka = guarded_weka; host = noting_host }

abbrev NoneMade : Cluster → Type 0
NoneMade w = lookup "organizations made" w ≡ none

abbrev Known : String → Cluster → Type 0
Known name w = has_org name w ≡ true

known_if_found : (b : Bool) (name : String) → org_json b name ≢ none → b ≡ true
known_if_found true name h = refl
known_if_found false name h = absurd (h refl)

found_if_known : (b : Bool) (name : String) → b ≡ true → org_json b name ≢ none
found_if_known b name e h = ground arith

NoneMade-command :
    (words : List String) (w : Cluster) → NoneMade w → NoneMade (assign "command" words w)
NoneMade-command words w p = ground (arith, lookup-assign "command" "organizations made" words w)

finds : Finds guarded NoneMade Known
finds = record {
  found = λ name. record { at = λ w p. (p, known_if_found (has_org name w) name) };
  found_again = λ name. record { at = λ w (p, k). (p, found_if_known (has_org name w) name k) };
  login = λ name user password. record { at = λ w p. p };
}

checks : Checks guarded NoneMade Known
checks = record {
  finds = finds;
  lists = record { at = λ w p. p };
  finds_filesystem = λ h name. record { at = λ w p. p };
  token = λ h. record { at = λ w p. p };
  runs = λ words. record { at = NoneMade-command words };
  reads = λ path. record { at = λ w p. p };
  makes = λ path mode. record { at = λ w p. p };
  chmods = λ path mode. record { at = λ w p. p };
  makes_file = λ dir prefix suffix. record { at = λ w p. p };
  writes = λ path v. record { at = λ w p. p };
  replaces = λ source target. record { at = λ w p. p };
  unlinks = λ path. record { at = λ w p. p };
}

ensure_shares-Keeps_example : Keeps (λ d. NoneMade d.weka) (ensure_shares guarded (share ∷ []))
ensure_shares-Keeps_example = ensure_shares-Keeps guarded NoneMade Known checks (share ∷ [])
