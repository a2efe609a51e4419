-- ===== src/Driver/Orgs/Entered.antt =====
-- driver.py: entering an organization that exists makes none.

use manila_weka_driver.Prelude.{◌≡◌, ◌≢◌, refl, eq_refl, String, Option, none, some}
use manila_weka_driver.Exec.{modify, pure, on_option, ◌>>=◌, ◌>>◌}
use manila_weka_driver.Exec.Rules.{
  Keeps, Ends, Meets, Meets-bind, Meets-Keeps, Meets-weaken, Meets-lift, Meets-pure,
}
use manila_weka_driver.Json.{Json}
use manila_weka_driver.Weka.{Handle, admin}
use manila_weka_driver.Driver.{Env, Driver, lookup, assign}
use manila_weka_driver.Driver.Names.{org_name}
use manila_weka_driver.Driver.Orgs.{create_org, ensure_org, open_org, org_client}
use manila_weka_driver.Driver.Orgs.Cache.{lookup-assign}
use manila_weka_driver.Driver.Orgs.Frame.{Held, calling-Held, calling-Meets}

-- `P` is kept by looking an organization up and by entering one; `Known` is what a lookup that finds
-- one tells of its name: another lookup finds it too.
pub record Finds {W : Type 0} (env : Env W) (P : W → Type 0) (Known : String → W → Type 0)
    : Type 0 where
  pub found :
      (name : String)
      → Meets P
          (env.weka.get_organization_by_name admin name)
          (λ (o : Option Json) w. P w × (o ≢ none → Known name w))
          P
  pub found_again :
      (name : String)
      → Meets
          (λ w. P w × Known name w)
          (env.weka.get_organization_by_name admin name)
          (λ (o : Option Json) w. P w × (o ≢ none))
          P
  pub login : (name user password : String) → Keeps P (env.weka.for_org name user password)

module _ {W : Type 0} (env : Env W) (P : W → Type 0) (Known : String → W → Type 0)
    (finds : Finds env P Known) where
  -- The project's client is in the cache.
  abbrev pub Entered : Option String → Driver W → Type 0
  Entered none d = ⊥
  Entered (some p) d = P d.weka × ((h : Handle) × (lookup p d.org_clients ≡ some h))

  abbrev pub Enters : Option String → Driver W → Type 0
  Enters p d = P d.weka × Known (org_name env.config p) d.weka

  none_made :
      (o : Option Json) (name password : String)
      → Meets
          (λ (d : Driver W). P d.weka × (o ≢ none))
          (on_option o (create_org env name password) (λ _. pure tt))
          (λ _. Held env P)
          (Held env P)
  unfolding on_option pure
  none_made none name password = record { at = λ d (p, some_found). absurd (some_found refl) }
  none_made (some org) name password = record { at = λ d (p, some_found). p }

  ensure_org-Held :
      (p : Option String) → Meets (Enters p) (ensure_org env p) (λ _. Held env P) (Held env P)
  unfolding ensure_org
  ensure_org-Held p =
      Meets-bind _ _ (Meets-weaken _ (λ d e. e) (λ a d (same, e). e) (λ d e. e.0) (Meets-lift _))
        λ password.
          Meets-bind _ _ (calling-Meets env P _ (finds.found_again (org_name env.config p)))
            λ o. Meets-bind _ _ (none_made o _ password) λ _. Meets-pure password (λ d e. e)

  stored :
      (p : String) (h : Handle)
      → Meets
          (Held env P)
          (modify (λ (d : Driver W). record d { org_clients = assign p h d.org_clients }) >> pure h)
          (λ _. Entered (some p))
          (Held env P)
  unfolding ◌>>=◌
  stored p h = record {
    at = λ d e. (e, (h, rw (lookup-assign p p h d.org_clients, eq_refl p) refl));
  }

  open_org-Entered :
      (p : String) → Meets (Enters (some p)) (open_org env p) (λ _. Entered (some p)) (Held env P)
  unfolding open_org
  open_org-Entered p = Meets-bind _ _ (ensure_org-Held (some p)) λ password.
      Meets-bind _ _
        (Meets-Keeps _ (calling-Held env P _ (finds.login _ env.config.org_user password)))
        (stored p)

  opened :
      (p : String) (d : Driver W) (o : Option Handle)
      → lookup p d.org_clients ≡ o
      → Enters (some p) d
      → Ends (λ _. Entered (some p)) (Held env P) (on_option o (open_org env p) pure d)
  unfolding on_option pure
  opened p d none e enters = (open_org-Entered p).at d enters
  opened p d (some h) e enters = (enters.0, (h, e))

  pub org_client-Entered :
      (p : Option String) → Meets (Enters p) (org_client env p) (λ _. Entered p) (Held env P)
  unfolding org_client ◌>>=◌
  org_client-Entered none = record { at = λ d e. e.0 }
  org_client-Entered (some String.[]) = record { at = λ d e. e.0 }
  org_client-Entered (some (String.◌∷◌ c p)) = record {
    at = λ d e. opened (String.◌∷◌ c p) d _ refl e;
  }

  hit :
      (p : String) (d : Driver W) (o : Option Handle) (h : Handle)
      → lookup p d.org_clients ≡ o
      → lookup p d.org_clients ≡ some h
      → P d.weka
      → Ends (λ _. Held env P) (Held env P) (on_option o (open_org env p) pure d)
  unfolding on_option pure
  hit p d none h e there holds = cc
  hit p d (some k) h e there holds = holds

  -- A cached client is returned without a call.
  pub org_client-Held :
      (p : Option String) → Meets (Entered p) (org_client env p) (λ _. Held env P) (Held env P)
  unfolding org_client ◌>>=◌
  org_client-Held none = record { at = λ d e. absurd e }
  org_client-Held (some String.[]) = record { at = λ d e. e.0 }
  org_client-Held (some (String.◌∷◌ c p)) = record {
    at = λ d (holds, (h, there)). hit (String.◌∷◌ c p) d _ h refl there holds;
  }
