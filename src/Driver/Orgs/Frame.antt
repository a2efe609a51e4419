-- ===== src/Driver/Orgs/Frame.antt =====
-- driver.py: what opening a project's organization keeps of the cluster.

use manila_weka_driver.Prelude.{String, Option, none, some}
use manila_weka_driver.Exec.{Result, ok, err, Exec, modify}
use manila_weka_driver.Exec.Rules.{Keeps, Keeps-raise, Ends, Meets, keeps_rules}
use manila_weka_driver.Weka.{Handle, admin}
use manila_weka_driver.Driver.{Env, Driver, Share, calling, assign}
use manila_weka_driver.Driver.Orgs.{create_org, ensure_org, open_org, org_client, client_for_share}

-- `P` is kept by the calls that find, make and enter an organization.
pub record Opens {W : Type 0} (env : Env W) (P : W → Type 0) : Type 0 where
  pub org_by_name : (name : String) → Keeps P (env.weka.get_organization_by_name admin name)
  pub new_org :
      (name user password : String)
      → Keeps P (env.weka.create_organization admin name user password)
  pub login : (name user password : String) → Keeps P (env.weka.for_org name user password)

module _ {W : Type 0} (env : Env W) (P : W → Type 0) where
  abbrev pub Held : Driver W → Type 0
  Held d = P d.weka

  pub calling-Held : {A : Type 0} (m : Exec W A) → Keeps P m → Keeps Held (calling m)
  unfolding calling
  calling-Held m h = record { at = λ d p. h.at d.weka p }

  pub calling-Meets :
      {A : Type 0} {B : W → Type 0} {Q : A → W → Type 0} (m : Exec W A)
      → Meets B m Q P
      → Meets (λ d. B d.weka) (calling m) (λ a d. Q a d.weka) Held
  unfolding calling
  calling-Meets {Q} m h = record { at = λ d b. ends_called Q d (m d.weka) (h.at d.weka b) }
    where
      ends_called :
          {A : Type 0} (Q : A → W → Type 0) (d : Driver W) (r : Result A × W)
          → Ends Q P r
          → Ends (λ a d. Q a d.weka) Held (r.0, record d { weka = r.1 })
      ends_called Q d (ok a, w) q = q
      ends_called Q d (err e, w) q = q

-- What opening an organization calls, and that `K` is kept by it.
pub record Opening {W : Type 0} (env : Env W) (K : Driver W → Type 0) : Type 0 where
  pub by_name : (name : String) → Keeps K (calling (env.weka.get_organization_by_name admin name))
  pub new_org :
      (name user password : String)
      → Keeps K (calling (env.weka.create_organization admin name user password))
  pub login :
      (name user password : String) → Keeps K (calling (env.weka.for_org name user password))
  pub stores :
      (p : String) (h : Handle)
      → Keeps K (modify (λ (d : Driver W). record d { org_clients = assign p h d.org_clients }))

module _ {W : Type 0} (env : Env W) (K : Driver W → Type 0) (opening : Opening env K) where
  create_org-Keeps : (name password : String) → Keeps K (create_org env name password)
  unfolding create_org
  create_org-Keeps name password = search (keeps_rules, opening.new_org)

  ensure_org-Keeps : (p : Option String) → Keeps K (ensure_org env p)
  unfolding ensure_org
  ensure_org-Keeps p = search (keeps_rules, opening.by_name, create_org-Keeps)

  open_org-Keeps : (p : String) → Keeps K (open_org env p)
  unfolding open_org
  open_org-Keeps p = search (keeps_rules, ensure_org-Keeps, opening.login, opening.stores)

  pub org_client-Keeps : (p : Option String) → Keeps K (org_client env p)
  unfolding org_client
  org_client-Keeps none = Keeps-raise _
  org_client-Keeps (some String.[]) = Keeps-raise _
  org_client-Keeps (some (String.◌∷◌ c p)) = search (keeps_rules, open_org-Keeps)

  pub client_for_share-Keeps : (share : Share) → Keeps K (client_for_share env share)
  unfolding client_for_share
  client_for_share-Keeps share = search (keeps_rules, org_client-Keeps)

module _ {W : Type 0} (env : Env W) (P : W → Type 0) (opens : Opens env P) where
  opening_held : Opening env (Held env P)
  unfolding modify
  opening_held = record {
    by_name = λ name. calling-Held env P _ (opens.org_by_name name);
    new_org = λ name user password. calling-Held env P _ (opens.new_org name user password);
    login = λ name user password. calling-Held env P _ (opens.login name user password);
    stores = λ p h. record { at = λ d k. k };
  }

  pub client_for_share-Held : (share : Share) → Keeps (Held env P) (client_for_share env share)
  client_for_share-Held = client_for_share-Keeps env (Held env P) opening_held
