-- ===== src/Driver/Orgs.antt =====
-- driver.py: the organization of a project and its cached client.
pub mod Cache
pub mod Frame
pub mod Entered
use manila_weka_driver.Prelude.{String, Bool, true, false, not, Option, none, some, if◌then◌else◌}
use manila_weka_driver.Exceptions.{Exc, org_error, is_api_error, message}
use manila_weka_driver.Exec.{
  Result, Exec, pure, raise, lift, gets, modify, catching_if, on_option, ◌>>=◌, ◌>>◌,
}
use manila_weka_driver.Weka.{Weka, Handle, admin}
use manila_weka_driver.Driver.{Env, Driver, Share, lookup, assign, calling, is_isolated_wekafs}
use manila_weka_driver.Driver.Names.{org_name, org_password}
use manila_weka_driver.Driver.Errors.{is_already_exists_error}

module _ {W : Type 0} (env : Env W) where
  -- The creation in `_ensure_org`: a concurrent one is no error.
  unfoldable pub create_org : String → String → Exec (Driver W) (Unit {0})
  unfolding is_already_exists_error calling
  create_org name password =
      catching_if is_api_error
        (calling (env.weka.create_organization admin name env.config.org_user password) >> pure tt)
        (λ e. if is_already_exists_error e then pure tt else raise (org_error (message e)))

  -- `_ensure_org`, with the password that it returns
  unfoldable pub ensure_org : Option String → Exec (Driver W) String
  unfolding org_name org_password create_org calling
  ensure_org project_id = do
    let name = org_name env.config project_id
    password ← lift (org_password env project_id)
    org ← calling (env.weka.get_organization_by_name admin name)
    on_option org (create_org name password) (λ found. pure tt)
    pure password

  -- The cache miss in `_org_client`.
  unfoldable pub open_org : String → Exec (Driver W) Handle
  unfolding ensure_org org_name calling assign
  open_org project_id = do
    password ← ensure_org (some project_id)
    h ←
        calling
          (env.weka.for_org (org_name env.config (some project_id)) env.config.org_user password)
    modify (λ d. record d { org_clients = assign project_id h d.org_clients })
    pure h

  -- `_org_client`
  unfoldable pub org_client : Option String → Exec (Driver W) Handle
  unfolding open_org lookup
  org_client none = raise (org_error "share has no project_id")
  org_client (some String.[]) = raise (org_error "share has no project_id")
  org_client (some (String.◌∷◌ c p)) = do
    cached ← gets (λ d. lookup (String.◌∷◌ c p) d.org_clients)
    on_option cached (open_org (String.◌∷◌ c p)) pure

  -- `_client_for_share`
  unfoldable pub client_for_share : Share → Exec (Driver W) Handle
  unfolding org_client is_isolated_wekafs
  client_for_share share =
      if is_isolated_wekafs share then org_client share.project_id else pure admin
