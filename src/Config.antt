-- ===== src/Config.antt =====
-- config.py: the driver's options. oslo.config, which reads and checks them, is not in the
-- repository: what it accepts for each kind of option is a hypothesis, `Accepted`.
pub mod Requests
use manila_weka_driver.Prelude.{ℕ, ◌≤◌, ◌≡◌, ◌⊎◌, String, Bool, true, false, List, [], ◌∷◌, ◌++◌}

-- The kinds of options, with the least and the greatest value of an `IntOpt`.
pub data Kind : Type 0 where
  host_address : Kind
  port : Kind
  boolean : Kind
  text : Kind
  integer : (min max : ℕ) → Kind

-- What `safe_get` gives for an option.
pub data Setting : Type 0 where
  unset : Setting
  word : String → Setting
  number : ℕ → Setting
  flag : Bool → Setting

pub record Opt : Type 0 where
  pub name : String
  pub kind : Kind
  pub default : Setting
  pub secret : Bool

opt : String → Kind → Setting → Opt
opt name kind default = record { name = name; kind = kind; default = default; secret = false }

secret_opt : String → Opt
secret_opt name = record { name = name; kind = text; default = unset; secret = true }

-- The options of the connection, the authentication, the filesystem group and the organizations.
unfoldable pub account_opts : List Opt
unfolding opt secret_opt
account_opts =
    opt "weka_api_server" host_address unset
    ∷ opt "weka_nfs_server" host_address unset
    ∷ opt "weka_api_port" port (number 14000)
    ∷ opt "weka_ssl_verify" boolean (flag true)
    ∷ opt "weka_username" text (word "admin")
    ∷ secret_opt "weka_password"
    ∷ opt "weka_organization" text (word "Root")
    ∷ opt "weka_filesystem_group" text (word "default")
    ∷ secret_opt "weka_org_admin_secret"
    ∷ opt "weka_org_prefix" text (word "manila-")
    ∷ opt "weka_org_user" text (word "manila")
    ∷ opt "weka_auth_token_dir" text (word "/var/lib/manila/weka-tokens")
    ∷ []

-- The options of the access groups, the mounts, the API calls and the names.
unfoldable pub service_opts : List Opt
unfolding opt
service_opts =
    opt "weka_security_policy_group" text unset
    ∷ opt "weka_mount_point_base" text (word "/mnt/weka")
    ∷ opt "weka_num_cores" (integer 1 19) (number 1)
    ∷ opt "weka_net_device" text unset
    ∷ opt "weka_api_timeout" (integer 5 300) (number 30)
    ∷ opt "weka_max_api_retries" (integer 0 10) (number 3)
    ∷ opt "weka_api_pool_connections" (integer 1 20) (number 4)
    ∷ opt "weka_api_pool_maxsize" (integer 1 100) (number 10)
    ∷ opt "weka_share_name_prefix" text (word "manila_")
    ∷ []

unfoldable pub weka_opts : List Opt
unfolding account_opts service_opts
weka_opts = account_opts ++ service_opts

-- The values that an option of a kind has once oslo.config has accepted the configuration.
unfoldable pub Fits : Kind → Setting → Type 0
Fits host_address v = (v ≡ unset) ⊎ ((s : String) × v ≡ word s)
Fits text v = (v ≡ unset) ⊎ ((s : String) × v ≡ word s)
Fits boolean v = (b : Bool) × v ≡ flag b
Fits port v = (n : ℕ) × v ≡ number n × n ≤ 65535
Fits (integer min max) v = (n : ℕ) × v ≡ number n × min ≤ n × n ≤ max

unfoldable pub Accepted : (String → Setting) → List Opt → Type 0
unfolding Fits
Accepted safe_get [] = Unit {0}
Accepted safe_get (o ∷ os) = Fits o.kind (safe_get o.name) × Accepted safe_get os
