-- ===== src/Driver.antt =====
-- driver.py: the values that the driver handles (shares, access rules), its configuration and what
-- it takes from other libraries (`Env`), and the fields of `WekaShareDriver` (`Driver`). The
-- methods stand in the children.
pub mod Names
pub mod Errors
pub mod Orgs
pub mod Policies
pub mod Groups
pub mod Wekafs
pub mod Exports
pub mod Nfs
pub mod Verdicts
pub mod Access
pub mod Resolve
pub mod Shares
pub mod Copies
pub mod Tokens
pub mod Deletion
pub mod Health
pub mod Transfer
pub mod Clones
pub mod Adoption
pub mod Setup
pub mod Stats
use manila_weka_driver.Prelude.{
  ℕ, String, Bool, true, false, Option, none, some, List, [], ◌∷◌, ◌==◌, if◌then◌else◌,
}
use manila_weka_driver.Text.{same_folded}
use manila_weka_driver.Exec.{Result, Exec}
use manila_weka_driver.Json.{Json}
use manila_weka_driver.Weka.{Weka, Handle}
use manila_weka_driver.Host.{Host}

pub record Location : Type 0 where
  pub path : String
  pub metadata : List (String × Json)

pub record Share : Type 0 where
  pub id : String
  pub share_proto : String
  pub size : ℕ
  pub project_id : Option String
  pub share_type_id : Option String
  pub export_locations : List Location

pub record Rule : Type 0 where
  pub access_id : String
  pub access_type : String
  pub access_to : String
  pub access_level : String

-- What an access rule came to: `{'state': 'active'}`, with the key if one goes with it, or error.
pub data RuleState : Type 0 where
  active : Option String → RuleState
  failed : RuleState

-- `ipaddress.IPv4Network(value, strict=False)`, as the texts that the driver takes of it
pub record Network : Type 0 where
  pub with_prefix : String
  pub network_address : String
  pub netmask : String

-- `weka_security_policy_group`: the addresses of a named group, by level
pub record Group : Type 0 where
  pub read_write : List String
  pub read_only : List String

pub record Config : Type 0 where
  pub share_name_prefix : String
  pub org_prefix : String
  pub org_user : String
  pub org_admin_secret : String
  pub nfs_server : Option String
  pub api_server : String
  pub filesystem_group : String
  pub policy_groups : List (String × Group)
  pub mount_point_base : String
  pub auth_token_dir : String
  pub num_cores : ℕ
  pub net_device : Option String

-- Code that is not the driver's: the client, HMAC-SHA256 as hex, `ipaddress`, and the extra specs
-- of a share type, and the host.
pub record Env (W : Type 0) : Type 0 where
  pub config : Config
  pub weka : Weka W
  pub host : Host W
  pub hmac_sha256 : String → String → String
  pub ipv4_network : String → Option Network
  pub is_ipv6 : String → Bool
  pub extra_specs : String → Result (List (String × String))

pub data CopyStatus : Type 0 where
  creating_from_snapshot available error : CopyStatus

-- An entry of `_async_copies`; the names are missing where the entry was made by the worker.
pub record Copy : Type 0 where
  pub status : CopyStatus
  pub fs : Option (Json × String)

pub record Driver (W : Type 0) : Type 0 where
  pub org_clients : List (String × Handle)
  pub async_copies : List (String × Copy)
  pub weka : W

-- A Python dict as an association list: `d.get(k)` and `d[k] = v`.
module _ {ℓ} {V : Type ℓ} where
  unfoldable pub lookup : String → List (String × V) → Option V
  lookup k [] = none
  lookup k ((j, v) ∷ d) = if j == k then some v else lookup k d

  unfoldable pub assign : String → V → List (String × V) → List (String × V)
  assign k v [] = (k, v) ∷ []
  assign k v ((j, w) ∷ d) = if j == k then (k, v) ∷ d else (j, w) ∷ assign k v d

-- A call of the API from a method of the driver.
unfoldable pub calling : {W A : Type 0} → Exec W A → Exec (Driver W) A
calling m d = let (r, w) = m d.weka in (r, record d { weka = w })

-- `share['share_proto'].upper() == 'NFS'`, and `_is_isolated_wekafs`
unfoldable pub is_nfs : Share → Bool
unfolding same_folded
is_nfs share = same_folded share.share_proto "NFS"

unfoldable pub is_isolated_wekafs : Share → Bool
unfolding same_folded
is_isolated_wekafs share = same_folded share.share_proto "WEKAFS"
