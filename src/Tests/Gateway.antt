-- ===== src/Tests/Gateway.antt =====
-- An NFS gateway for tests: client groups with their addresses, and permissions.
use manila_weka_driver.Prelude.{
  ◌≡◌, String, Bool, false, ◌&&◌, ◌==◌, Option, none, some, List, [], ◌∷◌, if◌then◌else◌,
}
use manila_weka_driver.Exceptions.{attribute_error}
use manila_weka_driver.Exec.{Result, ok, err}
use manila_weka_driver.Json.{Json, null, str, arr, dict, of_list}
use manila_weka_driver.Driver.{Env, lookup, assign}
use manila_weka_driver.Driver.Policies.{member}
use manila_weka_driver.Tests.Cluster.{Cluster, addresses, name_of, env}

-- The permissions are under this key: filesystem, group and type, one after the other.
abbrev pub table : String
table = "permissions"

abbrev pub group_json : String → Json
group_json name = dict (("uid", str name) ∷ ("name", str name) ∷ [])

unfoldable pub groups_json : Cluster → List Json
groups_json [] = []
groups_json ((name, ips) ∷ w) =
    let rest = groups_json w in if name == table then rest else group_json name ∷ rest

abbrev pub permission_json : (fs group type : String) → Json
permission_json fs group type = dict (
    ("filesystem", str fs)
    ∷ ("group", str group)
    ∷ ("permission_type", str type)
    ∷ ("uid", str fs)
    ∷ [])

unfoldable pub permissions_json : List String → List Json
permissions_json (fs ∷ group ∷ type ∷ rest) = permission_json fs group type ∷ permissions_json rest
permissions_json _ = []

abbrev pub first_type : (fs group : String) → List String → Option String
first_type fs group (f ∷ g ∷ type ∷ rest) =
    let later = first_type fs group rest in if f == fs && g == group then some type else later
first_type fs group _ = none

abbrev pub permissions : Cluster → List String
permissions w = addresses (lookup table w)

abbrev pub type_of : Cluster → (fs group : String) → Option String
type_of w fs group = first_type fs group (permissions w)

abbrev pub holds : Cluster → (group ip : String) → Bool
holds w group ip = member ip (addresses (lookup group w))

abbrev pub Owns : String → Json → Type 0
Owns name uid = (uid ≡ str name) × ((name == table) ≡ false)

abbrev pub with_rule : Json → String → Cluster → Result Json × Cluster
with_rule uid ip w = (ok null, assign (name_of uid) (ip ∷ addresses (lookup (name_of uid) w)) w)

abbrev pub made : String → Cluster → Result Json × Cluster
made name w =
    if name == table
    then (err (attribute_error "name"), w)
    else (ok (group_json name), assign name [] w)

abbrev pub gateway : Env Cluster
gateway = record env {
  weka = record env.weka {
    list_client_groups = λ h w. (ok (arr (of_list (groups_json w))), w);
    create_client_group = λ h name. made name;
    get_client_group = λ h uid w. (ok (dict []), w);
    add_client_group_rule = λ h uid kind ip. with_rule uid ip;
    list_nfs_permissions = λ h w. (ok (arr (of_list (permissions_json (permissions w)))), w);
    create_nfs_permission = λ h group fs path type squash w.
        (ok null, assign table (fs ∷ group ∷ type ∷ permissions w) w);
    delete_nfs_permission = λ h uid w. (ok null, w);
  };
}
