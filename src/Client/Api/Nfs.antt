-- ===== src/Client/Api/Nfs.antt =====
-- client.py: NFS permissions, client groups and their rules.
use manila_weka_driver.Prelude.{ℕ, String, Bool, Option, none, List, [], ◌∷◌, ◌++◌, if◌then◌else◌}
use manila_weka_driver.Text.{◌⁺⁺◌, same_folded}
use manila_weka_driver.Exec.{Exec, pure, lift, catching, ◌>>=◌, ◌>>◌}
use manila_weka_driver.Json.{
  Json, null, str, arr, nil, dict, texts, elements, get, get_or, truthy, printed, or_else,
}
use manila_weka_driver.Client.{Conn, Net}
use manila_weka_driver.Client.Api.{optional, number, flag, path_of, get_data, post_data, delete_at}

module _ {N : Type 0} (net : Net N) where
  unfoldable pub list_nfs_permissions : Exec (Conn N) Json
  unfolding get_data
  list_nfs_permissions = get_data net "/nfs/permissions"

  unfoldable pub create_nfs_permission :
      (client_group fs_name path access_type : String)
      → (squash : Option Bool) → (anon_uid anon_gid : Option ℕ) → Exec (Conn N) Json
  unfolding post_data
  create_nfs_permission client_group fs_name path access_type squash anon_uid anon_gid =
      post_data net "/nfs/permissions" (
        dict (
          (("group", str client_group)
            ∷ ("filesystem", str fs_name)
            ∷ ("path", str path)
            ∷ ("permission_type", str access_type)
            ∷ ("supported_versions", arr (texts ("V3" ∷ "V4" ∷ [])))
            ∷ [])
          ++ (optional "root_squashing" (flag squash)
              ++ (optional "anon_uid" (number anon_uid) ++ optional "anon_gid" (number anon_gid)))))

  unfoldable pub delete_nfs_permission : Json → Exec (Conn N) Json
  unfolding delete_at
  delete_nfs_permission uid = delete_at net (path_of net "/nfs/permissions/" uid) none

  unfoldable pub list_client_groups : Exec (Conn N) Json
  unfolding get_data
  list_client_groups = get_data net "/nfs/clientGroups"

  unfoldable pub create_client_group : String → Exec (Conn N) Json
  unfolding post_data
  create_client_group name = post_data net "/nfs/clientGroups" (dict (("name", str name) ∷ []))

  unfoldable pub add_client_group_rule : Json → (rule_type rule_value : String) → Exec (Conn N) Json
  unfolding post_data same_folded
  add_client_group_rule uid rule_type rule_value =
      post_data net (path_of net "/nfs/clientGroups/" uid ⁺⁺ "/rules")
        (dict ((if same_folded rule_type "ip" then "ip" else "dns", str rule_value) ∷ []))

  unfoldable pub get_client_group : Json → Exec (Conn N) Json
  unfolding get_data
  get_client_group uid = get_data net (path_of net "/nfs/clientGroups/" uid)

  unfoldable pub delete_client_group_rule : (group_uid rule_uid : Json) → Exec (Conn N) Json
  unfolding delete_at
  delete_client_group_rule group_uid rule_uid =
      delete_at net
        (path_of net "/nfs/clientGroups/" group_uid ⁺⁺ ("/rules/" ⁺⁺ printed net.show rule_uid))
        none

  -- The loop over a group's rules; a rule that cannot be deleted is passed over.
  unfoldable pub delete_rules : Json → List Json → Exec (Conn N) (Unit {0})
  unfolding get truthy delete_client_group_rule
  delete_rules uid [] = pure tt
  delete_rules uid (rule ∷ rules) = do
    found ← lift (get "uid" rule)
    let rule_uid = or_else found null
    if truthy rule_uid
        then catching (delete_client_group_rule uid rule_uid >> pure tt) (λ e. pure tt)
        else pure tt
    delete_rules uid rules

  -- `delete_client_group`: its rules first, whatever becomes of them, then the group.
  unfoldable pub delete_client_group : Json → Exec (Conn N) Json
  unfolding get_client_group get_or elements delete_rules delete_at
  delete_client_group uid = do
    catching
        (do
          cg ← get_client_group uid
          rules ← lift (get_or "rules" (arr nil) cg)
          items ← lift (elements rules)
          delete_rules uid items)
        (λ e. pure tt)
    delete_at net (path_of net "/nfs/clientGroups/" uid) none
