-- ===== src/Driver/Exports.antt =====
-- driver.py: the client groups and export permissions of the NFS gateway, as the rules use them.
use manila_weka_driver.Prelude.{
  String, false, not, ◌&&◌, Option, none, some, List, [], ◌∷◌, if◌then◌else◌,
}
use manila_weka_driver.Exceptions.{is_api_error, is_not_found}
use manila_weka_driver.Exec.{
  Result, ok, err, Exec, pure, raise, lift, catching_if, on_option, ◌>>=◌, ◌>>◌,
}
use manila_weka_driver.Json.{
  Json, null, str, arr, nil, get, get_or, or_else, or_empty, truthy, index, elements, is_text,
  as_text,
}
use manila_weka_driver.Weka.{admin}
use manila_weka_driver.Client.Api.{find_named}
use manila_weka_driver.Driver.{Env}
use manila_weka_driver.Driver.Errors.{norm_weka_ip, is_already_exists_error}
use manila_weka_driver.Driver.Policies.{ignoring}

-- `_perm_keys`: the filesystem and the group of a permission
unfoldable pub perm_keys : Json → Result (Json × Json)
unfolding get_or
perm_keys perm = elim (get_or "filesystem_id" (str "") perm) [
  | err e ↦ err e
  | ok fs_id ↦ elim (get_or "filesystem" fs_id perm) [
    | err e ↦ err e
    | ok fs ↦ elim (get_or "client_group_name" (str "") perm) [
      | err e ↦ err e
      | ok cg_name ↦ elim (get_or "group" cg_name perm) [ err e ↦ err e | ok cg ↦ ok (fs, cg) ]
    ]
  ]
]

-- The first permission of a filesystem and a group.
unfoldable pub find_permission : (fs_name cg_name : String) → List Json → Result (Option Json)
unfolding perm_keys is_text
find_permission fs_name cg_name [] = ok none
find_permission fs_name cg_name (perm ∷ perms) =
    let rest = find_permission fs_name cg_name perms in
    elim (perm_keys perm) [
      | err e ↦ err e
      | ok (fs, cg) ↦ if is_text fs_name fs && is_text cg_name cg then ok (some perm) else rest
    ]

-- The loop over `m() or []`.
unfoldable pub listed : {W : Type 0} → Exec W Json → Exec W (List Json)
unfolding or_empty elements
listed m = do v ← m; lift (elements (or_empty v))

module _ {W : Type 0} (env : Env W) where
  -- The normalised addresses among a group's rules.
  unfoldable pub rule_ips : List Json → Result (List String)
  unfolding get is_text truthy index norm_weka_ip as_text
  rule_ips [] = ok []
  rule_ips (r ∷ rs) =
      let rest = rule_ips rs in
      elim (get "type" r) [
        | err e ↦ err e
        | ok kind ↦ elim (get "rule" r) [
          | err e ↦ err e
          | ok found ↦
              if not (is_text "IP" (or_else kind null) && truthy (or_else found null))
              then rest
              else elim (as_text (or_else found null)) [
                | err e ↦ err e
                | ok ip ↦ elim rest [ err e ↦ err e | ok ips ↦ ok (norm_weka_ip env ip ∷ ips) ]
              ]
        ]
      ]

  -- `_get_client_group_by_name`
  unfoldable pub client_group_by_name : String → Exec W (Option Json)
  unfolding listed find_named
  client_group_by_name name = do
    groups ← listed (env.weka.list_client_groups admin)
    lift (find_named name groups)

  -- `_find_nfs_permission`
  unfoldable pub find_nfs_permission : (fs_name cg_name : String) → Exec W (Option Json)
  unfolding listed find_permission
  find_nfs_permission fs_name cg_name = do
    perms ← listed (env.weka.list_nfs_permissions admin)
    lift (find_permission fs_name cg_name perms)

  -- `_delete_client_group_by_name`
  unfoldable pub delete_client_group_by_name : String → Exec W (Unit {0})
  unfolding client_group_by_name index
  delete_client_group_by_name name = do
    found ← client_group_by_name name
    on_option found (pure tt)
        (λ cg. ignoring is_not_found (lift (index "uid" cg) >>= env.weka.delete_client_group admin))

  -- The group of a rule and the addresses in it; a new group has none.
  unfoldable pub group_and_ips : String → Exec W (Json × List String)
  unfolding client_group_by_name index get_or elements rule_ips
  group_and_ips cg_name = do
    found ← client_group_by_name cg_name
    elim found [
      | none ↦ (do cg ← env.weka.create_client_group admin cg_name; pure (cg, []))
      | some cg ↦ (do
        uid ← lift (index "uid" cg)
        detail ← env.weka.get_client_group admin uid
        rules ← lift (get_or "rules" (arr nil) detail)
        items ← lift (elements rules)
        ips ← lift (rule_ips items)
        pure (cg, ips))
    ]

  unfoldable pub ensure_group_rule : Json → String → Exec W (Unit {0})
  unfolding index is_already_exists_error
  ensure_group_rule cg weka_ip =
      catching_if is_api_error
        (do
          uid ← lift (index "uid" cg)
          env.weka.add_client_group_rule admin uid "IP" weka_ip
          pure tt)
        (λ e. if is_already_exists_error e then pure tt else raise e)

  abbrev pub create_permission : (cg_name fs_name nfs_type : String) → Exec W (Unit {0})
  create_permission cg_name fs_name nfs_type =
      env.weka.create_nfs_permission admin cg_name fs_name "/" nfs_type false >> pure tt

  -- The permission, made or made anew where its type differs.
  unfoldable pub ensure_permission : (cg_name fs_name nfs_type : String) → Exec W (Unit {0})
  unfolding find_nfs_permission get is_text index
  ensure_permission cg_name fs_name nfs_type = do
    found ← find_nfs_permission fs_name cg_name
    elim found [
      | none ↦ create_permission cg_name fs_name nfs_type
      | some perm ↦ (do
        kind ← lift (get "permission_type" perm)
        if is_text nfs_type (or_else kind null) then pure tt else (do
          uid ← lift (index "uid" perm)
          env.weka.delete_nfs_permission admin uid
          create_permission cg_name fs_name nfs_type))
    ]
