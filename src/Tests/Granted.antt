-- ===== src/Tests/Granted.antt =====
-- The test gateway behaves as `NfsStore` says; an instance of what is proved of `_apply_nfs_rule`.
use manila_weka_driver.Prelude.{
  ◌≡◌, refl, sym, ap, ◌∙◌, String, Bool, true, false, ◌&&◌, ◌==◌, eq_iff, eq_refl, Option, some,
  List, [], ◌∷◌, arith, inl, inr, Bool-cases, if_true, if_false, if◌then◌else◌,
}
use manila_weka_driver.Exceptions.{attribute_error}
use manila_weka_driver.Exec.Rules.{Ends}
use manila_weka_driver.Driver.Names.{nfs_cg_name}
use manila_weka_driver.Driver.Errors.{norm_weka_ip, cidr_to_weka_ip}
use manila_weka_driver.Exec.{Result, ok, err, ◌>>=◌}
use manila_weka_driver.Json.{
  Json, nil, str, arr, dict, of_list, to_list, get, get_or, or_empty, index, elements, is_text,
}
use manila_weka_driver.Client.Api.{find_named}
use manila_weka_driver.Driver.{lookup, assign}
use manila_weka_driver.Driver.Orgs.Cache.{lookup-assign}
use manila_weka_driver.Driver.Policies.{member}
use manila_weka_driver.Driver.Exports.{find_permission, rule_ips}
use manila_weka_driver.Driver.Nfs.{apply_nfs_rule}
use manila_weka_driver.Driver.Nfs.Store.{NfsStore}
use manila_weka_driver.Driver.Nfs.Applied.{apply_nfs_rule-holds}
use manila_weka_driver.Tests.Cluster.{Cluster, addresses, share, rule}
use manila_weka_driver.Tests.Gateway.{
  table, group_json, groups_json, permission_json, permissions_json, first_type, permissions,
  type_of, holds, Owns, with_rule, gateway,
}

pub ok_injective : {A : Type 0} (a b : A) → ◌≡◌ {A = Result A} (ok a) (ok b) → a ≡ b
ok_injective a b e = cc

some_injective : {A : Type 0} (a b : A) → some a ≡ some b → a ≡ b
some_injective a b e = cc

listed_back : (xs : List Json) → to_list (of_list xs) ≡ xs
listed_back [] = refl
listed_back (x ∷ xs) = ap (λ ys. x ∷ ys) (listed_back xs)

pub read_back : (xs ys : List Json) → elements (or_empty (arr (of_list xs))) ≡ ok ys → ys ≡ xs
unfolding elements or_empty
read_back [] ys e = sym (ok_injective _ _ e)
read_back (x ∷ xs) ys e = sym (ok_injective _ _ e) ∙ listed_back (x ∷ xs)

pub group_found :
    (name : String) (cg uid : Json) (w : Cluster)
    → find_named name (groups_json w) ≡ ok (some cg)
    → index "uid" cg ≡ ok uid
    → Owns name uid
unfolding find_named groups_json index get is_text
group_found name cg uid [] e h = cc
group_found name cg uid ((k, ips) ∷ w) e h = elim (Bool-cases (k == table)) [
  | inl special ↦ group_found name cg uid w (rw special at e) h
  | inr plain ↦ elim (Bool-cases (k == name)) [
    | inl same ↦
        let its : ◌≡◌ {A = Result (Option Json)} (ok (some (group_json k))) (ok (some cg)) =
          rw (plain, same) at e in
        let uids : index "uid" (group_json k) ≡ ok uid =
          rw (sym (some_injective _ _ (ok_injective _ _ its))) at h in
        (
          sym (ok_injective _ _ uids) ∙ ap str ((eq_iff k name).0 same),
          rw ((eq_iff k name).0 same) at plain,
        )
    | inr other ↦ group_found name cg uid w (rw (plain, other) at e) h
  ]
]

same_text : (s t : String) → str s ≡ str t → s ≡ t
same_text s t e = cc

type_found :
    (fs group type : String) (perm : Json) (ts : List String)
    → find_permission fs group (permissions_json ts) ≡ ok (some perm)
    → get "permission_type" perm ≡ ok (some (str type))
    → first_type fs group ts ≡ some type
unfolding find_permission permissions_json get is_text
type_found fs group type perm (f ∷ g ∷ t ∷ ts) e h = elim (Bool-cases (f == fs && g == group)) [
  | inl same ↦
      let its : ◌≡◌ {A = Result (Option Json)} (ok (some (permission_json f g t)))
          (ok (some perm)) =
        rw same at e in
      let said : get "permission_type" (permission_json f g t) ≡ ok (some (str type)) =
        rw (sym (some_injective _ _ (ok_injective _ _ its))) at h in
      if_true _ _ _ same ∙ ap some (same_text t type (some_injective _ _ (ok_injective _ _ said)))
  | inr other ↦ if_false _ _ _ other ∙ type_found fs group type perm ts (rw other at e) h
]
type_found fs group type perm [] e h = cc
type_found fs group type perm (f ∷ []) e h = cc
type_found fs group type perm (f ∷ g ∷ []) e h = cc

made-Owns :
    (name : String) (w : Cluster) (b : Bool)
    → (name == table) ≡ b
    → Ends
        (λ cg w'. (uid : Json) → index "uid" cg ≡ ok uid → Owns name uid)
        (λ w'. Unit {0})
        (if b then (err (attribute_error "name"), w) else (ok (group_json name), assign name [] w))
unfolding index
made-Owns name w true e = tt
made-Owns name w false e = λ uid h. (sym (ok_injective _ _ h), e)

no_rules :
    (name i : String) (rules : Json) (items : List Json) (ips : List String) (w : Cluster)
    → get_or "rules" (arr nil) (dict []) ≡ ok rules
    → elements rules ≡ ok items
    → rule_ips gateway items ≡ ok ips
    → member i ips ≡ true
    → holds w name i ≡ true
unfolding get_or elements rule_ips
no_rules name i rules items ips w e e' e'' h =
    let none_listed : ◌≡◌ {A = Result (List Json)} (ok []) (ok items) =
      rw (sym (ok_injective (arr nil) rules e)) at e' in
    let none_read : ◌≡◌ {A = Result (List String)} (ok []) (ok ips) =
      rw (sym (ok_injective _ _ none_listed)) at e'' in
    absurd (nothing i (rw (sym (ok_injective _ _ none_read)) at h))
  where
    nothing : (i : String) → member i [] ≡ true → ⊥
    nothing i h = cc

rule_holds :
    (name ip : String) (uid : Json) (w : Cluster)
    → uid ≡ str name
    → holds (with_rule uid ip w).1 name ip ≡ true
rule_holds name ip uid w e = rw e (
    ap (λ (o : Option (List String)). member ip (addresses o))
      (lookup-assign name name (ip ∷ addresses (lookup name w)) w)
    ∙ ground (arith, eq_refl name, eq_refl ip))

abbrev with_permission : (fs group type : String) → Cluster → Cluster
with_permission fs group type w = assign table (fs ∷ group ∷ type ∷ permissions w) w

permission_made :
    (fs group type : String) (w : Cluster)
    → type_of (with_permission fs group type w) fs group ≡ some type
permission_made fs group type w =
    ap (λ (o : Option (List String)). first_type fs group (addresses o))
      (lookup-assign table table (fs ∷ group ∷ type ∷ permissions w) w)
    ∙ ground (arith, eq_refl fs, eq_refl group)

groups_kept :
    (name ip fs group type : String) (w : Cluster)
    → holds w name ip ≡ true
    → holds (with_permission fs group type w) name ip ≡ true
groups_kept name ip fs group type w h =
    ap (λ (o : Option (List String)). member ip (addresses o))
      (lookup-assign table name (fs ∷ group ∷ type ∷ permissions w) w)
    ∙ kept_either
  where
    kept_either :
        member ip (
          addresses
            (if table == name then some (fs ∷ group ∷ type ∷ permissions w) else lookup name w))
        ≡ true
    kept_either = elim (Bool-cases (table == name)) [
      | inl same ↦ rw (if_true _ (some (fs ∷ group ∷ type ∷ permissions w)) _ same) (
          let there : member ip (permissions w) ≡ true =
            rw (sym ((eq_iff table name).0 same)) at h in
          ground (arith, there))
      | inr other ↦ rw (if_false _ (some (fs ∷ group ∷ type ∷ permissions w)) _ other) h
    ]

store : NfsStore gateway
unfolding norm_weka_ip
store = record {
  holds = holds;
  type_of = type_of;
  Owns = Owns;
  list_groups =
      λ w name groups cg uid e f i. group_found name cg uid w (rw (read_back _ _ e) at f) i;
  create_group = λ name w. made-Owns name w (name == table) refl;
  read_group = λ name uid w owns rules items ips i. no_rules name i rules items ips w;
  add_rule = λ name uid ip w (e, plain). rule_holds name ip uid w e;
  list_permissions = λ w fs group type perms perm e f h.
      type_found fs group type perm (permissions w) (rw (read_back _ _ e) at f) h;
  create_permission = λ fs group type path squash w. permission_made fs group type w;
  list_permissions_groups = λ group ip. record { at = λ w h. h };
  create_permission_groups = λ group ip group' fs path type squash. record {
    at = λ w h. groups_kept group ip fs group' type w h;
  };
  delete_permission_groups = λ group ip uid. record { at = λ w h. h };
}

abbrev group_name : String
group_name = nfs_cg_name share.id (some rule.access_id)

abbrev applied : Cluster
applied =
    with_permission "fs" group_name "RW"
      (with_rule (str group_name) "10.0.0.1" (assign group_name [] [])).1

applies : apply_nfs_rule gateway share "fs" rule [] ≡ (ok tt, applied)
unfolding apply_nfs_rule nfs_cg_name ◌>>=◌ groups_json permissions_json lookup assign
applies = refl

apply_nfs_rule-holds_example :
    (type_of applied "fs" group_name ≡ some "RW") × (holds applied group_name "10.0.0.1" ≡ true)
unfolding norm_weka_ip cidr_to_weka_ip lookup store
apply_nfs_rule-holds_example =
    apply_nfs_rule-holds gateway store share "fs" rule "10.0.0.1" [] applied refl applies
