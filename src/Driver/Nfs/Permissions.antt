-- ===== src/Driver/Nfs/Permissions.antt =====
-- driver.py: the permission of a rule in `_apply_nfs_rule`, over any NFS gateway that behaves as
-- `NfsStore` says: it is there with the type of the rule, made or made anew.
use manila_weka_driver.Prelude.{
  ◌≡◌, ap, ◌∙◌, String, true, false, Option, none, some, List, if◌then◌else◌,
}
use manila_weka_driver.Exec.{ok, pure, lift, ◌>>=◌, ◌>>◌}
use manila_weka_driver.Exec.Rules.{
  Meets, Meets-bind, Meets-pure, Meets-if, Meets-and, Meets-Keeps, Meets-weaken,
}
use manila_weka_driver.Exec.Tolerance.{Anything, Meets-forget, Meets-lift-then, Meets-lift-into}
use manila_weka_driver.Json.{
  Json, null, str, get, or_else, or_empty, index, elements, is_text, is_text-str,
}
use manila_weka_driver.Weka.{admin}
use manila_weka_driver.Driver.{Env}
use manila_weka_driver.Driver.Errors.{norm_weka_ip}
use manila_weka_driver.Driver.Exports.{
  find_permission, listed, find_nfs_permission, create_permission, ensure_permission,
}
use manila_weka_driver.Driver.Nfs.Store.{NfsStore}
use manila_weka_driver.Driver.Nfs.Groups.{Holds}

module _ {W : Type 0} (env : Env W) (store : NfsStore env) where
  null_is_no_text : (s : String) → is_text s null ≡ true → ⊥
  unfolding is_text
  null_is_no_text s h = cc

  -- The permission of the filesystem and the group has the type, and the group holds the address.
  abbrev pub Granted : (fs name type ip : String) → W → Type 0
  Granted fs name type ip w = store.type_of w fs name ≡ some type × Holds env store name ip w

  abbrev FoundType : (fs name : String) → Option Json → W → Type 0
  FoundType fs name none w = Unit {0}
  FoundType fs name (some perm) w =
      (type : String)
      → get "permission_type" perm ≡ ok (some (str type))
      → store.type_of w fs name ≡ some type

  found_type :
      (fs name : String) (perms : List Json) (o : Option Json) (w : W)
      → ((type : String) (perm : Json)
          → find_permission fs name perms ≡ ok (some perm)
          → get "permission_type" perm ≡ ok (some (str type))
          → store.type_of w fs name ≡ some type)
      → find_permission fs name perms ≡ ok o
      → FoundType fs name o w
  found_type fs name perms none w h e = tt
  found_type fs name perms (some perm) w h e = λ type at. h type perm e at

  module _ (fs name ip : String) where
    list_permissions-Holds :
        Meets
          (Holds env store name ip)
          (env.weka.list_nfs_permissions admin)
          (λ v w.
            ((type : String) (perms : List Json) (perm : Json)
              → elements (or_empty v) ≡ ok perms
              → find_permission fs name perms ≡ ok (some perm)
              → get "permission_type" perm ≡ ok (some (str type))
              → store.type_of w fs name ≡ some type)
            × Holds env store name ip w)
          Anything
    unfolding Holds
    list_permissions-Holds =
        Meets-weaken _ (λ w h. (tt, h)) (λ v w (law, h). (law fs name, h)) (λ w _. tt)
          (Meets-and _ (record { at = λ w (_ : Unit {0}). store.list_permissions w })
            (store.list_permissions_groups name (norm_weka_ip env ip)))

    permissions_read :
        Meets
          (Holds env store name ip)
          (listed (env.weka.list_nfs_permissions admin))
          (λ perms w.
            ((type : String) (perm : Json)
              → find_permission fs name perms ≡ ok (some perm)
              → get "permission_type" perm ≡ ok (some (str type))
              → store.type_of w fs name ≡ some type)
            × Holds env store name ip w)
          Anything
    unfolding listed
    permissions_read = Meets-bind _ _ list_permissions-Holds λ v.
        Meets-lift-into (elements (or_empty v))
          λ perms e w (law, h). (λ type perm. law type perms perm e, h)

    find_nfs_permission-Found :
        Meets
          (Holds env store name ip)
          (find_nfs_permission env fs name)
          (λ o w. FoundType fs name o w × Holds env store name ip w)
          Anything
    unfolding find_nfs_permission
    find_nfs_permission-Found = Meets-bind _ _ permissions_read λ perms.
        Meets-lift-into (find_permission fs name perms)
          λ o e w (law, h). (found_type fs name perms o w law e, h)

    create_permission-Granted :
        (type : String)
        → Meets
            (Holds env store name ip)
            (create_permission env name fs type)
            (λ _. Granted fs name type ip)
            Anything
    unfolding Holds
    create_permission-Granted type =
        Meets-bind _ _
          (Meets-weaken _ (λ w h. (tt, h)) (λ v w g. g) (λ w _. tt)
            (Meets-and _
              (record { at = λ w (_ : Unit {0}). store.create_permission fs name type "/" false w })
              (store.create_permission_groups name (norm_weka_ip env ip) name fs "/" type false)))
          λ _. Meets-pure tt (λ w g. g)

    deleting :
        (uid : Json)
        → Meets
            (Holds env store name ip)
            (env.weka.delete_nfs_permission admin uid)
            (λ _. Holds env store name ip)
            Anything
    unfolding Holds
    deleting uid =
        Meets-forget _
          (Meets-Keeps _ (store.delete_permission_groups name (norm_weka_ip env ip) uid))

    said_type :
        (type : String) (kind : Option Json)
        → is_text type (or_else kind null) ≡ true
        → kind ≡ some (str type)
    said_type type none h = absurd (null_is_no_text type h)
    said_type type (some v) h = ap some (is_text-str type v h)

    permission_found :
        (type : String) (o : Option Json)
        → Meets
            (λ w. FoundType fs name o w × Holds env store name ip w)
            (elim o [
              | none ↦ create_permission env name fs type
              | some perm ↦ (do
                kind ← lift (get "permission_type" perm)
                if is_text type (or_else kind null) then pure tt else (do
                  uid ← lift (index "uid" perm)
                  env.weka.delete_nfs_permission admin uid
                  create_permission env name fs type))
            ])
            (λ _. Granted fs name type ip)
            Anything
    permission_found type none =
        Meets-weaken _ (λ w (_, h). h) (λ a w g. g) (λ w _. tt) (create_permission-Granted type)
    permission_found type (some perm) = Meets-lift-then (get "permission_type" perm) _ λ kind e.
        Meets-if (is_text type (or_else kind null)) _ _
          (λ same. Meets-pure tt λ w (law, h). (law type (e ∙ ap ok (said_type type kind same)), h))
          λ other. Meets-lift-then (index "uid" perm) _ λ uid at.
            Meets-bind _ _
              (Meets-weaken _ (λ w (law, h). h) (λ a w h. h) (λ w _. tt) (deleting uid))
              λ _. create_permission-Granted type

    pub ensure_permission-Granted :
        (type : String)
        → Meets
            (Holds env store name ip)
            (ensure_permission env name fs type)
            (λ _. Granted fs name type ip)
            Anything
    unfolding ensure_permission
    ensure_permission-Granted type =
        Meets-bind _ _ find_nfs_permission-Found (permission_found type)
