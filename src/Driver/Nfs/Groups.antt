-- ===== src/Driver/Nfs/Groups.antt =====
-- driver.py: the client group of a rule in `_apply_nfs_rule`, over any NFS gateway that behaves as
-- `NfsStore` says: the group is found or made, and holds the address.
use manila_weka_driver.Prelude.{
  ◌≡◌, refl, String, Bool, true, false, Option, none, some, List, [], arith, if◌then◌else◌,
}
use manila_weka_driver.Exceptions.{Exc, is_api_error}
use manila_weka_driver.Exec.{Result, ok, err, Exec, pure, raise, lift, catching_if, ◌>>=◌, ◌>>◌}
use manila_weka_driver.Exec.Rules.{Meets, Meets-bind, Meets-pure, Meets-if, Ends}
use manila_weka_driver.Exec.Tolerance.{Anything, Meets-lift-then, Meets-lift-into, tolerate}
use manila_weka_driver.Json.{Json, arr, nil, get_or, or_empty, index, elements}
use manila_weka_driver.Client.Api.{find_named}
use manila_weka_driver.Weka.{admin}
use manila_weka_driver.Driver.{Env}
use manila_weka_driver.Driver.Errors.{norm_weka_ip, is_already_exists_error}
use manila_weka_driver.Driver.Policies.{member}
use manila_weka_driver.Driver.Exports.{
  listed, rule_ips, client_group_by_name, group_and_ips, ensure_group_rule,
}
use manila_weka_driver.Driver.Nfs.Store.{NfsStore}

module _ {W : Type 0} (env : Env W) (store : NfsStore env) where
  -- A group as it was found or made.
  abbrev pub OwnsGroup : String → Json → Type 0
  OwnsGroup name cg = (uid : Json) → index "uid" cg ≡ ok uid → store.Owns name uid

  abbrev FoundGroup : String → Option Json → Type 0
  FoundGroup name none = Unit {0}
  FoundGroup name (some cg) = OwnsGroup name cg

  found_group :
      (name : String) (groups : List Json) (o : Option Json)
      → ((cg uid : Json)
          → find_named name groups ≡ ok (some cg)
          → index "uid" cg ≡ ok uid
          → store.Owns name uid)
      → find_named name groups ≡ ok o
      → FoundGroup name o
  found_group name groups none h e = tt
  found_group name groups (some cg) h e = λ uid i. h cg uid e i

  groups_read :
      (name : String)
      → Meets Anything
          (listed (env.weka.list_client_groups admin))
          (λ groups _.
            (cg uid : Json)
            → find_named name groups ≡ ok (some cg)
            → index "uid" cg ≡ ok uid
            → store.Owns name uid)
          Anything
  unfolding listed
  groups_read name =
      Meets-bind _ _ (record { at = λ w _. store.list_groups w })
        λ v.
          Meets-lift-into (elements (or_empty v)) λ groups e w law cg uid. law name groups cg uid e

  client_group_by_name-Found :
      (name : String)
      → Meets Anything (client_group_by_name env name) (λ o _. FoundGroup name o) Anything
  unfolding client_group_by_name
  client_group_by_name-Found name =
      Meets-bind _ _ (groups_read name)
        λ groups. Meets-lift-into (find_named name groups) λ o e w h. found_group name groups o h e

  abbrev pub HoldsAll : String → List String → W → Type 0
  HoldsAll name ips w = (i : String) → member i ips ≡ true → store.holds w name i ≡ true

  read_ips :
      (name : String) (o : Option Json)
      → Meets
          (λ _. FoundGroup name o)
          (elim o [
            | none ↦ (do cg ← env.weka.create_client_group admin name; pure (cg, []))
            | some cg ↦ (do
              uid ← lift (index "uid" cg)
              detail ← env.weka.get_client_group admin uid
              rules ← lift (get_or "rules" (arr nil) detail)
              items ← lift (elements rules)
              ips ← lift (rule_ips env items)
              pure (cg, ips))
          ])
          (λ (cg, ips) w. OwnsGroup name cg × HoldsAll name ips w)
          Anything
  read_ips name none =
      Meets-bind _ _ (record { at = λ w _. store.create_group name w })
        λ cg. Meets-pure (cg, []) (λ w owns. (owns, λ i e. cc))
  read_ips name (some cg) = record {
    at = λ w owns.
        (Meets-lift-then {P = Anything} (index "uid" cg) _ λ uid at.
            Meets-bind _ _ (record { at = λ w _. store.read_group name uid w (owns uid at) })
              λ detail. Meets-lift-then (get_or "rules" (arr nil) detail) _ λ rules e.
                Meets-lift-then (elements rules) _ λ items e'.
                  Meets-lift-then (rule_ips env items) _ λ ips e''.
                    Meets-pure (cg, ips) (λ w law. (owns, λ i. law rules items ips i e e' e''))).at
          w tt;
  }

  pub group_and_ips-Holds :
      (name : String)
      → Meets Anything
          (group_and_ips env name)
          (λ (cg, ips) w. OwnsGroup name cg × HoldsAll name ips w)
          Anything
  unfolding group_and_ips
  group_and_ips-Holds name = Meets-bind _ _ (client_group_by_name-Found name) (read_ips name)

  unfoldable pub Holds : String → String → W → Type 0
  Holds name ip w = store.holds w name (norm_weka_ip env ip) ≡ true

  index-no_api_error :
      (k : String) (v : Json) (e : Exc) → index k v ≡ err e → is_api_error e ≡ false
  unfolding index
  index-no_api_error k v e h = ground (arith, h)

  not_handled :
      (Q : W → Type 0) (b : Bool) (m : Exec W (Unit {0})) (e : Exc) (w : W)
      → b ≡ false
      → Ends (λ _. Q) Anything ((if b then m else raise e) w)
  unfolding raise
  not_handled Q true m e w h = cc
  not_handled Q false m e w h = tt

  add_rule-Holds :
      (name ip : String) (r : Result Json)
      → ((uid : Json) → r ≡ ok uid → store.Owns name uid)
      → ((e : Exc) → r ≡ err e → is_api_error e ≡ false)
      → Meets Anything
          (catching_if is_api_error
            (do uid ← lift r; env.weka.add_client_group_rule admin uid "IP" ip; pure tt)
            (λ e. if is_already_exists_error e then pure tt else raise e))
          (λ _. Holds name ip)
          Anything
  unfolding ◌>>=◌ Holds
  add_rule-Holds name ip (ok uid) owns other = record {
    at = λ w _.
        tolerate (Holds name ip) tt is_api_error is_already_exists_error
          (env.weka.add_client_group_rule admin uid "IP" ip) w
          (store.add_rule name uid ip w (owns uid refl));
  }
  add_rule-Holds name ip (err e) owns other = record {
    at = λ w _. not_handled _ (is_api_error e) _ e w (other e refl);
  }

  ensure_group_rule-Holds :
      (name ip : String) (cg : Json)
      → OwnsGroup name cg
      → Meets Anything (ensure_group_rule env cg ip) (λ _. Holds name ip) Anything
  unfolding ensure_group_rule
  ensure_group_rule-Holds name ip cg owns =
      add_rule-Holds name ip (index "uid" cg) owns (index-no_api_error "uid" cg)

  pub in_group :
      (name ip : String) (cg : Json) (existing : List String)
      → Meets
          (λ w. OwnsGroup name cg × HoldsAll name existing w)
          (if member (norm_weka_ip env ip) existing then pure tt else ensure_group_rule env cg ip)
          (λ _. Holds name ip)
          Anything
  unfolding Holds
  in_group name ip cg existing =
      Meets-if (member (norm_weka_ip env ip) existing) _ _
        (λ there. Meets-pure tt λ w (owns, all). all (norm_weka_ip env ip) there)
        λ missing. record {
          at = λ w (owns, all). (ensure_group_rule-Holds name ip cg owns).at w tt;
        }
