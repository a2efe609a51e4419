-- ===== src/Tests/Witnesses.antt =====
-- An instance of each property of the development.

use manila_weka_driver.Prelude.{
  ltb, if◌then◌else◌, String, Bool, any, inl, ◌&&◌, ◌==◌, inr, ℕ, ◌≤◌, ◌≡◌, ◌≢◌, ◌↔◌, refl, true,
  false, none, some, List, [], ◌∷◌, arith,
}
use manila_weka_driver.Text.{len, undashed}
use manila_weka_driver.Exec.{Result, ok, ◌>>=◌}
use manila_weka_driver.Json.{Json, null, num, str, dict, index}
use manila_weka_driver.Driver.{lookup, assign, active, failed, available, Driver, Config}
use manila_weka_driver.Driver.Names.{
  share_name, snapshot_name, org_name, wekafs_policy_name, nfs_cg_name,
}
use manila_weka_driver.Driver.Errors.{policy_ip}
use manila_weka_driver.Driver.Names.Limits.{len-share_name, len-snapshot_name}
use manila_weka_driver.Driver.Names.Isolation.{org_name_iff}
use manila_weka_driver.Driver.Orgs.{org_client}
use manila_weka_driver.Driver.Orgs.Cache.{CacheAfter, org_client-CacheAfter, org_client_again}
use manila_weka_driver.Driver.Policies.{read_write, read_only, policy_set_ip}
use manila_weka_driver.Driver.Policies.Store.{Same, with_ip}
use manila_weka_driver.Driver.Policies.Addresses.{policy_set_ip-Meets}
use manila_weka_driver.Driver.Wekafs.{States, rule_level, apply_wekafs_rule, apply_rules}
use manila_weka_driver.Driver.Wekafs.Levels.{apply_wekafs_rule-view, moved}
use manila_weka_driver.Driver.Wekafs.Verdicts.{apply_rules-Judged}
use manila_weka_driver.Driver.Verdicts.{Judged}
use manila_weka_driver.Driver.Nfs.{remove_permissions, apply_nfs_rule, update_nfs_access}
use manila_weka_driver.Driver.Nfs.Verdicts.{update_nfs_access-Judged}
use manila_weka_driver.Driver.Orgs.Frame.{Opens}
use manila_weka_driver.Driver.Shares.{used_bytes, shrink_share}
use manila_weka_driver.Driver.Shares.Shrinking.{Sized, shrink_share-Keeps}
use manila_weka_driver.Driver.Exports.{perm_keys}
use manila_weka_driver.Driver.Nfs.Marker.{remove_permissions-marked}
use manila_weka_driver.Driver.Copies.{get_share_status}
use manila_weka_driver.Driver.Copies.History.{
  Event, restarted, begun, ended, run, get_share_status-run,
}
use manila_weka_driver.Exec.Rules.{Meets, Keeps}
use manila_weka_driver.Exec.Tolerance.{Anything}
use manila_weka_driver.Weka.{admin}
use manila_weka_driver.Tests.Cluster.{used, Cluster, config, env, share, rule, user_rule}
use manila_weka_driver.Tests.Policies.{store, view}

-- A cluster where the address is in the share's read-only policy: the rule moves it.
abbrev before : Cluster
before = ("manila-11111111-ro", "10.0.0.1" ∷ []) ∷ []

abbrev after : Cluster
after = ("manila-11111111-ro", []) ∷ ("manila-11111111-rw", "10.0.0.1" ∷ []) ∷ []

run_apply : apply_wekafs_rule env 1 share.id null rule before ≡ (ok tt, after)
unfolding apply_wekafs_rule policy_set_ip ◌>>=◌ lookup assign
run_apply = refl

address : policy_ip env "10.0.0.1" ≡ ok "10.0.0.1"
unfolding policy_ip
address = refl

apply_wekafs_rule-view_example :
    (view after "manila-11111111-rw" "10.0.0.1" ≡ true)
    × (view after "manila-11111111-ro" "10.0.0.1" ≡ false)
    × Same (moved env 1 share.id null store (view before) read_write "10.0.0.1") (view after)
unfolding rule_level wekafs_policy_name
apply_wekafs_rule-view_example =
    apply_wekafs_rule-view env 1 share.id null store rule "10.0.0.1" before after address run_apply

policy_set_ip-Meets_example :
    Meets
      (λ w. Same (view before) (view w))
      (policy_set_ip env 1 share.id null read_only "10.0.0.1" false)
      (λ _ w. Same (with_ip (view before) "manila-11111111-ro" "10.0.0.1" false) (view w))
      (λ _. Unit {0})
unfolding wekafs_policy_name
policy_set_ip-Meets_example =
    policy_set_ip-Meets env 1 share.id null store (view before) read_only "10.0.0.1" false

update_nfs_access-Judged_example :
    (states : States) × (w' : Cluster) × (update_nfs_access env share
        (rule ∷ user_rule ∷ [])
        (rule ∷ [])
        false
        before
      ≡ (ok states, w'))
    × ((x : Cluster) × Judged env
          (apply_nfs_rule env share (share_name env.config share.id))
          (active none)
          failed
          (rule ∷ user_rule ∷ [])
          before
          []
          states
          x)
update_nfs_access-Judged_example =
    update_nfs_access-Judged env share (rule ∷ user_rule ∷ []) (rule ∷ []) before

apply_rules-Judged_example :
    (states : States) × (w' : Cluster) × (apply_rules env 1 share.id null "key"
        (rule ∷ user_rule ∷ [])
        []
        before
      ≡ (ok states, w'))
    × Judged env
        (apply_wekafs_rule env 1 share.id null)
        (active (some "key"))
        (active (some "key"))
        (rule ∷ user_rule ∷ [])
        before
        []
        states
        w'
apply_rules-Judged_example =
    apply_rules-Judged env 1 share.id null "key" (rule ∷ user_rule ∷ []) before

abbrev driver : Driver Cluster
driver = record { org_clients = ("other", 7) ∷ []; async_copies = []; weka = before }

abbrev opened : Driver Cluster
opened = record driver { org_clients = ("other", 7) ∷ ("abc", 1) ∷ [] }

org_client-CacheAfter_example : CacheAfter "abc" driver (org_client env (some "abc") driver)
org_client-CacheAfter_example = org_client-CacheAfter env "a" "bc" driver

run_org_client : org_client env (some "abc") driver ≡ (ok 1, opened)
unfolding org_client ◌>>=◌ lookup assign
run_org_client = refl

org_client_again_example : org_client env (some "abc") opened ≡ (ok 1, opened)
org_client_again_example = org_client_again env "a" "bc" 1 driver opened run_org_client

org_name_iff_example :
    (org_name config (some "ab-c") ≡ org_name config (some "abc"))
    ↔ (undashed "ab-c" ≡ undashed "abc")
org_name_iff_example = org_name_iff config "ab-c" "abc"

abbrev events : List Event
events = ended "other" false ∷ ended share.id true ∷ begun share.id null "fs" ∷ restarted ∷ []

get_share_status-run_example :
    let reported = get_share_status env share (run events) in
    (reported.status ≡ available) × ((available ≡ available) ↔ (reported.export_locations ≢ none))
get_share_status-run_example = get_share_status-run env share events

len-share_name_example : len (share_name config share.id) ≤ 32
len-share_name_example = len-share_name config share.id (omega arith)

abbrev wide : Config
wide = record config { share_name_prefix = "a_prefix_of_more_than_32_characters_" }

len-snapshot_name_example : len (snapshot_name "11111111-2222-3333-4444-555555555555") ≤ 32
len-snapshot_name_example = len-snapshot_name "11111111-2222-3333-4444-555555555555"

-- No filesystem has been cut below its use.
abbrev Uncut : Cluster → Type 0
Uncut w = lookup "cut below use" w ≡ none

Uncut-resize :
    (n k : ℕ) (w : Cluster)
    → Uncut w
    → k ≤ n
    → Uncut (if ltb n k then assign "cut below use" [] w else w)
Uncut-resize n k w p le = ground arith

reported_use : (u : ℕ) → used_bytes (dict (("used_total", num used) ∷ [])) ≡ ok u → used ≤ u
unfolding used_bytes
reported_use u e = ok_use _ _ e
  where
    ok_use : (a b : ℕ) → ◌≡◌ {A = Result ℕ} (ok a) (ok b) → a ≤ b
    ok_use a b h = ground arith

opens : Opens env Uncut
opens = record {
  org_by_name = λ name. record { at = λ w p. p };
  new_org = λ name user password. record { at = λ w p. p };
  login = λ name user password. record { at = λ w p. p };
}

sized : Sized env Uncut (λ h uid w. used)
sized = record {
  opens = opens;
  by_name = λ h name. record { at = λ w p. p };
  look = λ h uid. record { at = λ w p. (p, reported_use) };
  resize = λ h uid n. record { at = λ w (p, le). Uncut-resize n used w p le };
}

shrink_share-Keeps_example : Keeps (λ d. Uncut d.weka) (shrink_share env share 2)
shrink_share-Keeps_example = shrink_share-Keeps env Uncut (λ h uid w. used) share 2 sized

-- The rule's ID begins with the eight characters of the share's.
abbrev twin : String
twin = "11111111-9999-9999-9999-999999999999"

abbrev permission : Json
permission = dict (
    ("uid", str "p1")
    ∷ ("filesystem", str "manila_1")
    ∷ ("group", str "manila-11111111-aaaaaaaa")
    ∷ [])

keys_of_permission :
    perm_keys permission
    ≡ ok (str "manila_1", str (nfs_cg_name share.id (some "aaaaaaaa-0000-0000-0000-000000000000")))
unfolding perm_keys nfs_cg_name
keys_of_permission = refl

uid_of_permission : index "uid" permission ≡ ok (str "p1")
unfolding index
uid_of_permission = refl

-- The permission was deleted, as the test cluster records it.
abbrev is_removal : String × List String → Bool
is_removal (call, words) =
    call == "deleted permission" && any (λ (word : String). word == "p1") words

abbrev Removed : Cluster → Type 0
Removed w = any is_removal w ≡ true

later_removal : (uid : Json) → Keeps Removed (env.weka.delete_nfs_permission admin uid)
later_removal uid = record { at = λ w gone. ground (arith, gone) }

remove_permissions-marked_example :
    Meets Anything
      (remove_permissions env "manila_1" "11111111" (dict [] ∷ permission ∷ []) [])
      (λ _. Removed)
      Anything
unfolding manila_weka_driver.Text.take
remove_permissions-marked_example =
    remove_permissions-marked env Removed "manila_1" share.id twin
      "aaaaaaaa-0000-0000-0000-000000000000" permission (str "p1") (dict [] ∷ permission ∷ []) []
      later_removal (record { at = λ w _. refl }) (inr (inl refl)) keys_of_permission
      uid_of_permission (inr refl)
