-- ===== src/Tests/Policies.antt =====
-- The test cluster's policies behave as `PolicyStore` says.

use manila_weka_driver.Prelude.{
  ◌≡◌, refl, sym, ap, ◌∙◌, String, true, false, ◌==◌, eq_iff, Option, List, [], ◌∷◌, arith,
  if◌then◌else◌,
}
use manila_weka_driver.Exec.{Result, ok}
use manila_weka_driver.Json.{Json, to_list, texts}
use manila_weka_driver.Driver.{lookup, assign}
use manila_weka_driver.Driver.Orgs.Cache.{lookup-assign}
use manila_weka_driver.Driver.Policies.{policy_uid, policy_ips, as_texts, member, without}
use manila_weka_driver.Driver.Policies.Store.{View, PolicyStore, Same, Reported, with_ip, replaced}
use manila_weka_driver.Tests.Cluster.{
  Cluster, addresses, policy_json, reported, name_of, change, env,
}

abbrev pub view : Cluster → View
view w n i = member i (addresses (lookup n w))

abbrev pub Owns : String → Json → Type 0
Owns name uid = name_of uid ≡ name

as_texts-texts : (ips : List String) → as_texts (to_list (texts ips)) ≡ ok ips
unfolding as_texts
as_texts-texts [] = refl
as_texts-texts (ip ∷ ips) = rw (as_texts-texts ips)

ok_value : {A : Type 0} (a b : A) → ◌≡◌ {A = Result A} (ok a) (ok b) → a ≡ b
ok_value a b e = cc

ips_of :
    (name ip : String) (ips : List String)
    → policy_ips (policy_json name (ip ∷ ips)) ≡ ok (ip ∷ ips)
unfolding policy_ips
ips_of name ip ips = as_texts-texts (ip ∷ ips)

uid_of :
    (name ip : String) (ips : List String) (uid : Json)
    → policy_uid (policy_json name (ip ∷ ips)) ≡ ok uid
    → name_of uid ≡ name
unfolding policy_uid
uid_of String.[] ip ips uid e = rw (← ok_value _ _ e)
uid_of (String.◌∷◌ c s) ip ips uid e = rw (← ok_value _ _ e)

pub Reported-reported :
    (name : String) (ips : List String) (v : View)
    → ((i : String) → v name i ≡ member i ips)
    → Reported v Owns name (reported name ips)
Reported-reported name [] v h = h
Reported-reported name (ip ∷ ips) v h =
    (uid_of name ip ips, λ ips' e i. rw (← ok_value _ _ (sym (ips_of name ip ips) ∙ e)) (sym (h i)))

member-without :
    (ip i : String) (ips : List String)
    → member i (without ip ips) ≡ (if ip == i then false else member i ips)
unfolding without
member-without ip i [] = ground arith
member-without ip i (t ∷ ts) =
    ground (arith, member-without ip i ts, eq_iff t ip, eq_iff t i, eq_iff ip i)

-- The view after an assignment.
pub view-assign :
    (name : String) (ips : List String) (w : Cluster)
    → Same (replaced (view w) name (λ i. member i ips)) (view (assign name ips w))
view-assign name ips w = λ n i.
    ap (λ (o : Option (List String)). member i (addresses o)) (lookup-assign name n ips w)
    ∙ ground arith

module _ (name : String) (uid : Json) (w : Cluster) (owns : Owns name uid) where
  pub added :
      (ip : String) → Same (with_ip (view w) name ip true) (view (change uid (λ ips. ip ∷ ips) w).1)
  added ip = rw owns (λ n i. view-assign name (ip ∷ addresses (lookup name w)) w n i ∙ ground arith)

  pub removed :
      (ip : String) → Same (with_ip (view w) name ip false) (view (change uid (without ip) w).1)
  removed ip = rw owns (λ n i.
      view-assign name (without ip (addresses (lookup name w))) w n i
      ∙ ground (arith, member-without ip i (addresses (lookup name w))))

  pub deleted : Same (replaced (view w) name (λ _. false)) (view (change uid (λ ips. []) w).1)
  deleted = rw owns (λ n i. view-assign name [] w n i ∙ ground arith)

abbrev pub store : PolicyStore env 1
store = record {
  view = view;
  Owns = Owns;
  read = λ name w.
      (Reported-reported name (addresses (lookup name w)) (view w) (λ i. refl), λ n i. refl);
  create = λ name ips action read_only w. view-assign name ips w;
  add = λ name uid ip w owns. added name uid w owns ip;
  remove = λ name uid ip w owns. removed name uid w owns ip;
  delete = λ name uid w owns. deleted name uid w owns;
  attach = λ v fs_uid uid. record { at = λ w p. p };
  detach = λ v fs_uid uid. record { at = λ w p. p };
}
