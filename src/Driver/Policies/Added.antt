-- ===== src/Driver/Policies/Added.antt =====
-- driver.py: how `_policy_set_ip` adds an address to a policy and attaches it, over any cluster
-- whose policies behave as `PolicyStore` says.
use manila_weka_driver.Prelude.{◌≡◌, sym, ◌∙◌, String, true, Option, none, some, [], ◌∷◌}
use manila_weka_driver.Exceptions.{is_api_error}
use manila_weka_driver.Exec.Rules.{
  Keeps, Keeps-pure, Keeps-raise, Keeps-bind, Keeps-lift, Keeps-if, Keeps-catching_if, Meets,
  Meets-pure, Meets-if,
}
use manila_weka_driver.Exec.Tolerance.{Ended-map, Ends-into, Meets-lift-then, tolerate}
use manila_weka_driver.Json.{Json, truthy}
use manila_weka_driver.Weka.{Handle}
use manila_weka_driver.Driver.{Env}
use manila_weka_driver.Driver.Errors.{is_already_exists_error, is_attached_before}
use manila_weka_driver.Driver.Policies.{
  Level, is_read_only, member, policy_uid, policy_ips, attach, ensure_ip,
}
use manila_weka_driver.Driver.Policies.Store.{View, PolicyStore, Same, replaced, with_ip, Reported}
use manila_weka_driver.Driver.Policies.Views.{with_ip-Same, created_Same, with_ip_present}

module _ {W : Type 0} (env : Env W) (client : Handle) (share_id : String) (fs_uid : Json)
    (store : PolicyStore env client) where
  abbrev Seen : View → W → Type 0
  Seen v w = Same v (store.view w)

  pub attach-Seen : (v : View) (pol : Json) → Keeps (Seen v) (attach env client share_id fs_uid pol)
  unfolding attach
  attach-Seen v pol =
      Keeps-if (truthy fs_uid) _ _
        (λ _. Keeps-bind _ _ (Keeps-lift (policy_uid pol)) λ uid.
          Keeps-catching_if is_api_error _ _
            (Keeps-bind _ _ (store.attach v fs_uid uid) λ _. Keeps-pure tt)
            (λ e _. Keeps-if (is_attached_before e) _ _ (λ _. Keeps-pure tt) (λ _. Keeps-raise e)))
        (λ _. Keeps-pure tt)

  pub ensure_ip-adds :
      (v : View) (name : String) (level : Level) (ip : String) (o : Option Json)
      → Reported v store.Owns name o
      → Meets
          (Seen v)
          (ensure_ip env client share_id fs_uid name level ip o)
          (λ _. Seen (with_ip v name ip true))
          (λ _. Unit {0})
  unfolding ensure_ip
  ensure_ip-adds v name level ip none h = record {
    at = λ w seen.
        Ends-into
          (λ pol w'. Same (replaced (store.view w) name (λ i. member i (ip ∷ []))) (store.view w'))
          (λ pol. Seen (with_ip v name ip true)) (λ w'. Same (store.view w) (store.view w')) _
          (λ pol w' k. created_Same v (store.view w) (store.view w') name ip h seen k)
          (store.create name (ip ∷ []) "Allow" (is_read_only level) w);
  }
  ensure_ip-adds v name level ip (some pol) (owns, reported) =
      Meets-lift-then (policy_ips pol) _ λ ips read.
        Meets-if (member ip ips) _ _
          (λ there. Meets-pure pol (λ w seen.
            with_ip_present v (store.view w) v name ip (sym (reported ips read ip) ∙ there) seen))
          λ missing. Meets-lift-then (policy_uid pol) _ λ uid found. record {
            at = λ w seen.
                tolerate (Seen (with_ip v name ip true)) pol is_api_error is_already_exists_error
                  (env.weka.update_security_policy client uid (ip ∷ []) []) w
                  (Ended-map (λ _ w'. Same (with_ip (store.view w) name ip true) (store.view w'))
                    (λ _. Seen (with_ip v name ip true))
                    (λ e w'.
                      Same (store.view w) (store.view w')
                      × (is_already_exists_error e ≡ true → store.view w name ip ≡ true))
                    (λ e w'. is_already_exists_error e ≡ true → Seen (with_ip v name ip true) w') _
                    (λ _ w' k. with_ip-Same v (store.view w) (store.view w') name ip true seen k)
                    (λ e w' (k, exists) t.
                      with_ip_present v (store.view w') v name ip (sym (seen name ip) ∙ exists t)
                        (λ n i. k n i ∙ seen n i))
                    (store.add name uid ip w (owns uid found)));
          }
