-- ===== src/Driver/Policies/Others.antt =====
-- driver.py: taking an address out of a policy leaves every other address that a policy matches.
use manila_weka_driver.Prelude.{
  ◌≡◌, refl, ◌∙◌, String, true, false, ◌&&◌, ◌==◌, eq_iff, Option, none, some, List, [], ◌∷◌, arith,
  inl, inr, Bool-cases, if◌then◌else◌,
}
use manila_weka_driver.Exceptions.{is_api_error, is_not_found}
use manila_weka_driver.Exec.{ok, Exec}
use manila_weka_driver.Exec.Rules.{
  Keeps, Keeps-pure, Keeps-bind, Keeps-lift, Keeps-lift-bind, Keeps-if, Keeps-catching_if,
  Keeps-Meets, Meets, Meets-bind, Meets-Keeps, ends_into,
}
use manila_weka_driver.Exec.Tolerance.{kept_Ended}
use manila_weka_driver.Json.{Json, truthy}
use manila_weka_driver.Weka.{Handle}
use manila_weka_driver.Driver.{Env}
use manila_weka_driver.Driver.Names.{wekafs_policy_name}
use manila_weka_driver.Driver.Policies.{
  Level, level_text, member, without, policy_uid, policy_ips, ignoring, detach, drop_policy,
  take_out, drop_if_empty, remove_ip, policy_set_ip,
}
use manila_weka_driver.Driver.Policies.Store.{PolicyStore, Same, replaced, with_ip, Reported, Lost}
use manila_weka_driver.Driver.Policies.Views.{left_only}

module _ {W : Type 0} (env : Env W) (client : Handle) (share_id : String) (fs_uid : Json)
    (store : PolicyStore env client) (name i : String) where
  -- The policy of the name matches the address.
  abbrev pub Granted : W → Type 0
  Granted w = store.view w name i ≡ true

  Granted-Same : (w w' : W) → Granted w → Same (store.view w) (store.view w') → Granted w'
  Granted-Same w w' g same = same name i ∙ g

  removed-Granted :
      (n ip : String) (uid : Json)
      → store.Owns n uid
      → (n == name && ip == i) ≡ false
      → Keeps Granted (env.weka.update_security_policy client uid [] (ip ∷ []))
  removed-Granted n ip uid owns apart = record {
    at = λ w g.
        kept_Ended (λ _ w'. Same (with_ip (store.view w) n ip false) (store.view w'))
          (λ e w'. Lost (is_not_found e) n (store.view w) (store.view w')) Granted _
          (λ _ w' same. same name i ∙ ground (arith, eq_iff n name))
          (λ e w' (same, gone). Granted-Same w w' g same) (store.remove n uid ip w owns);
  }

  deleted-Granted :
      (n : String) (uid : Json)
      → store.Owns n uid
      → (n == name) ≡ false
      → Keeps Granted (env.weka.delete_security_policy client uid)
  deleted-Granted n uid owns apart = record {
    at = λ w g.
        kept_Ended (λ _ w'. Same (replaced (store.view w) n (λ _. false)) (store.view w'))
          (λ e w'. Lost (is_not_found e) n (store.view w) (store.view w')) Granted _
          (λ _ w' same. same name i ∙ ground arith) (λ e w' (same, gone). Granted-Same w w' g same)
          (store.delete n uid w owns);
  }

  detach-Granted : (pol : Json) → Keeps Granted (detach env client share_id fs_uid pol)
  unfolding detach
  detach-Granted pol =
      Keeps-if (truthy fs_uid) _ _
        (λ _. Keeps-bind _ _ (Keeps-lift (policy_uid pol)) λ uid.
          Keeps-catching_if is_api_error _ _
            (Keeps-bind _ _
              (record {
                at = λ w g. (store.detach (store.view w) fs_uid uid).at w (λ n x. refl) name i ∙ g;
              })
              λ _. Keeps-pure tt)
            (λ e _. Keeps-pure tt))
        (λ _. Keeps-pure tt)

  ignoring-Granted : (m : Exec W Json) → Keeps Granted m → Keeps Granted (ignoring is_not_found m)
  ignoring-Granted m k =
      Keeps-catching_if is_not_found _ _ (Keeps-bind _ _ k λ _. Keeps-pure tt)
        (λ e _. Keeps-pure tt)

  -- What a lookup of the policy `n` tells.
  abbrev pub Shows : String → Option Json → Type 0
  Shows n none = Unit {0}
  Shows n (some pol) =
      ((uid : Json) → policy_uid pol ≡ ok uid → store.Owns n uid)
      × ((ips : List String) → policy_ips pol ≡ ok ips → (n == name) ≡ true → member i ips ≡ true)

  shown :
      (n : String) (w : W) (o : Option Json)
      → Granted w
      → Reported (store.view w) store.Owns n o
      → Shows n o
  shown n w none g r = tt
  shown n w (some pol) g (owns, r) = (owns, λ ips e same. r ips e i ∙ ground (arith, eq_iff n name))

  pub read-Shows :
      (n : String)
      → Meets Granted
          (env.weka.get_security_policy_by_name client n)
          (λ o w. Shows n o × Granted w)
          Granted
  read-Shows n = record {
    at = λ w g.
        ends_into
          (λ o w'. Reported (store.view w) store.Owns n o × Same (store.view w) (store.view w'))
          (λ o w'. Shows n o × Granted w') (λ w'. Same (store.view w) (store.view w')) Granted _
          (λ o w' (r, same). (shown n w o g r, Granted-Same w w' g same))
          (λ w' same. Granted-Same w w' g same) (store.read n w);
  }

  module _ (n ip : String) (apart : (n == name && ip == i) ≡ false) where
    take_out-Granted :
        (pol : Json) (ips : List String)
        → Shows n (some pol)
        → Keeps Granted (take_out env client share_id fs_uid ip pol ips)
    unfolding take_out
    take_out-Granted pol ips (owns, r) =
        Keeps-if (member ip ips) _ _
          (λ _.
            Keeps-lift-bind (policy_uid pol) _
              λ uid e. ignoring-Granted _ (removed-Granted n ip uid (owns uid e) apart))
          (λ _. Keeps-pure tt)

    drop_policy-Granted :
        (pol : Json)
        → Shows n (some pol)
        → (n == name) ≡ false
        → Keeps Granted (drop_policy env client share_id fs_uid pol)
    unfolding drop_policy
    drop_policy-Granted pol (owns, r) other = Keeps-bind _ _ (detach-Granted pol) λ _.
        Keeps-lift-bind (policy_uid pol) _
          λ uid e. ignoring-Granted _ (deleted-Granted n uid (owns uid e) other)

    drop_if_empty-Granted :
        (pol : Json) (left : List String)
        → Shows n (some pol)
        → (left ≡ [] → (n == name) ≡ false)
        → Keeps Granted (drop_if_empty env client share_id fs_uid pol left)
    unfolding drop_if_empty
    drop_if_empty-Granted pol [] shows other = drop_policy-Granted pol shows (other refl)
    drop_if_empty-Granted pol (x ∷ xs) shows other = Keeps-pure tt

    -- A policy that matches another address is not emptied.
    not_emptied :
        (ips : List String)
        → ((n == name) ≡ true → member i ips ≡ true)
        → (if member ip ips then without ip ips else ips) ≡ []
        → (n == name) ≡ false
    not_emptied ips there none_left = elim (Bool-cases (n == name)) [
      | inl same ↦ absurd (clash same (left_only ip i ips none_left (there same)))
      | inr differ ↦ differ
    ]
      where
        clash : (n == name) ≡ true → (ip == i) ≡ true → ⊥
        clash same e = ground arith

    remove_ip-Granted :
        (o : Option Json) → Shows n o → Keeps Granted (remove_ip env client share_id fs_uid ip o)
    unfolding remove_ip
    remove_ip-Granted none shows = Keeps-pure tt
    remove_ip-Granted (some pol) shows = Keeps-lift-bind (policy_ips pol) _ λ ips e.
        Keeps-bind _ _ (take_out-Granted pol ips shows)
          λ _. drop_if_empty-Granted pol _ shows (not_emptied ips (shows.1 ips e))

  pub policy_set_ip-Granted :
      (level : Level) (ip : String)
      → (wekafs_policy_name share_id (level_text level) == name && ip == i) ≡ false
      → Keeps Granted (policy_set_ip env client share_id fs_uid level ip false)
  unfolding policy_set_ip
  policy_set_ip-Granted level ip apart = Keeps-Meets _ (
      Meets-bind _ _ (read-Shows (wekafs_policy_name share_id (level_text level))) λ o. record {
        at = λ w (shows, g). (Meets-Keeps _ (remove_ip-Granted _ ip apart o shows)).at w g;
      })
