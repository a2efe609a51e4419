-- ===== src/Driver/Policies/Addresses.antt =====
-- driver.py: what `_policy_set_ip` does to the addresses of a share's policies, over any cluster
-- whose policies behave as `PolicyStore` says.
use manila_weka_driver.Prelude.{
  ◌≡◌, refl, sym, ◌∙◌, String, Bool, true, false, ◌==◌, Option, none, some, List, [], ◌∷◌,
  if◌then◌else◌,
}
use manila_weka_driver.Exceptions.{is_api_error, is_not_found}
use manila_weka_driver.Exec.{ok, ◌>>=◌}
use manila_weka_driver.Exec.Rules.{
  Keeps, Keeps-pure, Keeps-bind, Keeps-lift, Keeps-if, Keeps-catching_if, Meets, Meets-bind,
  Meets-pure, Meets-if, Meets-Keeps,
}
use manila_weka_driver.Exec.Tolerance.{Ended-map, Ends-into, Meets-forget, Meets-lift-then, ignore}
use manila_weka_driver.Json.{Json, truthy}
use manila_weka_driver.Weka.{Handle}
use manila_weka_driver.Driver.{Env}
use manila_weka_driver.Driver.Names.{wekafs_policy_name}
use manila_weka_driver.Driver.Policies.{
  Level, level_text, member, policy_uid, policy_ips, ignoring, attach, ensure_ip, detach,
  drop_policy, take_out, drop_if_empty, remove_ip, policy_set_ip,
}
use manila_weka_driver.Driver.Policies.Store.{
  View, PolicyStore, Same, replaced, with_ip, Reported, Lost,
}
use manila_weka_driver.Driver.Policies.Views.{
  with_ip-Same, with_ip_absent, dropped_Same, Reported-Same, left_only, without_ip,
}
use manila_weka_driver.Driver.Policies.Added.{attach-Seen, ensure_ip-adds}

module _ {W : Type 0} (env : Env W) (client : Handle) (share_id : String) (fs_uid : Json)
    (store : PolicyStore env client) where
  abbrev Seen : View → W → Type 0
  Seen v w = Same v (store.view w)

  remove_step :
      (v : View) (name ip : String) (uid : Json)
      → store.Owns name uid
      → Meets
          (Seen v)
          (ignoring is_not_found (env.weka.update_security_policy client uid [] (ip ∷ [])))
          (λ _. Seen (with_ip v name ip false))
          (λ _. Unit {0})
  remove_step v name ip uid owns = record {
    at = λ w seen.
        ignore (Seen (with_ip v name ip false)) is_not_found
          (env.weka.update_security_policy client uid [] (ip ∷ [])) w
          (Ended-map (λ _ w'. Same (with_ip (store.view w) name ip false) (store.view w'))
            (λ _. Seen (with_ip v name ip false))
            (λ e w'. Lost (is_not_found e) name (store.view w) (store.view w'))
            (λ e w'. is_not_found e ≡ true → Seen (with_ip v name ip false) w') _
            (λ _ w' k. with_ip-Same v (store.view w) (store.view w') name ip false seen k)
            (λ e w' (k, none_left) gone.
              with_ip_absent v (store.view w') v name ip (λ i. sym (seen name i) ∙ none_left gone i)
                (λ n i. k n i ∙ seen n i))
            (store.remove name uid ip w owns));
  }

  delete_step :
      (v : View) (name ip : String) (uid : Json)
      → store.Owns name uid
      → ((i : String) → v name i ≡ true → (ip == i) ≡ true)
      → Meets
          (Seen (with_ip v name ip false))
          (ignoring is_not_found (env.weka.delete_security_policy client uid))
          (λ _. Seen (with_ip v name ip false))
          (λ _. Unit {0})
  delete_step v name ip uid owns only = record {
    at = λ w seen.
        ignore (Seen (with_ip v name ip false)) is_not_found
          (env.weka.delete_security_policy client uid) w
          (Ended-map (λ _ w'. Same (replaced (store.view w) name (λ _. false)) (store.view w'))
            (λ _. Seen (with_ip v name ip false))
            (λ e w'. Lost (is_not_found e) name (store.view w) (store.view w'))
            (λ e w'. is_not_found e ≡ true → Seen (with_ip v name ip false) w') _
            (λ _ w' k. dropped_Same v (store.view w) (store.view w') name ip only seen k)
            (λ e w' (k, none_left) gone. λ n i. k n i ∙ seen n i) (store.delete name uid w owns));
  }

  detach-Seen : (v : View) (pol : Json) → Keeps (Seen v) (detach env client share_id fs_uid pol)
  unfolding detach
  detach-Seen v pol =
      Keeps-if (truthy fs_uid) _ _
        (λ _. Keeps-bind _ _ (Keeps-lift (policy_uid pol)) λ uid.
          Keeps-catching_if is_api_error _ _
            (Keeps-bind _ _ (store.detach v fs_uid uid) λ _. Keeps-pure tt) (λ e _. Keeps-pure tt))
        (λ _. Keeps-pure tt)

  drop_policy-Seen :
      (v : View) (name ip : String) (pol : Json)
      → ((uid : Json) → policy_uid pol ≡ ok uid → store.Owns name uid)
      → ((i : String) → v name i ≡ true → (ip == i) ≡ true)
      → Meets
          (Seen (with_ip v name ip false))
          (drop_policy env client share_id fs_uid pol)
          (λ _. Seen (with_ip v name ip false))
          (λ _. Unit {0})
  unfolding drop_policy
  drop_policy-Seen v name ip pol owns only =
      Meets-bind _ _ (Meets-forget _ (Meets-Keeps _ (detach-Seen (with_ip v name ip false) pol)))
        λ _.
          Meets-lift-then (policy_uid pol) _
            λ uid found. delete_step v name ip uid (owns uid found) only

  take_out-Seen :
      (v : View) (name ip : String) (pol : Json) (ips : List String)
      → ((uid : Json) → policy_uid pol ≡ ok uid → store.Owns name uid)
      → member ip ips ≡ v name ip
      → Meets
          (Seen v)
          (take_out env client share_id fs_uid ip pol ips)
          (λ _. Seen (with_ip v name ip false))
          (λ _. Unit {0})
  unfolding take_out
  take_out-Seen v name ip pol ips owns same =
      Meets-if (member ip ips) _ _
        (λ there.
          Meets-lift-then (policy_uid pol) _
            λ uid found. remove_step v name ip uid (owns uid found))
        λ missing.
          Meets-pure tt (λ w seen. without_ip v (store.view w) v name ip (sym same ∙ missing) seen)

  drop_if_empty-Seen :
      (v : View) (name ip : String) (pol : Json) (left : List String)
      → ((uid : Json) → policy_uid pol ≡ ok uid → store.Owns name uid)
      → (left ≡ [] → (i : String) → v name i ≡ true → (ip == i) ≡ true)
      → Meets
          (Seen (with_ip v name ip false))
          (drop_if_empty env client share_id fs_uid pol left)
          (λ _. Seen (with_ip v name ip false))
          (λ _. Unit {0})
  unfolding drop_if_empty
  drop_if_empty-Seen v name ip pol [] owns only = drop_policy-Seen v name ip pol owns (only refl)
  drop_if_empty-Seen v name ip pol (x ∷ xs) owns only = Meets-pure tt (λ w seen. seen)

  remove_ip-Seen :
      (v : View) (name ip : String) (o : Option Json)
      → Reported v store.Owns name o
      → Meets
          (Seen v)
          (remove_ip env client share_id fs_uid ip o)
          (λ _. Seen (with_ip v name ip false))
          (λ _. Unit {0})
  unfolding remove_ip
  remove_ip-Seen v name ip none h =
      Meets-pure tt (λ w seen. with_ip_absent v (store.view w) v name ip h seen)
  remove_ip-Seen v name ip (some pol) (owns, reported) =
      Meets-lift-then (policy_ips pol) _ λ ips read.
        Meets-bind _ _ (take_out-Seen v name ip pol ips owns (reported ips read ip)) λ _.
          drop_if_empty-Seen v name ip pol _ owns
            (λ none_left i there. left_only ip i ips none_left (reported ips read i ∙ there))

  pub read_policy :
      (v : View) (name : String)
      → Meets
          (Seen v)
          (env.weka.get_security_policy_by_name client name)
          (λ o w. Reported v store.Owns name o × Seen v w)
          (λ _. Unit {0})
  read_policy v name = record {
    at = λ w seen.
        Ends-into
          (λ o w'. Reported (store.view w) store.Owns name o × Same (store.view w) (store.view w'))
          (λ o w'. Reported v store.Owns name o × Seen v w')
          (λ w'. Same (store.view w) (store.view w')) _
          (λ o w' (r, k).
            (Reported-Same v (store.view w) store.Owns name o seen r, λ n i. k n i ∙ seen n i))
          (store.read name w);
  }

  set_found :
      (v : View) (level : Level) (ip : String) (present : Bool) (o : Option Json)
      → let name = wekafs_policy_name share_id (level_text level) in
        Meets
          (λ w. Reported v store.Owns name o × Seen v w)
          (if present
            then (ensure_ip env client share_id fs_uid name level ip o
                >>= attach env client share_id fs_uid)
            else remove_ip env client share_id fs_uid ip o)
          (λ _. Seen (with_ip v name ip present))
          (λ _. Unit {0})
  set_found v level ip true o = record {
    at = λ w (r, seen).
        (Meets-bind _ _ (ensure_ip-adds env client share_id fs_uid store v _ level ip o r) λ pol.
            Meets-forget _ (Meets-Keeps _ (attach-Seen env client share_id fs_uid store _ pol))).at
          w seen;
  }
  set_found v level ip false o = record {
    at = λ w (r, seen). (remove_ip-Seen v _ ip o r).at w seen;
  }

  -- `_policy_set_ip` adds or removes exactly the one address, in exactly the one policy: where it
  -- returns, every other address of every policy is as it was before.
  pub policy_set_ip-Meets :
      (v : View) (level : Level) (ip : String) (present : Bool)
      → Meets
          (Seen v)
          (policy_set_ip env client share_id fs_uid level ip present)
          (λ _. Seen (with_ip v (wekafs_policy_name share_id (level_text level)) ip present))
          (λ _. Unit {0})
  unfolding policy_set_ip
  policy_set_ip-Meets v level ip present =
      Meets-bind _ _ (read_policy v (wekafs_policy_name share_id (level_text level)))
        λ o. set_found v level ip present o
