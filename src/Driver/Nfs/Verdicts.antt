-- ===== src/Driver/Nfs/Verdicts.antt =====
-- driver.py: `_update_nfs_access` raises nothing while it adds and deletes rules, and its map has a
-- verdict on each rule.
use manila_weka_driver.Prelude.{◌≡◌, refl, String, false, not, none, List, [], ◌∷◌}
use manila_weka_driver.Exec.{Exec, ok}
use manila_weka_driver.Exec.Rules.{
  Meets, Meets-bind, Meets-catching, Meets-pure, Meets-any, Meets-returns, Meets-from,
  Meets-starting, Ends,
}
use manila_weka_driver.Driver.{Env, Share, Rule, active, failed}
use manila_weka_driver.Driver.Names.{share_name}
use manila_weka_driver.Driver.Wekafs.{States, is_ip, record_state}
use manila_weka_driver.Driver.Verdicts.{Verdict, verdict_at, Judged}
use manila_weka_driver.Driver.Nfs.{
  apply_nfs_rule, add_nfs_rule, add_nfs_rules, remove_nfs_rules, update_nfs_access,
}

module _ {W : Type 0} (env : Env W) where
  abbrev Always : W → Type 0
  Always w = Unit

  abbrev Never : W → Type 0
  Never w = ⊥

  module _ (share : Share) (fs_name : String) where
    abbrev applying : Rule → Exec W (Unit {0})
    applying = apply_nfs_rule env share fs_name

    add_nfs_rule-Verdict :
        (rule : Rule) (w : W)
        → Ends
            (λ o w'. Verdict env applying (active none) failed rule w o w')
            Never
            (add_nfs_rule env share fs_name rule w)
    unfolding add_nfs_rule
    add_nfs_rule-Verdict rule w =
        verdict_at env applying (active none) failed rule (not (is_ip rule))
          (env.is_ipv6 rule.access_to) w

    add_nfs_rules-Judged :
        (rules : List Rule) (before : States) (w : W)
        → Meets
            (λ x. x ≡ w)
            (add_nfs_rules env share fs_name rules before)
            (λ states w'. Judged env applying (active none) failed rules w before states w')
            Never
    unfolding add_nfs_rules
    add_nfs_rules-Judged [] before w = Meets-pure before (λ x e. (refl, e))
    add_nfs_rules-Judged (rule ∷ rules) before w =
        Meets-bind {Q = λ o x. Verdict env applying (active none) failed rule w o x} _ _
          (Meets-starting w _ (add_nfs_rule-Verdict rule w))
          λ o. record {
            at = λ x v.
                (Meets-from _ (λ y e. (e, λ states w' j. (o, x, v, j)))
                    (add_nfs_rules-Judged rules (record_state rule o before) x)).at
                  x refl;
          }

  remove_nfs_rules-Returns :
      (fs_name : String) (rules : List Rule)
      → Meets Always (remove_nfs_rules env fs_name rules) (λ _ _. Unit {0}) Never
  unfolding remove_nfs_rules
  remove_nfs_rules-Returns fs_name [] = Meets-pure tt (λ w _. tt)
  remove_nfs_rules-Returns fs_name (rule ∷ rules) =
      Meets-bind _ _ (Meets-catching _ _ (Meets-any _) (λ e. Meets-pure tt (λ w _. tt)))
        λ _. remove_nfs_rules-Returns fs_name rules

  -- Outside a full sync, adding and deleting rules of an NFS share raises nothing, whatever the API
  -- answers. The map has, for each rule in turn: failed, without a call, if it is no ip rule;
  -- nothing, and no call, for an IPv6 address; and otherwise active exactly if `_apply_nfs_rule`
  -- returned from the state that the rules before it left, failed exactly if it raised.
  pub update_nfs_access-Judged :
      (share : Share) (add delete : List Rule) (w : W)
      → (states : States) × (w' : W) × (update_nfs_access env share add delete false w
          ≡ (ok states, w'))
        × ((x : W) × Judged env
              (apply_nfs_rule env share (share_name env.config share.id))
              (active none)
              failed
              add
              w
              []
              states
              x)
  unfolding update_nfs_access
  update_nfs_access-Judged share add delete w =
      Meets-returns _ w
        (Meets-bind _ _ (add_nfs_rules-Judged share (share_name env.config share.id) add [] w)
          λ states. record {
            at = λ x j.
                (Meets-from {P' = λ _. Unit {0}} {Q = λ same w'. same ≡ states} _
                    (λ w' _. (tt, λ same w'' e. (x, rw e j)))
                    (Meets-bind _ _ (remove_nfs_rules-Returns _ delete) λ _.
                      Meets-bind _ _ (Meets-pure {Q = λ _ _. Unit {0}} tt (λ w' _. tt))
                        λ _. Meets-pure states (λ w' _. refl))).at
                  x tt;
          })
        refl
