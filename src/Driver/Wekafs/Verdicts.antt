-- ===== src/Driver/Wekafs/Verdicts.antt =====
-- driver.py: the first loop of `_update_wekafs_access` returns, with a verdict on each rule.
use manila_weka_driver.Prelude.{◌≡◌, refl, String, not, some, List, [], ◌∷◌}
use manila_weka_driver.Exec.{Exec, ok}
use manila_weka_driver.Exec.Rules.{
  Ends, Meets, Meets-bind, Meets-pure, Meets-from, Meets-returns, Meets-starting,
}
use manila_weka_driver.Json.{Json}
use manila_weka_driver.Weka.{Handle}
use manila_weka_driver.Driver.{Env, Rule, RuleState, active}
use manila_weka_driver.Driver.Verdicts.{Verdict, verdict_at, Judged}
use manila_weka_driver.Driver.Wekafs.{
  States, is_ip, record_state, apply_wekafs_rule, apply_rule, apply_rules,
}

module _ {W : Type 0} (env : Env W) (client : Handle) (share_id : String) (fs_uid : Json)
    (key : String) where
  abbrev granted : RuleState
  granted = active (some key)

  abbrev applying : Rule → Exec W (Unit {0})
  applying = apply_wekafs_rule env client share_id fs_uid

  apply_rule-Verdict :
      (rule : Rule) (w : W)
      → Ends
          (λ o w'. Verdict env applying granted granted rule w o w')
          (λ _. ⊥)
          (apply_rule env client share_id fs_uid key rule w)
  unfolding apply_rule
  apply_rule-Verdict rule w =
      verdict_at env applying granted granted rule (not (is_ip rule)) (env.is_ipv6 rule.access_to) w

  apply_rules-Meets :
      (rules : List Rule) (before : States) (w : W)
      → Meets
          (λ x. x ≡ w)
          (apply_rules env client share_id fs_uid key rules before)
          (λ states w'. Judged env applying granted granted rules w before states w')
          (λ _. ⊥)
  unfolding apply_rules
  apply_rules-Meets [] before w = Meets-pure before (λ x e. (refl, e))
  apply_rules-Meets (rule ∷ rules) before w =
      Meets-bind {Q = λ o x. Verdict env applying granted granted rule w o x} _ _
        (Meets-starting w _ (apply_rule-Verdict rule w))
        λ o. record {
          at = λ x v.
              (Meets-from _ (λ y e. (e, λ states w' j. (o, x, v, j)))
                  (apply_rules-Meets rules (record_state rule o before) x)).at
                x refl;
        }

  -- Applying the rules of a WEKAFS share raises nothing, whatever the API answers. The map has, for
  -- each rule in turn: active with the mount key, without a call, if it is no ip rule; nothing, and
  -- no call, for an IPv6 address; and otherwise active with the key exactly if `_apply_wekafs_rule`
  -- returned from the state that the rules before it left, failed exactly if it raised.
  pub apply_rules-Judged :
      (rules : List Rule) (w : W)
      → (states : States) × (w' : W) × (apply_rules env client share_id fs_uid key rules [] w
          ≡ (ok states, w'))
        × Judged env
            (apply_wekafs_rule env client share_id fs_uid)
            granted
            granted
            rules
            w
            []
            states
            w'
  apply_rules-Judged rules w = Meets-returns _ w (apply_rules-Meets rules [] w) refl
