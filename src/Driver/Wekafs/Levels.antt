-- ===== src/Driver/Wekafs/Levels.antt =====
-- driver.py: after `_apply_wekafs_rule` the rule's address is at the rule's level and not at the
-- other one.

use manila_weka_driver.Prelude.{
  ◌≡◌, refl, sym, ◌∙◌, String, true, false, ◌==◌, eq_iff, eq_refl, arith, inl, inr, Bool-cases,
}
use manila_weka_driver.Text.{take}
use manila_weka_driver.Exec.{Result, ok}
use manila_weka_driver.Exec.Rules.{Meets, Meets-bind}
use manila_weka_driver.Exec.Tolerance.{Anything, Ends-at, Meets-lift-then}
use manila_weka_driver.Json.{Json}
use manila_weka_driver.Weka.{Handle}
use manila_weka_driver.Driver.{Env, Rule}
use manila_weka_driver.Driver.Names.{wekafs_policy_name}
use manila_weka_driver.Driver.Names.Isolation.{append_cancel}
use manila_weka_driver.Driver.Errors.{policy_ip}
use manila_weka_driver.Driver.Policies.{
  Level, read_write, read_only, level_text, other, policy_set_ip,
}
use manila_weka_driver.Driver.Policies.Store.{View, PolicyStore, Same, with_ip}
use manila_weka_driver.Driver.Policies.Addresses.{policy_set_ip-Meets}
use manila_weka_driver.Driver.Wekafs.{rule_level, apply_wekafs_rule}

level_texts : (l : Level) → ◌≡◌ {A = String} (level_text l) (level_text (other l)) → ⊥
level_texts read_write h = ground (arith, eq_iff "rw" "ro")
level_texts read_only h = ground (arith, eq_iff "ro" "rw")

-- A share's two policies have different names.
pub policy_names_differ :
    (share_id : String) (l : Level)
    → (wekafs_policy_name share_id (level_text (other l))
        == wekafs_policy_name share_id (level_text l))
      ≡ false
unfolding wekafs_policy_name
policy_names_differ share_id l = elim (Bool-cases _) [
  | inl same ↦ absurd (
      level_texts l (
        sym (
          append_cancel "-" _ _ (
            append_cancel (take 8 share_id) _ _
              (append_cancel "manila-" _ _ ((eq_iff _ _).0 same))))))
  | inr differ ↦ differ
]

ok_injective : (a b : String) → ◌≡◌ {A = Result String} (ok a) (ok b) → a ≡ b
ok_injective a b e = cc

module _ {W : Type 0} (env : Env W) (client : Handle) (share_id : String) (fs_uid : Json)
    (store : PolicyStore env client) where
  abbrev name_at : Level → String
  name_at l = wekafs_policy_name share_id (level_text l)

  -- The view with the address moved to a level.
  abbrev pub moved : View → Level → String → View
  moved v l ip = with_ip (with_ip v (name_at l) ip true) (name_at (other l)) ip false

  apply-Meets :
      (v : View) (rule : Rule) (ip : String)
      → policy_ip env rule.access_to ≡ ok ip
      → Meets
          (λ w. Same v (store.view w))
          (apply_wekafs_rule env client share_id fs_uid rule)
          (λ _ w. Same (moved v (rule_level rule) ip) (store.view w))
          (λ _. Unit {0})
  unfolding apply_wekafs_rule
  apply-Meets v rule ip e = Meets-lift-then (policy_ip env rule.access_to) _ λ ip' e'.
      Meets-bind _ _ (policy_set_ip-Meets env client share_id fs_uid store v _ ip' true)
        λ _. same_ip ip' (ok_injective _ _ (sym e' ∙ e))
    where
      same_ip :
          (ip' : String)
          → ip' ≡ ip
          → Meets
              (λ w. Same (with_ip v (name_at (rule_level rule)) ip' true) (store.view w))
              (policy_set_ip env client share_id fs_uid (other (rule_level rule)) ip' false)
              (λ _ w. Same (moved v (rule_level rule) ip) (store.view w))
              (λ _. Unit {0})
      same_ip ip' p = rw p (
          policy_set_ip-Meets env client share_id fs_uid store
            (with_ip v (name_at (rule_level rule)) ip true) (other (rule_level rule)) ip false)

  -- Where `_apply_wekafs_rule` returns, the rule's address is in the policy of the rule's level and
  -- not in that of the other level, and all else that any policy matches is as before.
  pub apply_wekafs_rule-view :
      (rule : Rule) (ip : String) (w w' : W)
      → policy_ip env rule.access_to ≡ ok ip
      → apply_wekafs_rule env client share_id fs_uid rule w ≡ (ok tt, w')
      → (store.view w' (name_at (rule_level rule)) ip ≡ true)
        × (store.view w' (name_at (other (rule_level rule))) ip ≡ false)
        × Same (moved (store.view w) (rule_level rule) ip) (store.view w')
  apply_wekafs_rule-view rule ip w w' e h =
      let l : Level = rule_level rule in
      let all : Same (moved (store.view w) l ip) (store.view w') =
        Ends-at _ Anything _ tt w' ((apply-Meets (store.view w) rule ip e).at w (λ n i. refl)) h in
      (
        all (name_at l) ip
            ∙ ground (arith, policy_names_differ share_id l, eq_refl (name_at l), eq_refl ip),
        all (name_at (other l)) ip ∙ ground (arith, eq_refl (name_at (other l)), eq_refl ip),
        all,
      )
