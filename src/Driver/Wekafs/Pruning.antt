-- ===== src/Driver/Wekafs/Pruning.antt =====
-- driver.py: what the pruning of a full sync leaves in a WEKAFS share's policies.
use manila_weka_driver.Prelude.{
  ◌≡◌, sym, ◌∙◌, String, Bool, true, false, ◌&&◌, ◌==◌, eq_iff, Option, none, some, List, [], ◌∷◌,
  arith,
}
use manila_weka_driver.Exec.{Result, ok, pure, lift, ◌>>=◌}
use manila_weka_driver.Exec.Rules.{
  Keeps, Keeps-pure, Keeps-bind, Keeps-lift, Keeps-lift-bind, Keeps-if, Keeps-catching, Keeps-Meets,
  Meets-bind, Meets-Keeps,
}
use manila_weka_driver.Json.{Json}
use manila_weka_driver.Weka.{Handle}
use manila_weka_driver.Driver.{Env, Rule}
use manila_weka_driver.Driver.Names.{wekafs_policy_name}
use manila_weka_driver.Driver.Policies.{
  Level, read_write, read_only, level_text, member, policy_ips,
}
use manila_weka_driver.Driver.Policies.Store.{PolicyStore}
use manila_weka_driver.Driver.Wekafs.{expected_ips, prune_ips, prune_level, prune_wekafs_rules}
use manila_weka_driver.Driver.Wekafs.Levels.{policy_names_differ}
use manila_weka_driver.Driver.Policies.Others.{Granted, read-Shows, policy_set_ip-Granted}

module _ {W : Type 0} (env : Env W) (client : Handle) (share_id : String) (fs_uid : Json)
    (store : PolicyStore env client) (name i : String) where
  module _ (level : Level) (expected : List String)
      (spared : (ip : String)
        → member ip expected ≡ false
        → (wekafs_policy_name share_id (level_text level) == name && ip == i) ≡ false) where
    prune_ips-Granted :
        (current : List String)
        → Keeps
            (Granted env client share_id fs_uid store name i)
            (prune_ips env client share_id fs_uid level expected current)
    unfolding prune_ips
    prune_ips-Granted [] = Keeps-pure tt
    prune_ips-Granted (ip ∷ ips) =
        Keeps-bind _ _
          (Keeps-if (member ip expected) _ _ (λ _. Keeps-pure tt)
            λ stale.
              Keeps-catching _ _
                (policy_set_ip-Granted env client share_id fs_uid store name i level ip
                  (spared ip stale))
                (λ e. Keeps-pure tt))
          λ _. prune_ips-Granted ips

    prune_found :
        (o : Option Json)
        → Keeps {A = Unit {0}} (Granted env client share_id fs_uid store name i) (elim o [
          | none ↦ pure tt
          | some pol ↦ lift (policy_ips pol) >>= prune_ips env client share_id fs_uid level expected
        ])
    prune_found none = Keeps-pure tt
    prune_found (some pol) = Keeps-bind _ _ (Keeps-lift _) prune_ips-Granted

    prune_level-Granted :
        Keeps
          (Granted env client share_id fs_uid store name i)
          (prune_level env client share_id fs_uid level expected)
    unfolding prune_level
    prune_level-Granted = Keeps-Meets _ (
        Meets-bind _ _
          (read-Shows env client share_id fs_uid store name i
            (wekafs_policy_name share_id (level_text level)))
          λ o. record { at = λ w (shows, g). (Meets-Keeps _ (prune_found o)).at w g })

-- An address that a rule backs at its level is no address that pruning takes out.
module _ (share_id : String) where
  abbrev name_at : Level → String
  name_at l = wekafs_policy_name share_id (level_text l)

  member_apart :
      (ip i : String) (es : List String)
      → member i es ≡ true
      → member ip es ≡ false
      → (ip == i) ≡ false
  member_apart ip i es h k = ground (arith, eq_iff ip i)

  one_list : (es es' : List String) → ◌≡◌ {A = Result (List String)} (ok es) (ok es') → es ≡ es'
  one_list es es' e = cc

  same_spares :
      (b : Bool) (ip i : String) (es es' : List String)
      → ◌≡◌ {A = Result (List String)} (ok es) (ok es')
      → member i es ≡ true
      → member ip es' ≡ false
      → (b && ip == i) ≡ false
  same_spares b ip i es es' e h k =
      ground (arith, member_apart ip i es h (rw (one_list es es' e) k))

  spares :
      (l l' : Level) (ip i : String) (es es' : List String)
      (expected : Level → Result (List String))
      → expected l ≡ ok es
      → expected l' ≡ ok es'
      → member i es ≡ true
      → member ip es' ≡ false
      → (name_at l' == name_at l && ip == i) ≡ false
  spares read_write read_only ip i es es' expected e e' h k =
      ground (arith, policy_names_differ share_id read_write)
  spares read_only read_write ip i es es' expected e e' h k =
      ground (arith, policy_names_differ share_id read_only)
  spares read_write read_write ip i es es' expected e e' h k =
      same_spares _ ip i es es' (sym e ∙ e') h k
  spares read_only read_only ip i es es' expected e e' h k =
      same_spares _ ip i es es' (sym e ∙ e') h k

module _ {W : Type 0} (env : Env W) (client : Handle) (share_id : String) (fs_uid : Json)
    (store : PolicyStore env client) where
  -- Pruning never revokes what a rule backs: an address that the rules ask for at a level, and that
  -- the share's policy of that level matches, is matched after `_prune_wekafs_rules` too, whatever
  -- call fails and whether or not the pruning raises.
  pub prune_wekafs_rules-Keeps :
      (rules : List Rule) (level : Level) (ip : String) (ips : List String)
      → expected_ips env client share_id fs_uid level rules ≡ ok ips
      → member ip ips ≡ true
      → Keeps
          (λ w. store.view w (wekafs_policy_name share_id (level_text level)) ip ≡ true)
          (prune_wekafs_rules env client share_id fs_uid rules)
  unfolding prune_wekafs_rules
  prune_wekafs_rules-Keeps rules level ip ips e h = Keeps-lift-bind _ _ λ rw_ips rw_e.
      Keeps-lift-bind _ _ λ ro_ips ro_e.
        Keeps-bind _ _
          (prune_level-Granted env client share_id fs_uid store _ ip read_write rw_ips
            (λ x. spares share_id level read_write x ip ips rw_ips asked e rw_e h))
          λ _.
            prune_level-Granted env client share_id fs_uid store _ ip read_only ro_ips
              (λ x. spares share_id level read_only x ip ips ro_ips asked e ro_e h)
    where
      asked : Level → Result (List String)
      asked l = expected_ips env client share_id fs_uid l rules
