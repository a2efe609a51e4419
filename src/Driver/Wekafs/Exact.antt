-- ===== src/Driver/Wekafs/Exact.antt =====
-- driver.py: the policies that a full sync of a WEKAFS share leaves, where no call of it fails.
use manila_weka_driver.Prelude.{
  ◌≡◌, refl, ◌∙◌, String, Bool, true, false, ◌&&◌, ◌==◌, eq_iff, eq_refl, Option, none, some, List,
  [], ◌∷◌, arith, if◌then◌else◌,
}
use manila_weka_driver.Exec.{ok, pure, lift, ◌>>=◌}
use manila_weka_driver.Exec.Rules.{Meets, Meets-bind, Meets-pure, Meets-weaken}
use manila_weka_driver.Exec.Tolerance.{Anything, Ends-at, Meets-lift-then}
use manila_weka_driver.Exec.Follows.{Follows-returns}
use manila_weka_driver.Json.{Json}
use manila_weka_driver.Weka.{Handle}
use manila_weka_driver.Driver.{Env, Rule}
use manila_weka_driver.Driver.Names.{wekafs_policy_name}
use manila_weka_driver.Driver.Policies.{
  Level, read_write, read_only, level_text, member, policy_ips, policy_set_ip,
}
use manila_weka_driver.Driver.Policies.Store.{View, PolicyStore, Same, Reported, with_ip}
use manila_weka_driver.Driver.Policies.Addresses.{policy_set_ip-Meets, read_policy}
use manila_weka_driver.Driver.Wekafs.{expected_ips, prune_wekafs_rules}
use manila_weka_driver.Driver.Wekafs.Levels.{policy_names_differ}
use manila_weka_driver.Driver.Wekafs.Trimmed.{trimmed, taken_out, taken_out-trimmed}
use manila_weka_driver.Driver.Wekafs.Revoked.{
  revoke_ips, revoke_level, revoke_wekafs_rules, prune_wekafs_rules-Follows,
}

module _ {W : Type 0} (env : Env W) (client : Handle) (share_id : String) (fs_uid : Json)
    (store : PolicyStore env client) where
  abbrev Seen : View → W → Type 0
  Seen v w = Same v (store.view w)

  abbrev name_at : Level → String
  name_at level = wekafs_policy_name share_id (level_text level)

  revoke_ip-Meets :
      (v : View) (level : Level) (ip : String) (b : Bool)
      → Meets
          (Seen v)
          (if b then pure tt else policy_set_ip env client share_id fs_uid level ip false)
          (λ _. Seen (if b then v else with_ip v (name_at level) ip false))
          (λ _. Unit {0})
  revoke_ip-Meets v level ip true = Meets-pure tt (λ w seen. seen)
  revoke_ip-Meets v level ip false =
      policy_set_ip-Meets env client share_id fs_uid store v level ip false

  revoke_ips-Meets :
      (level : Level) (expected current : List String) (v : View)
      → Meets
          (Seen v)
          (revoke_ips env client share_id fs_uid level expected current)
          (λ _. Seen (taken_out v (name_at level) expected current))
          (λ _. Unit {0})
  unfolding revoke_ips taken_out
  revoke_ips-Meets level expected [] v = Meets-pure tt (λ w seen. seen)
  revoke_ips-Meets level expected (ip ∷ ips) v =
      Meets-bind _ _ (revoke_ip-Meets v level ip (member ip expected))
        λ _. revoke_ips-Meets level expected ips _

  trimmed_absent :
      (v u : View) (name : String) (expected : List String)
      → ((i : String) → v name i ≡ false)
      → Same v u
      → Same (trimmed v name expected) u
  trimmed_absent v u name expected absent seen =
      λ n i. seen n i ∙ ground (arith, absent i, eq_iff name n)

  revoke_found :
      (v : View) (level : Level) (expected : List String) (o : Option Json)
      → Meets {A = Unit {0}}
          (λ w. Reported v store.Owns (name_at level) o × Seen v w)
          (elim o [
            | none ↦ pure tt
            | some pol ↦
                lift (policy_ips pol) >>= revoke_ips env client share_id fs_uid level expected
          ])
          (λ _. Seen (trimmed v (name_at level) expected))
          (λ _. Unit {0})
  revoke_found v level expected none =
      Meets-pure tt (λ w (absent, seen). trimmed_absent v (store.view w) _ expected absent seen)
  revoke_found v level expected (some pol) = record {
    at = λ w ((owns, reported), seen).
        (Meets-lift-then (policy_ips pol) _ λ ips read.
            Meets-weaken _ (λ w seen. seen)
              (λ _ w k n i. k n i ∙ taken_out-trimmed v _ expected ips (reported ips read) n i)
              (λ _ u. u) (revoke_ips-Meets level expected ips v)).at
          w seen;
  }

  revoke_level-Meets :
      (v : View) (level : Level) (expected : List String)
      → Meets
          (Seen v)
          (revoke_level env client share_id fs_uid level expected)
          (λ _. Seen (trimmed v (name_at level) expected))
          (λ _. Unit {0})
  unfolding revoke_level
  revoke_level-Meets v level expected =
      Meets-bind _ _ (read_policy env client share_id fs_uid store v (name_at level))
        (revoke_found v level expected)

  -- What the two levels leave.
  abbrev left : View → (rw_ips ro_ips : List String) → View
  left v rw_ips ro_ips = trimmed (trimmed v (name_at read_write) rw_ips) (name_at read_only) ro_ips

  revoke-Meets :
      (v : View) (rules : List Rule) (rw_ips ro_ips : List String)
      → expected_ips env client share_id fs_uid read_write rules ≡ ok rw_ips
      → expected_ips env client share_id fs_uid read_only rules ≡ ok ro_ips
      → Meets
          (Seen v)
          (revoke_wekafs_rules env client share_id fs_uid rules)
          (λ _. Seen (left v rw_ips ro_ips))
          (λ _. Unit {0})
  unfolding revoke_wekafs_rules lift ◌>>=◌
  revoke-Meets v rules rw_ips ro_ips e e' =
      rw (e, e')
        (Meets-bind _ _ (revoke_level-Meets v read_write rw_ips)
          λ _. revoke_level-Meets _ read_only ro_ips)

  -- Where a full sync reads the addresses that the rules ask for, and the pruning would return with
  -- none of its errors caught, `_prune_wekafs_rules` returns in the same state, and there each of the
  -- share's two policies matches exactly those of its addresses before that a rule of its level
  -- asks for, and every other policy matches what it did.
  pub prune_wekafs_rules-view :
      (rules : List Rule) (rw_ips ro_ips : List String) (w w' : W)
      → expected_ips env client share_id fs_uid read_write rules ≡ ok rw_ips
      → expected_ips env client share_id fs_uid read_only rules ≡ ok ro_ips
      → revoke_wekafs_rules env client share_id fs_uid rules w ≡ (ok tt, w')
      → (prune_wekafs_rules env client share_id fs_uid rules w ≡ (ok tt, w'))
        × ((i : String)
            → store.view w' (name_at read_write) i
              ≡ store.view w (name_at read_write) i && member i rw_ips)
        × ((i : String)
            → store.view w' (name_at read_only) i
              ≡ store.view w (name_at read_only) i && member i ro_ips)
        × ((n i : String)
            → (name_at read_write == n) ≡ false
            → (name_at read_only == n) ≡ false
            → store.view w' n i ≡ store.view w n i)
  prune_wekafs_rules-view rules rw_ips ro_ips w w' e e' run =
      let all : Same (left (store.view w) rw_ips ro_ips) (store.view w') =
        Ends-at _ Anything _ tt w'
          ((revoke-Meets (store.view w) rules rw_ips ro_ips e e').at w (λ n i. refl)) run in
      (
        Follows-returns _ _ w w' tt (prune_wekafs_rules-Follows env client share_id fs_uid rules)
            run,
        λ i.
            all (name_at read_write) i
            ∙ ground (arith, policy_names_differ share_id read_write, eq_refl (name_at read_write)),
        λ i.
            all (name_at read_only) i
            ∙ ground (arith, policy_names_differ share_id read_only, eq_refl (name_at read_only)),
        λ n i apart apart'. all n i ∙ ground (arith, apart, apart'),
      )
