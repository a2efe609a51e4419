-- ===== src/Driver/Verdicts.antt =====
-- driver.py: what the loops of `update_access` put into the map of rule states, for both protocols:
-- the specification that their runs are compared with.
use manila_weka_driver.Prelude.{
  ◌≡◌, refl, Bool, true, false, not, Option, none, some, List, [], ◌∷◌, if◌then◌else◌,
}
use manila_weka_driver.Exec.{Result, ok, err, Exec, pure, catching, handled, continue, ◌>>=◌, ◌>>◌}
use manila_weka_driver.Exec.Rules.{Ends}
use manila_weka_driver.Driver.{Env, Rule, RuleState, failed}
use manila_weka_driver.Driver.Wekafs.{States, is_ip, record_state}

module _ {W : Type 0} (env : Env W) (apply : Rule → Exec W (Unit {0}))
    (granted otherwise : RuleState) where
  -- What an attempt to apply a rule gives: granted exactly if it returned, failed exactly if it
  -- raised, and the state that it left.
  abbrev pub Attempt : Result (Unit {0}) × W → Option RuleState → W → Type 0
  Attempt (ok done, x) o w' = (o ≡ some granted) × (w' ≡ x)
  Attempt (err e, x) o w' = (o ≡ some failed) × (w' ≡ x)

  -- The verdict on one rule from a state on, and the state after it: `otherwise` and no call if it
  -- is no ip rule, no verdict and no call for an IPv6 address, and else what the attempt gives.
  abbrev pub Verdict : Rule → W → Option RuleState → W → Type 0
  Verdict rule w o w' =
      if not (is_ip rule)
      then (o ≡ some otherwise) × (w' ≡ w)
      else if env.is_ipv6 rule.access_to
      then (o ≡ none) × (w' ≡ w)
      else Attempt (apply rule w) o w'

  attempted :
      (r : Result (Unit {0}) × W)
      → Ends
          (λ o w'. Attempt r o w')
          (λ _. ⊥)
          (handled (continue r (λ _. pure (some granted))) (λ e. pure (some failed)))
  unfolding pure
  attempted (ok done, x) = (refl, refl)
  attempted (err e, x) = (refl, refl)

  attempt :
      (rule : Rule) (w : W)
      → Ends
          (λ o w'. Attempt (apply rule w) o w')
          (λ _. ⊥)
          (catching (apply rule >> pure (some granted)) (λ e. pure (some failed)) w)
  unfolding ◌>>=◌
  attempt rule w = attempted (apply rule w)

  -- The shape of both loops' bodies.
  pub verdict_at :
      (rule : Rule) (b c : Bool) (w : W)
      → Ends
          (λ o w'.
            if b
            then (o ≡ some otherwise) × (w' ≡ w)
            else if c
            then (o ≡ none) × (w' ≡ w)
            else Attempt (apply rule w) o w')
          (λ _. ⊥)
          ((if b
              then pure (some otherwise)
              else if c
              then pure none
              else catching (apply rule >> pure (some granted)) (λ e. pure (some failed)))
            w)
  unfolding pure
  verdict_at rule true c w = (refl, refl)
  verdict_at rule false true w = (refl, refl)
  verdict_at rule false false w = attempt rule w

  -- `states` is the map `before` with the verdict on each rule recorded in turn, each rule from the
  -- state that the one before it left.
  abbrev pub Judged : List Rule → W → States → States → W → Type 0
  Judged [] w before states w' = (states ≡ before) × (w' ≡ w)
  Judged (rule ∷ rules) w before states w' =
      (o : Option RuleState) × (x : W) × Verdict rule w o x
      × Judged rules x (record_state rule o before) states w'
