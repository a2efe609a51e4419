-- ===== src/Driver/Setup/Ready.antt =====
-- driver.py: what a driver that `do_setup` has set up can rely on.

use manila_weka_driver.Prelude.{
  ◌≡◌, refl, ap, arith, String, Bool, true, false, Option, ◌==◌, if◌then◌else◌,
}
use manila_weka_driver.Exceptions.{Exc}
use manila_weka_driver.Exec.{Result, ok, Exec, pure, raise, ◌>>=◌}
use manila_weka_driver.Exec.Rules.{Yields, Yields-bind, Yields-pure}
use manila_weka_driver.Json.{Json}
use manila_weka_driver.Driver.{Config, Env}
use manila_weka_driver.Driver.Names.{derive_password}
use manila_weka_driver.Driver.Setup.{Options, has_separator, configured, do_setup}

-- A test that raises; what follows may use that it was false.
Yields-guard :
    {S B : Type 0} {Q : B → Type 0} (b : Bool) (e : Exc) (k : Unit {0} → Exec S B)
    → (b ≡ false → Yields Q (k tt))
    → Yields Q ((if b then raise e else pure tt) >>= k)
unfolding ◌>>=◌
Yields-guard true e k h = record { at = λ s. tt }
Yields-guard false e k h = record { at = (h refl).at }

written : (s : String) → (s == "") ≡ false → (c : _) × (t : String) × (s ≡ String.◌∷◌ c t)
written String.[] h = absurd (ground arith)
written (String.◌∷◌ c t) h = (c, t, refl)

abbrev Sound : Options → Config × Json → Type 0
Sound o (c, group_uid) =
    (c ≡ configured o) × (has_separator c.org_prefix ≡ false) × ((c.org_admin_secret == "") ≡ false)

module _ {W : Type 0} (env : Env W) (o : Options) where
  do_setup-Sound : Yields (Sound o) (do_setup env.weka env.host o)
  unfolding do_setup
  do_setup-Sound = Yields-bind _ _ λ _. Yields-guard _ _ _ λ whole. Yields-guard _ _ _ λ secret.
      Yields-bind _ _ λ _. Yields-bind _ _ λ group_uid. Yields-pure _ (refl, whole, secret)

  password_of :
      (project_id : Option String) (tag : String)
      → (env.config.org_admin_secret == "") ≡ false
      → (password : String) × (derive_password env project_id tag ≡ ok password)
  unfolding derive_password
  password_of project_id tag h =
      let (c, t, e) = written env.config.org_admin_secret h in rw e (_, refl)

  -- Where `do_setup` returns a configuration, it is that of the options, and a driver that runs with
  -- it derives a password for every project and every tag; the prefix of its organizations has no
  -- path separator.
  pub do_setup-Ready :
      (w w' : W) (group_uid : Json) (project_id : Option String) (tag : String)
      → do_setup env.weka env.host o w ≡ (ok (env.config, group_uid), w')
      → (env.config ≡ configured o)
        × (has_separator env.config.org_prefix ≡ false)
        × ((password : String) × (derive_password env project_id tag ≡ ok password))
  do_setup-Ready w w' group_uid project_id tag h =
      let (same, whole, secret) =
        rw (ap (λ (x : Result (Config × Json) × W). x.0) h) at (do_setup-Sound.at w) in
      (same, whole, password_of project_id tag secret)
