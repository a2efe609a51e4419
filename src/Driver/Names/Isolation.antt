-- ===== src/Driver/Names/Isolation.antt =====
-- driver.py: organization names tell projects apart.

use Prim.Native.String.append
use manila_weka_driver.Prelude.{◌≡◌, ◌↔◌, sym, ap, ◌∙◌, String, some}
use manila_weka_driver.Text.{◌⁺⁺◌, undashed}
use manila_weka_driver.Driver.{Config}
use manila_weka_driver.Driver.Names.{org_name}

abbrev tail : String → String
tail String.[] = String.[]
tail (String.◌∷◌ c s) = s

pub append_cancel : (s t u : String) → s ⁺⁺ t ≡ s ⁺⁺ u → t ≡ u
append_cancel String.[] t u h = sym (append.nil t) ∙ (h ∙ append.nil u)
append_cancel (String.◌∷◌ c s) t u h =
    append_cancel s t u (ap tail (sym (append.cons c s t) ∙ (h ∙ append.cons c s u)))

-- Two projects have one organization name exactly if their IDs are the same up to dashes: the name
-- is never truncated.
pub org_name_iff :
    (c : Config) (p q : String)
    → (org_name c (some p) ≡ org_name c (some q)) ↔ (undashed p ≡ undashed q)
unfolding org_name
org_name_iff c p q = (
  append_cancel c.org_prefix (undashed p) (undashed q),
  λ e. ap (λ (x : String). c.org_prefix ⁺⁺ x) e,
)
