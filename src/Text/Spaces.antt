-- ===== src/Text/Spaces.antt =====
-- White space at the end of a text, and texts that were put together.
use Prim.Native.Char.{Char, code}
use Prim.Native.String.append
use manila_weka_driver.Prelude.{◌≡◌, refl, sym, ap, ◌∙◌, String, true, Bool-cases, inl, inr}
use manila_weka_driver.Text.{◌⁺⁺◌}
use manila_weka_driver.Text.Split.Joined.{one-append}
use manila_weka_driver.Text.Split.{is_space, end_with, strip_end}

-- A text that is white space alone.
abbrev pub AllSpace : String → Type 0
AllSpace String.[] = Unit {0}
AllSpace (String.◌∷◌ c s) = (is_space (code c) ≡ true) × AllSpace s

ended :
    (c : Char) (s rest trail : String)
    → s ≡ rest ⁺⁺ trail
    → AllSpace trail
    → (space : String) × (String.◌∷◌ c s ≡ end_with c rest ⁺⁺ space) × AllSpace space
unfolding end_with
ended c s String.[] trail e spaces = elim (Bool-cases (is_space (code c))) [
  | inl blank ↦ (
    String.◌∷◌ c s,
    rw blank (sym (append.nil (String.◌∷◌ c s))),
    (blank, rw (e ∙ append.nil trail) spaces),
  )
  | inr letter ↦ (
    trail,
    rw letter (ap (String.◌∷◌ c) (e ∙ append.nil trail) ∙ sym (one-append c trail)),
    spaces,
  )
]
ended c s (String.◌∷◌ d rest) trail e spaces =
    (trail, ap (String.◌∷◌ c) e ∙ sym (append.cons c (String.◌∷◌ d rest) trail), spaces)

pub strip_end-AllSpace :
    (s : String) → (space : String) × (s ≡ strip_end s ⁺⁺ space) × AllSpace space
unfolding strip_end
strip_end-AllSpace String.[] = ("", refl, tt)
strip_end-AllSpace (String.◌∷◌ c s) =
    let (trail, e, spaces) = strip_end-AllSpace s in ended c s (strip_end s) trail e spaces

pub AllSpace-append : (s t : String) → AllSpace s → AllSpace t → AllSpace (s ⁺⁺ t)
AllSpace-append String.[] t h k = rw (append.nil) k
AllSpace-append (String.◌∷◌ c s) t (h, hs) k = rw (append.cons) (h, AllSpace-append s t hs k)
