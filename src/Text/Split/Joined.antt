-- ===== src/Text/Split/Joined.antt =====
-- Splitting a text that was joined, and stripping a text that has no space.
use Prim.Native.Char.{Char, code}
use Prim.Native.String.append
use manila_weka_driver.Prelude.{
  ℕ, ◌≡◌, refl, ap, ◌∙◌, String, Bool, true, false, List, [], ◌∷◌, All,
}
use manila_weka_driver.Text.{◌⁺⁺◌}
use manila_weka_driver.Text.Split.{is_space, split_if, nonempty, words, strip, strip_end, join}

-- No character of the text is of a kind.
abbrev pub Free : (ℕ → Bool) → String → Type 0
Free p String.[] = Unit
Free p (String.◌∷◌ c s) = (p (code c) ≡ false) × Free p s

abbrev pub NonEmpty : String → Type 0
NonEmpty String.[] = ⊥
NonEmpty (String.◌∷◌ c s) = Unit

abbrev pub one : Char → String
one d = String.◌∷◌ d String.[]

pub one-append : (d : Char) (t : String) → one d ⁺⁺ t ≡ String.◌∷◌ d t
one-append d t = append.cons d String.[] t ∙ ap (String.◌∷◌ d) (append.nil t)

module _ (p : ℕ → Bool) where
  pub split_if-Free : (s : String) → Free p s → split_if p s ≡ s ∷ []
  unfolding split_if
  split_if-Free String.[] h = refl
  split_if-Free (String.◌∷◌ c s) (no_sep, h) = rw (no_sep, split_if-Free s h)

  split_if-append :
      (s : String) (d : Char) (t : String)
      → Free p s
      → p (code d) ≡ true
      → split_if p (s ⁺⁺ String.◌∷◌ d t) ≡ s ∷ split_if p t
  unfolding split_if
  split_if-append String.[] d t h sep = rw (append.nil, sep)
  split_if-append (String.◌∷◌ c s) d t (no_sep, h) sep =
      rw (append.cons, no_sep, split_if-append s d t h sep)

  -- Parts without the separator are found again.
  pub split_if-join :
      (d : Char) (w : String) (ws : List String)
      → p (code d) ≡ true
      → All (Free p) (w ∷ ws)
      → split_if p (join (one d) (w ∷ ws)) ≡ w ∷ ws
  unfolding join
  split_if-join d w [] sep (h, _) = split_if-Free w h
  split_if-join d w (v ∷ ws) sep (h, hs) =
      ap (λ (t : String). split_if p (w ⁺⁺ t)) (one-append d (join (one d) (v ∷ ws)))
      ∙ split_if-append w d (join (one d) (v ∷ ws)) h sep
      ∙ ap (◌∷◌ w) (split_if-join d v ws sep hs)

nonempty-All : (ws : List String) → All NonEmpty ws → nonempty ws ≡ ws
unfolding nonempty
nonempty-All [] h = refl
nonempty-All (String.[] ∷ ws) (h, hs) = absurd h
nonempty-All (String.◌∷◌ c s ∷ ws) (h, hs) = ap (◌∷◌ (String.◌∷◌ c s)) (nonempty-All ws hs)

abbrev pub IsWord : String → Type 0
IsWord s = NonEmpty s × Free is_space s

All-NonEmpty : (ws : List String) → All IsWord ws → All NonEmpty ws
All-NonEmpty [] h = tt
All-NonEmpty (w ∷ ws) ((ne, _), hs) = (ne, All-NonEmpty ws hs)

All-Free : (ws : List String) → All IsWord ws → All (Free is_space) ws
All-Free [] h = tt
All-Free (w ∷ ws) ((_, f), hs) = (f, All-Free ws hs)

-- Words joined by spaces are found again.
pub words-join :
    (d : Char) (w : String) (ws : List String)
    → is_space (code d) ≡ true
    → All IsWord (w ∷ ws)
    → words (join (one d) (w ∷ ws)) ≡ w ∷ ws
unfolding words
words-join d w ws sep h =
    ap nonempty (split_if-join is_space d w ws sep (All-Free (w ∷ ws) h))
    ∙ nonempty-All (w ∷ ws) (All-NonEmpty (w ∷ ws) h)

strip_end-Free : (s : String) → Free is_space s → strip_end s ≡ s
unfolding strip_end
strip_end-Free String.[] h = refl
strip_end-Free (String.◌∷◌ c String.[]) (h, hs) = rw h
strip_end-Free (String.◌∷◌ c (String.◌∷◌ d s)) (h, hs) = rw (strip_end-Free (String.◌∷◌ d s) hs)

pub strip-Free : (s : String) → Free is_space s → strip s ≡ s
unfolding strip
strip-Free String.[] h = refl
strip-Free (String.◌∷◌ c s) (h, hs) = rw h (strip_end-Free (String.◌∷◌ c s) (h, hs))
