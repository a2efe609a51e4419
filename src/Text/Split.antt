-- ===== src/Text/Split.antt =====
-- `str.split(sep)` for a separator of one character, `str.split()`, `str.strip()` and `sep.join`.
pub mod Joined
use Prim.Native.Char.{Char, code}
use Prim.Native.String
use manila_weka_driver.Prelude.{
  ℕ, String, Bool, true, false, ◌&&◌, ◌||◌, List, [], ◌∷◌, ◌==◌, leb, nat_eq, if◌then◌else◌,
}
use manila_weka_driver.Text.{◌⁺⁺◌}

-- The characters that `str.isspace` holds of.
unfoldable pub is_space : ℕ → Bool
is_space c =
    leb 9 c && leb c 13
    || (leb 28 c && leb c 32
        || (nat_eq c 0x85
            || (nat_eq c 0xa0
                || (nat_eq c 0x1680
                    || (leb 0x2000 c && leb c 0x200a
                        || (nat_eq c 0x2028
                            || (nat_eq c 0x2029
                                || (nat_eq c 0x202f || (nat_eq c 0x205f || nat_eq c 0x3000)))))))))

abbrev pub push : Char → List String → List String
push c [] = String.◌∷◌ c String.[] ∷ []
push c (w ∷ ws) = String.◌∷◌ c w ∷ ws

-- The parts between the characters of a kind.
unfoldable pub split_if : (ℕ → Bool) → String → List String
split_if p String.[] = String.[] ∷ []
split_if p (String.◌∷◌ c s) =
    let rest = split_if p s in if p (code c) then String.[] ∷ rest else push c rest

-- `s.split(sep)`
abbrev pub split_on : ℕ → String → List String
split_on sep = split_if (λ c. nat_eq c sep)

unfoldable pub nonempty : List String → List String
nonempty [] = []
nonempty (String.[] ∷ ws) = nonempty ws
nonempty (w ∷ ws) = w ∷ nonempty ws

-- `s.split()`
unfoldable pub words : String → List String
unfolding split_if nonempty is_space
words s = nonempty (split_if is_space s)

unfoldable pub strip_start : String → String
unfolding is_space
strip_start String.[] = String.[]
strip_start (String.◌∷◌ c s) =
    let rest = strip_start s in if is_space (code c) then rest else String.◌∷◌ c s

unfoldable pub end_with : Char → String → String
unfolding is_space
end_with c String.[] = if is_space (code c) then String.[] else String.◌∷◌ c String.[]
end_with c s = String.◌∷◌ c s

unfoldable pub strip_end : String → String
unfolding end_with
strip_end String.[] = String.[]
strip_end (String.◌∷◌ c s) = end_with c (strip_end s)

-- `s.strip()`
unfoldable pub strip : String → String
unfolding strip_start strip_end
strip s = strip_end (strip_start s)

-- `sep.join(parts)`
unfoldable pub join : String → List String → String
join sep [] = ""
join sep (w ∷ []) = w
join sep (w ∷ ws) = w ⁺⁺ (sep ⁺⁺ join sep ws)
