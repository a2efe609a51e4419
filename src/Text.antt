-- ===== src/Text.antt =====
-- Python's operations on texts that the driver uses (`str.replace('-', '')`, slices, `in`,
-- `lower`, `rsplit('/', 1)`, `format` of an integer), over the native texts. Case is that of ASCII.
pub mod Split
pub mod Spaces
pub mod Paths
use Prim.Native.Char.{code}
use Prim.Native.String
use Prim.Native.String.append
use manila_weka_driver.Prelude.{
  ℕ, zero, suc, ◌+◌, ◌/◌, ◌%◌, ◌≤◌, String, ◌≡◌, refl, Bool, true, false, ◌&&◌, ◌||◌, List, [], ◌∷◌,
  arith, ltb, leb, nat_eq, if◌then◌else◌,
}

infixr 65 ◌⁺⁺◌
abbrev pub ◌⁺⁺◌ : String → String → String
s ⁺⁺ t = String.◌++◌ s t

-- The number of characters, Python's `len`.
abbrev pub len : String → ℕ
len String.[] = 0
len (String.◌∷◌ c s) = suc (len s)

-- `s[:n]` for n >= 0
unfoldable pub take : ℕ → String → String
take zero s = String.[]
take (suc n) String.[] = String.[]
take (suc n) (String.◌∷◌ c s) = String.◌∷◌ c (take n s)

pub len-take : (n : ℕ) (s : String) → len (take n s) ≤ n
unfolding take
len-take zero s = omega arith
len-take (suc n) String.[] = omega arith
len-take (suc n) (String.◌∷◌ c s) = omega (arith, len-take n s)

pub len-take-within : (n : ℕ) (s : String) → n ≤ len s → len (take n s) ≡ n
unfolding take
len-take-within zero s h = omega arith
len-take-within (suc n) String.[] h = omega (arith, h)
len-take-within (suc n) (String.◌∷◌ c s) h = omega (arith, len-take-within n s (omega (arith, h)))

pub len-append : (s t : String) → len (s ⁺⁺ t) ≡ len s + len t
len-append String.[] t = rw append.nil (omega arith)
len-append (String.◌∷◌ c s) t = rw append.cons (omega (arith, len-append s t))

-- The code points, with ASCII letters in lower case: `s.lower()`.
abbrev pub fold_code : ℕ → ℕ
fold_code c = if leb b'A' c && leb c b'Z' then c + 32 else c

unfoldable pub folded : String → List ℕ
folded String.[] = []
folded (String.◌∷◌ c s) = fold_code (code c) ∷ folded s

unfoldable pub codes : String → List ℕ
codes String.[] = []
codes (String.◌∷◌ c s) = code c ∷ codes s

unfoldable pub codes_prefix : List ℕ → List ℕ → Bool
codes_prefix [] ys = true
codes_prefix (x ∷ xs) [] = false
codes_prefix (x ∷ xs) (y ∷ ys) = nat_eq x y && codes_prefix xs ys

unfoldable pub codes_in : List ℕ → List ℕ → Bool
unfolding codes_prefix
codes_in xs [] = codes_prefix xs []
codes_in xs (y ∷ ys) = codes_prefix xs (y ∷ ys) || codes_in xs ys

-- `needle in s.lower()`
unfoldable pub contains_folded : String → String → Bool
unfolding codes_in codes folded
contains_folded needle s = codes_in (codes needle) (folded s)

-- `s.upper() == t.upper()`
unfoldable pub same_folded : String → String → Bool
unfolding codes_prefix folded
same_folded s t = codes_prefix (folded s) (folded t) && codes_prefix (folded t) (folded s)

-- `t.startswith(s)` and `s in t`, character by character
unfoldable pub is_prefix : String → String → Bool
is_prefix String.[] t = true
is_prefix (String.◌∷◌ c s) String.[] = false
is_prefix (String.◌∷◌ c s) (String.◌∷◌ d t) = nat_eq (code c) (code d) && is_prefix s t

unfoldable pub contains : String → String → Bool
unfolding is_prefix
contains s String.[] = is_prefix s String.[]
contains s (String.◌∷◌ d t) = is_prefix s (String.◌∷◌ d t) || contains s t

-- `s.replace('-', '')`
unfoldable pub undashed : String → String
undashed String.[] = String.[]
undashed (String.◌∷◌ c s) =
    let rest = undashed s in if nat_eq (code c) b'-' then rest else String.◌∷◌ c rest

digit : ℕ → String
digit n =
    if nat_eq n 0
    then "0"
    else if nat_eq n 1
    then "1"
    else if nat_eq n 2
    then "2"
    else if nat_eq n 3
    then "3"
    else if nat_eq n 4
    then "4"
    else if nat_eq n 5
    then "5"
    else if nat_eq n 6
    then "6"
    else if nat_eq n 7
    then "7"
    else if nat_eq n 8
    then "8"
    else "9"

show_fuel : ℕ → ℕ → String
unfolding digit
show_fuel zero n = String.[]
show_fuel (suc f) n =
    let rest = show_fuel f (n / 10) in if ltb n 10 then digit n else rest ⁺⁺ digit (n % 10)

-- `'{}'.format(n)`; a number has no more digits than its value plus one
unfoldable pub show_ℕ : ℕ → String
unfolding show_fuel
show_ℕ n = show_fuel (suc n) n

show_ℕ_503 : show_ℕ 503 ≡ "503"
unfolding show_ℕ
show_ℕ_503 = refl

contains_folded_example : contains_folded "already exist" "Rule Already EXISTS" ≡ true
unfolding contains_folded
contains_folded_example = refl
