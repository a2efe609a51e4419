-- ===== src/Text/Paths.antt =====
-- Python's operations on paths and on texts cut at a character: `rsplit(c, 1)[-1]`,
-- `split(c, 1)[-1]`, `lstrip('/')`, `rstrip('/')` and `os.path.join`.
use Prim.Native.Char.{code}
use manila_weka_driver.Prelude.{ℕ, String, Bool, false, ◌||◌, ◌==◌, nat_eq, if◌then◌else◌}
use manila_weka_driver.Text.{◌⁺⁺◌}

-- `chr(c) in s`
unfoldable pub has : ℕ → String → Bool
has c String.[] = false
has c (String.◌∷◌ d s) = nat_eq (code d) c || has c s

-- `s.rsplit(c, 1)[-1]`: what stands after the last `c`, all of it if there is none
unfoldable pub after_last : ℕ → String → String
unfolding has
after_last c String.[] = String.[]
after_last c (String.◌∷◌ d s) =
    let rest = after_last c s in
    if has c s then rest else if nat_eq (code d) c then s else String.◌∷◌ d s

-- `s.split(c, 1)[-1]`: what stands after the first `c`, all of it if there is none
unfoldable pub after_first : ℕ → String → String
unfolding has
after_first c String.[] = String.[]
after_first c (String.◌∷◌ d s) =
    let rest = after_first c s in
    if nat_eq (code d) c then s else if has c s then rest else String.◌∷◌ d s

-- `s.lstrip('/')`
unfoldable pub strip_slashes : String → String
strip_slashes String.[] = String.[]
strip_slashes (String.◌∷◌ d s) =
    let rest = strip_slashes s in if nat_eq (code d) b'/' then rest else String.◌∷◌ d s

-- `s.rstrip('/')`
unfoldable pub rstrip_slashes : String → String
rstrip_slashes String.[] = String.[]
rstrip_slashes (String.◌∷◌ c s) =
    let rest = rstrip_slashes s in
    if rest == "" then (if nat_eq (code c) b'/' then "" else String.◌∷◌ c "") else String.◌∷◌ c rest

-- `s.endswith('/')`
unfoldable pub ends_with_slash : String → Bool
ends_with_slash String.[] = false
ends_with_slash (String.◌∷◌ c s) = if s == "" then nat_eq (code c) b'/' else ends_with_slash s

-- `os.path.join(a, b)`
unfoldable pub join_path : String → String → String
unfolding ends_with_slash
join_path a String.[] = if a == "" then "" else if ends_with_slash a then a else a ⁺⁺ "/"
join_path a (String.◌∷◌ c s) =
    if nat_eq (code c) b'/'
    then String.◌∷◌ c s
    else if a == ""
    then String.◌∷◌ c s
    else if ends_with_slash a
    then a ⁺⁺ String.◌∷◌ c s
    else a ⁺⁺ ("/" ⁺⁺ String.◌∷◌ c s)
