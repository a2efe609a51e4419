-- ===== src/Ci/Patcher.antt =====
-- ci/patch-wekafs-protocol.py: adds the protocol of the driver to Manila's tuple of share protocols.
-- The regular expressions, the file and what opening it may raise are parameters; the messages are
-- left out.
pub mod Patched
use manila_weka_driver.Prelude.{
  ℕ, ◌+◌, ltb, String, Bool, true, false, ◌==◌, Option, none, some, List, [], ◌∷◌, if◌then◌else◌,
}
use manila_weka_driver.Text.{◌⁺⁺◌, len}
use manila_weka_driver.Text.Paths.{after_last}
use manila_weka_driver.Text.Split.{strip_end}
use manila_weka_driver.Exec.{Exec, pure, catching_if, on_option, ◌>>=◌, ◌>>◌}
use manila_weka_driver.Posix.{is_os_error}

abbrev pub marker : String
marker = "WEKAFS"

-- A match of PATTERN in a text: what stands before it, its four groups, and what stands after it.
pub record Match : Type 0 where
  pub before : String
  pub head : String
  pub body : String
  pub comma : String
  pub close : String
  pub after : String

-- `PATTERN.search`, the search of the marker in quotes, the quotes of the entries that `findall`
-- gives, and the white space that a line begins with.
pub record Regex : Type 0 where
  pub search : String → Option Match
  pub is_marked : String → Bool
  pub quotes : String → List String
  pub leading : String → String

-- `open(path).read()` and `open(path, 'w').write(text)`
pub record Files (S : Type 0) : Type 0 where
  pub read : (path : String) → Exec S String
  pub write : (path text : String) → Exec S (Unit {0})

-- `entries[-1][0] if entries else "'"`
unfoldable pub last_quote : List String → String
last_quote [] = "'"
last_quote (q ∷ []) = q
last_quote (q ∷ qs) = last_quote qs

-- `indent or '    '`
unfoldable pub or_four : String → String
or_four indent = if indent == "" then "    " else indent

module _ (re : Regex) where
  unfoldable pub addition : String → String
  unfolding last_quote
  addition body = let quote : String = last_quote (re.quotes body) in quote ⁺⁺ (marker ⁺⁺ quote)

  -- What comes after the old entries.
  unfoldable pub new_entry : String → String
  unfolding strip_end after_last or_four addition
  new_entry body =
      let last_line : String = after_last b'\n' (strip_end body) in
      if ltb 79 (len last_line + len (addition body) + 3)
      then ",\n" ⁺⁺ (or_four (re.leading last_line) ⁺⁺ addition body)
      else ", " ⁺⁺ addition body

  -- The text with the tuple patched.
  unfoldable pub patched : Match → String
  unfolding strip_end new_entry
  patched m =
      m.before ⁺⁺ (m.head ⁺⁺ (strip_end m.body ⁺⁺ (new_entry m.body ⁺⁺ (m.close ⁺⁺ m.after))))

  module _ {S : Type 0} (files : Files S) where
    -- `try: … except OSError`, as the value or nothing
    unfoldable pub tried : {A : Type 0} → Exec S A → Exec S (Option A)
    tried m = catching_if is_os_error (do a ← m; pure (some a)) (λ e. pure none)

    -- The check after the write; it opens the file outside a `try`.
    unfoldable pub check : String → Exec S ℕ
    check path = do
      text ← files.read path
      on_option (re.search text) (pure 1) (λ m. pure (if re.is_marked m.body then 0 else 1))

    unfoldable pub patch : String → Match → Exec S ℕ
    unfolding patched tried check
    patch path m = if re.is_marked m.body then pure 0 else (do
      written ← tried (files.write path (patched m))
      on_option written (pure 1) (λ _. check path))

    -- `main`
    unfoldable pub main : List String → Exec S ℕ
    unfolding tried patch
    main (program ∷ path ∷ []) = do
      src ← tried (files.read path)
      on_option src (pure 1) (λ text. on_option (re.search text) (pure 1) (patch path))
    main argv = pure 1
