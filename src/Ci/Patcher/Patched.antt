-- ===== src/Ci/Patcher/Patched.antt =====
-- ci/patch-wekafs-protocol.py: what an exit with 0 tells of the file.
use manila_weka_driver.Prelude.{
  ℕ, ◌≡◌, ◌⊎◌, inl, inr, refl, sym, ap, ◌∙◌, String, Bool, true, false, Option, none, some, List,
  [], ◌∷◌, ◌==◌, ◌+◌, ltb, All, Bool-cases, arith, if◌then◌else◌,
}
use manila_weka_driver.Exceptions.{Exc}
use manila_weka_driver.Exec.{
  Result, ok, err, Exec, pure, raise, handled, continue, on_option, ◌>>=◌,
}
use manila_weka_driver.Exec.Rules.{Meets, Meets-bind, Meets-pure, Meets-if, Ends}
use manila_weka_driver.Exec.Tolerance.{Anything, Ends-at, Ends-into}
use manila_weka_driver.Text.{◌⁺⁺◌, len}
use manila_weka_driver.Text.Paths.{after_last}
use manila_weka_driver.Text.Split.{is_space, strip_end}
use manila_weka_driver.Text.Spaces.{AllSpace, strip_end-AllSpace, AllSpace-append}
use text.Mathlib.TextLemmas.{append_assoc}
use manila_weka_driver.Posix.{is_os_error}
use manila_weka_driver.Ci.Patcher.{
  Match, Regex, Files, marker, last_quote, or_four, addition, new_entry, patched, tried, check,
  patch, main,
}

-- What opening a file does: a read that returns gives its text and changes nothing, and after a
-- write that returns the file has the text.
pub record Disk {S : Type 0} (files : Files S) (text_of : S → String → String) : Type 0 where
  pub read :
      (path : String) (s : S)
      → Ends
          (λ text s'. (text ≡ text_of s path) × (text_of s' path ≡ text_of s path))
          (λ s'. Unit {0})
          (files.read path s)
  pub write :
      (path text : String) (s : S)
      → Ends (λ _ s'. text_of s' path ≡ text) (λ s'. Unit {0}) (files.write path text s)

-- The text that a match is in.
abbrev pub joined : Match → String
joined m = m.before ⁺⁺ (m.head ⁺⁺ (m.body ⁺⁺ (m.comma ⁺⁺ (m.close ⁺⁺ m.after))))

abbrev pub IsQuote : String → Type 0
IsQuote q = (q ≡ "'") ⊎ (q ≡ "\"")

-- What the regular expressions give: a match splits the text that it is found in, the quotes of
-- entries are quotes, and what a line begins with is white space.
pub record Reads (re : Regex) : Type 0 where
  pub splits : (text : String) (m : Match) → re.search text ≡ some m → text ≡ joined m
  pub quoted : (body : String) → All IsQuote (re.quotes body)
  pub leading : (line : String) → AllSpace (re.leading line)

-- A comma, a gap, the marker in quotes, and what follows.
abbrev pub extended : (gap quote tail : String) → String
extended gap quote tail = "," ⁺⁺ (gap ⁺⁺ (quote ⁺⁺ ("WEKAFS" ⁺⁺ (quote ⁺⁺ tail))))

module _ (re : Regex) where
  -- The text has the tuple, and the marker is in it.
  abbrev pub IsMarked : String → Type 0
  IsMarked text = (m : Match) × (re.search text ≡ some m) × (re.is_marked m.body ≡ true)

  -- The new text is the old one, or the old one had no marker, and the new one has, after its
  -- entries without the white space at their end, a comma, white space and the marker in quotes, and
  -- then the end of the tuple.
  abbrev pub IsPatchOf : String → String → Type 0
  IsPatchOf old new =
      (new ≡ old)
      ⊎ ((m : Match) × (kept : String) × (trail : String) × (gap : String) × (quote : String)
          × (re.search old ≡ some m)
          × (old ≡ joined m)
          × (re.is_marked m.body ≡ false)
          × (m.body ≡ kept ⁺⁺ trail)
          × AllSpace trail
          × AllSpace gap
          × IsQuote quote
          × (new ≡ m.before ⁺⁺ (m.head ⁺⁺ (kept ⁺⁺ extended gap quote (m.close ⁺⁺ m.after)))))

  last_quote-IsQuote : (qs : List String) → All IsQuote qs → IsQuote (last_quote qs)
  unfolding last_quote
  last_quote-IsQuote [] h = inl refl
  last_quote-IsQuote (q ∷ []) (h, rest) = h
  last_quote-IsQuote (q ∷ p ∷ qs) (h, rest) = last_quote-IsQuote (p ∷ qs) rest

  or_four-AllSpace : (indent : String) → AllSpace indent → AllSpace (or_four indent)
  unfolding or_four is_space
  or_four-AllSpace indent h = elim (Bool-cases (indent == "")) [
    | inl blank ↦ rw blank (refl, (refl, (refl, (refl, tt))))
    | inr other ↦ rw other h
  ]

  in_quotes :
      (sep gap quote tail : String)
      → sep ≡ "," ⁺⁺ gap
      → (sep ⁺⁺ (quote ⁺⁺ (marker ⁺⁺ quote))) ⁺⁺ tail ≡ extended gap quote tail
  in_quotes sep gap quote tail e = rw e (
      append_assoc ("," ⁺⁺ gap) (quote ⁺⁺ (marker ⁺⁺ quote)) tail
      ∙ append_assoc "," gap _
      ∙ ap (λ (s : String). "," ⁺⁺ (gap ⁺⁺ s))
          (append_assoc quote (marker ⁺⁺ quote) tail
            ∙ ap (λ (s : String). quote ⁺⁺ s) (append_assoc marker quote tail)))

  new_line-extended :
      (indent quote tail : String)
      → (",\n" ⁺⁺ (indent ⁺⁺ (quote ⁺⁺ (marker ⁺⁺ quote)))) ⁺⁺ tail
        ≡ extended ("\n" ⁺⁺ indent) quote tail
  new_line-extended indent quote tail =
      ap (λ (s : String). s ⁺⁺ tail) (sym (append_assoc ",\n" indent _))
      ∙ in_quotes (",\n" ⁺⁺ indent) ("\n" ⁺⁺ indent) quote tail (append_assoc "," "\n" indent)

  module _ (laws : Reads re) where
    -- What is added is a comma, white space and the marker in quotes.
    new_entry-extended :
        (body tail : String)
        → (gap : String) × (quote : String) × AllSpace gap
          × IsQuote quote
          × (new_entry re body ⁺⁺ tail ≡ extended gap quote tail)
    unfolding new_entry addition is_space
    new_entry-extended body tail =
        let line : String = after_last b'\n' (strip_end body) in
        let quote : String = last_quote (re.quotes body) in
        let quoted = last_quote-IsQuote (re.quotes body) (laws.quoted body) in
        elim (Bool-cases (ltb 79 (len line + len (addition re body) + 3))) [
          | inl long ↦ (
            "\n" ⁺⁺ or_four (re.leading line),
            quote,
            AllSpace-append "\n" _ (refl, tt) (or_four-AllSpace _ (laws.leading line)),
            quoted,
            rw long (new_line-extended (or_four (re.leading line)) quote tail),
          )
          | inr short ↦
              (" ", quote, (refl, tt), quoted, rw short (in_quotes ", " " " quote tail refl))
        ]

    patched-IsPatchOf :
        (old : String) (m : Match)
        → re.search old ≡ some m
        → re.is_marked m.body ≡ false
        → IsPatchOf old (patched re m)
    unfolding patched
    patched-IsPatchOf old m found unmarked =
        let (trail, kept, spaces) = strip_end-AllSpace m.body in
        let (gap, quote, blank, quoted, e) = new_entry-extended m.body (m.close ⁺⁺ m.after) in
        inr (
          m,
          strip_end m.body,
          trail,
          gap,
          quote,
          found,
          laws.splits old m found,
          unmarked,
          kept,
          spaces,
          blank,
          quoted,
          ap (λ (s : String). m.before ⁺⁺ (m.head ⁺⁺ (strip_end m.body ⁺⁺ s))) e,
        )

  module _ {S : Type 0} (files : Files S) (text_of : S → String → String)
      (disk : Disk files text_of) (laws : Reads re) (path old : String) where
    -- What an exit code tells.
    abbrev Exits : ℕ → S → Type 0
    Exits n s = n ≡ 0 → IsMarked (text_of s path) × IsPatchOf old (text_of s path)

    OnSome : {A : Type 0} → (A → S → Type 0) → Option A → S → Type 0
    OnSome Q none s = Unit {0}
    OnSome Q (some a) s = Q a s

    passed :
        {A : Type 0} (Q : A → S → Type 0) (b : Bool) (e : Exc) (s : S)
        → Ends (OnSome Q) Anything ((if b then pure none else raise e) s)
    unfolding pure raise OnSome
    passed Q true e s = tt
    passed Q false e s = tt

    tried_ends :
        {A : Type 0} (Q : A → S → Type 0) (r : Result A × S)
        → Ends Q Anything r
        → Ends (OnSome Q) Anything (
            handled
              (continue r (λ a. pure (some a)))
              (λ e. if is_os_error e then pure none else raise e))
    unfolding pure OnSome
    tried_ends Q (ok a, s) q = q
    tried_ends Q (err e, s) q = passed Q (is_os_error e) e s

    tried-Meets :
        {A : Type 0} {P : S → Type 0} (Q : A → S → Type 0) (m : Exec S A)
        → Meets P m Q Anything
        → Meets P (tried re files m) (OnSome Q) Anything
    unfolding tried ◌>>=◌
    tried-Meets Q m h = record { at = λ s p. tried_ends Q (m s) (h.at s p) }

    -- A read gives the text that the file has and goes on having.
    read-Meets :
        (new : String)
        → Meets
            (λ s. text_of s path ≡ new)
            (files.read path)
            (λ text s. (text ≡ new) × (text_of s path ≡ new))
            Anything
    read-Meets new = record {
      at = λ s e.
          Ends-into _ _ (λ _. Unit {0}) (files.read path s) (λ text s' (t, k). (t ∙ e, k ∙ e))
            (disk.read path s);
    }

    zero_only : (b : Bool) → ◌≡◌ {A = ℕ} (if b then 0 else 1) 0 → b ≡ true
    zero_only b h = ground (arith, h)

    checked :
        (new text : String) (o : Option Match)
        → IsPatchOf old new
        → re.search text ≡ o
        → Meets
            (λ s. (text ≡ new) × (text_of s path ≡ new))
            (on_option o (pure 1) (λ m. pure (if re.is_marked m.body then 0 else 1)))
            Exits
            Anything
    unfolding on_option
    checked new text none h found = Meets-pure 1 (λ s (t, e) z. cc)
    checked new text (some m) h found =
        Meets-pure (if re.is_marked m.body then 0 else 1) (λ s (t, e) z.
          ((m, ap re.search (e ∙ sym t) ∙ found, zero_only (re.is_marked m.body) z), rw e h))

    check-Exits :
        (new : String)
        → IsPatchOf old new
        → Meets (λ s. text_of s path ≡ new) (check re files path) Exits Anything
    unfolding check
    check-Exits new h =
        Meets-bind _ _ (read-Meets new) λ text. checked new text (re.search text) h refl

    written :
        (m : Match) (o : Option (Unit {0}))
        → IsPatchOf old (patched re m)
        → Meets
            (OnSome (λ _ s. text_of s path ≡ patched re m) o)
            (on_option o (pure 1) (λ _. check re files path))
            Exits
            Anything
    unfolding on_option OnSome
    written m none h = Meets-pure 1 (λ s _ z. cc)
    written m (some done) h = check-Exits (patched re m) h

    patch-Exits :
        (m : Match)
        → re.search old ≡ some m
        → Meets (λ s. text_of s path ≡ old) (patch re files path m) Exits Anything
    unfolding patch
    patch-Exits m found =
        Meets-if (re.is_marked m.body) _ _
          (λ there. Meets-pure 0 (λ s e z. ((m, ap re.search e ∙ found, there), inl e)))
          λ missing.
            Meets-bind _ _
              (tried-Meets (λ _ s. text_of s path ≡ patched re m) _
                (record { at = λ s _. disk.write path (patched re m) s }))
              λ o. written m o (patched-IsPatchOf laws old m found missing)

    searched :
        (o : Option Match)
        → re.search old ≡ o
        → Meets
            (λ s. text_of s path ≡ old)
            (on_option o (pure 1) (patch re files path))
            Exits
            Anything
    unfolding on_option
    searched none found = Meets-pure 1 (λ s _ z. cc)
    searched (some m) found = patch-Exits m found

    searched_same :
        (text : String)
        → text ≡ old
        → Meets
            (λ s. text_of s path ≡ old)
            (on_option (re.search text) (pure 1) (patch re files path))
            Exits
            Anything
    searched_same text e = rw e (searched (re.search old) refl)

    opened :
        (o : Option String)
        → Meets
            (OnSome (λ text s. (text ≡ old) × (text_of s path ≡ old)) o)
            (on_option o
              (pure 1)
              (λ text. on_option (re.search text) (pure 1) (patch re files path)))
            Exits
            Anything
    unfolding on_option OnSome
    opened none = Meets-pure 1 (λ s _ z. cc)
    opened (some text) = record { at = λ s (t, e). (searched_same text t).at s e }

    main-Exits :
        (program : String)
        → Meets (λ s. text_of s path ≡ old) (main re files (program ∷ path ∷ [])) Exits Anything
    unfolding main
    main-Exits program =
        Meets-bind _ _
          (tried-Meets (λ text s. (text ≡ old) × (text_of s path ≡ old)) _ (read-Meets old)) opened

  -- Where the program, called with a file, exits with 0, the text of the file has the tuple with the
  -- marker in it. It is the text that the file had before; or that had a tuple with no marker, and
  -- the new text differs from it only between the tuple's entries and its closing parenthesis: the
  -- white space and the comma there give way to a comma, white space and the marker in quotes.
  pub main-IsMarked :
      {S : Type 0} (files : Files S) (text_of : S → String → String)
      → Disk files text_of
      → Reads re
      → (program path : String) (s s' : S) → main re files (program ∷ path ∷ []) s ≡ (ok 0, s')
      → IsMarked (text_of s' path) × IsPatchOf (text_of s path) (text_of s' path)
  main-IsMarked files text_of disk laws program path s s' run =
      Ends-at (Exits files text_of disk laws path (text_of s path)) Anything _ 0 s'
        ((main-Exits files text_of disk laws path (text_of s path) program).at s refl) run refl
