-- ===== src/Tests/Patcher.antt =====
-- A run of the protocol patcher, and an instance of what is proved of it.
use manila_weka_driver.Prelude.{
  ◌≡◌, refl, ap, ◌∙◌, String, ◌==◌, eq_iff, Option, none, some, [], ◌∷◌, inl, inr, Bool-cases,
  if◌then◌else◌,
}
use manila_weka_driver.Exec.{ok, ◌>>=◌}
use manila_weka_driver.Ci.Patcher.{Match, Regex, Files, main}
use manila_weka_driver.Ci.Patcher.Patched.{Disk, Reads, IsMarked, IsPatchOf, joined, main-IsMarked}

abbrev match_of : String → Match
match_of body = record {
  before = "# protocols\n";
  head = "SUPPORTED_SHARE_PROTOCOLS = (";
  body = body;
  comma = "";
  close = ")";
  after = "\n";
}

abbrev old_match : Match
old_match = match_of "'NFS', 'LUSTRE'"

abbrev new_match : Match
new_match = match_of "'NFS', 'LUSTRE', 'WEKAFS'"

-- Regular expressions that find the tuple in two texts.
abbrev searched : String → Option Match
searched text =
    if text == joined old_match
    then some old_match
    else if text == joined new_match
    then some new_match
    else none

abbrev regex : Regex
regex = record {
  search = searched;
  is_marked = λ body. body == "'NFS', 'LUSTRE', 'WEKAFS'";
  quotes = λ body. "'" ∷ "'" ∷ [];
  leading = λ line. "";
}

-- A disk with one file.
abbrev files : Files String
files = record { read = λ path s. (ok s, s); write = λ path text s. (ok tt, text) }

disk : Disk files (λ s path. s)
disk = record { read = λ path s. (refl, refl); write = λ path text s. refl }

some_injective : {A : Type 0} (a b : A) → some a ≡ some b → a ≡ b
some_injective a b e = cc

nothing : (m : Match) → ◌≡◌ {A = Option Match} none (some m) → ⊥
nothing m e = cc

splits : (text : String) (m : Match) → searched text ≡ some m → text ≡ joined m
splits text m e = elim (Bool-cases (text == joined old_match)) [
  | inl same ↦
      let its : some old_match ≡ some m = rw same at e in
      (eq_iff text (joined old_match)).0 same ∙ ap joined (some_injective _ _ its)
  | inr other ↦ elim (Bool-cases (text == joined new_match)) [
    | inl same ↦
        let its : some new_match ≡ some m = rw (other, same) at e in
        (eq_iff text (joined new_match)).0 same ∙ ap joined (some_injective _ _ its)
    | inr neither ↦ absurd (nothing m (rw (other, neither) at e))
  ]
]

reads : Reads regex
reads = record {
  splits = splits;
  quoted = λ body. (inl refl, (inl refl, tt));
  leading = λ line. tt;
}

runs :
    main regex files ("patch-wekafs-protocol.py" ∷ "constants.py" ∷ []) (joined old_match)
    ≡ (ok 0, joined new_match)
unfolding main ◌>>=◌
runs = refl

main-IsMarked_example :
    IsMarked regex (joined new_match) × IsPatchOf regex (joined old_match) (joined new_match)
main-IsMarked_example =
    main-IsMarked regex files (λ s path. s) disk reads "patch-wekafs-protocol.py" "constants.py"
      (joined old_match) (joined new_match) runs
