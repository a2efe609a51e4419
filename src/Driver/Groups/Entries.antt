-- ===== src/Driver/Groups/Entries.antt =====
-- The notation of the option weka_security_policy_group, as a list of entries, and what a policy
-- group grants by it.
use Prim.Native.Char.{Char, code}
use Prim.Native.String.append
use manila_weka_driver.Prelude.{
  ℕ, ◌≡◌, refl, String, Bool, true, false, ◌||◌, ◌&&◌, List, [], ◌∷◌, ◌++◌, ◌==◌, eq_iff, All, map,
  nat_eq, arith, if◌then◌else◌, inl, inr, Bool-cases,
}
use manila_weka_driver.Text.{◌⁺⁺◌}
use manila_weka_driver.Text.Split.{is_space, split_on, join}
use manila_weka_driver.Text.Split.Joined.{one, one-append, Free, NonEmpty, split_if-join}
use manila_weka_driver.Driver.{Group, lookup}
use manila_weka_driver.Driver.Policies.{Level, read_write, read_only, level_text}
use manila_weka_driver.Driver.Groups.{Groups, blank_group}

pub record Entry : Type 0 where
  pub group : String
  pub level : Level
  pub first : String
  pub others : List String

abbrev pub ips : Entry → List String
ips e = e.first ∷ e.others

-- The characters that the notation gives a meaning to, and spaces.
abbrev pub is_special : ℕ → Bool
is_special c = is_space c || (nat_eq c b';' || (nat_eq c b':' || nat_eq c b','))

abbrev pub IsToken : String → Type 0
IsToken s = NonEmpty s × Free is_special s

abbrev pub IsTidy : Entry → Type 0
IsTidy e = IsToken e.group × All IsToken (ips e)

-- `<group>:<level>:<cidr>,<cidr>...`
unfoldable pub written : Entry → String
unfolding join
written e = join (one ":") (e.group ∷ level_text e.level ∷ join (one ",") (ips e) ∷ [])

-- Entries between semicolons.
unfoldable pub notation : Entry → List Entry → String
unfolding join written
notation e es = join (one ";") (written e ∷ map written es)

-- The addresses at a group and a level.
abbrev pub level_ips : Level → Group → List String
level_ips read_write g = g.read_write
level_ips read_only g = g.read_only

unfoldable pub ips_at : String → Level → Groups → List String
unfolding lookup
ips_at name level groups = level_ips level (blank_group (lookup name groups))

abbrev pub same_level : Level → Level → Bool
same_level read_write read_write = true
same_level read_only read_only = true
same_level _ _ = false

-- The specification: the addresses of the entries of a group and a level, one after another.
abbrev pub granted : String → Level → List Entry → List String
granted name level [] = []
granted name level (e ∷ es) =
    (if (e.group == name) && same_level e.level level then ips e else []) ++ granted name level es

module _ (p : ℕ → Bool) where
  Free-append : (s t : String) → Free p s → Free p t → Free p (s ⁺⁺ t)
  Free-append String.[] t h k = rw append.nil k
  Free-append (String.◌∷◌ c s) t (h, hs) k = rw append.cons (h, Free-append s t hs k)

  pub Free-join :
      (d : Char) (ws : List String)
      → p (code d) ≡ false
      → All (Free p) ws
      → Free p (join (one d) ws)
  unfolding join
  Free-join d [] h hs = tt
  Free-join d (w ∷ []) h (k, ks) = k
  Free-join d (w ∷ v ∷ ws) h (k, ks) =
      Free-append w _ k (rw one-append (h, Free-join d (v ∷ ws) h ks))

  pub Free-token :
      ((c : ℕ) → is_special c ≡ false → p c ≡ false) → (s : String) → IsToken s → Free p s
  Free-token h s (ne, f) = go s f
    where
      go : (s : String) → Free is_special s → Free p s
      go String.[] f = tt
      go (String.◌∷◌ c s) (f, fs) = (h (code c) f, go s fs)

  pub Free-tokens :
      ((c : ℕ) → is_special c ≡ false → p c ≡ false)
      → (ws : List String) → All IsToken ws
      → All (Free p) ws
  Free-tokens h [] hs = tt
  Free-tokens h (w ∷ ws) (k, ks) = (Free-token h w k, Free-tokens h ws ks)

  -- An entry has none of the characters that neither tokens nor the two inner separators have.
  pub Free-written :
      (e : Entry)
      → ((c : ℕ) → is_special c ≡ false → p c ≡ false)
      → p b':' ≡ false
      → p b',' ≡ false
      → Free p (level_text e.level)
      → IsTidy e
      → Free p (written e)
  unfolding written
  Free-written e h colon comma l (g, is) =
      Free-join ":" (e.group ∷ level_text e.level ∷ join (one ",") (ips e) ∷ []) colon
        (Free-token h e.group g, (l, (Free-join "," (ips e) comma (Free-tokens h (ips e) is), tt)))

pub space_not_special : (c : ℕ) → is_special c ≡ false → is_space c ≡ false
space_not_special c h = ground arith

pub semicolon_special : (c : ℕ) → is_special c ≡ false → nat_eq c b';' ≡ false
semicolon_special c h = ground arith

pub colon_special : (c : ℕ) → is_special c ≡ false → nat_eq c b':' ≡ false
colon_special c h = ground arith

pub comma_special : (c : ℕ) → is_special c ≡ false → nat_eq c b',' ≡ false
comma_special c h = ground arith

pub level_Free :
    (p : ℕ → Bool)
    → p b'r' ≡ false
    → p b'w' ≡ false
    → p b'o' ≡ false
    → (l : Level) → Free p (level_text l)
level_Free p r w o read_write = (r, (w, tt))
level_Free p r w o read_only = (r, (o, tt))

pub NonEmpty-eq : (s : String) → NonEmpty s → (s == "") ≡ false
NonEmpty-eq s h = elim (Bool-cases (s == "")) [
  | inl blank ↦ absurd (rw ((eq_iff s "").0 blank) at h)
  | inr e ↦ e
]

pub split_written :
    (e : Entry)
    → IsTidy e
    → split_on b':' (written e) ≡ e.group ∷ level_text e.level ∷ join (one ",") (ips e) ∷ []
unfolding written
split_written e (g, is) =
    split_if-join (λ c. nat_eq c b':') ":" e.group
      (level_text e.level ∷ join (one ",") (ips e) ∷ []) refl
      (
        Free-token (λ c. nat_eq c b':') colon_special e.group g,
        (
          level_Free (λ c. nat_eq c b':') refl refl refl e.level,
          (
            Free-join (λ c. nat_eq c b':') "," (ips e) refl
                (Free-tokens (λ c. nat_eq c b':') colon_special (ips e) is),
            tt,
          ),
        ),
      )

pub NonEmpty-append : (s t : String) → NonEmpty s → NonEmpty (s ⁺⁺ t)
NonEmpty-append String.[] t h = absurd h
NonEmpty-append (String.◌∷◌ c s) t h = rw append.cons tt

pub NonEmpty-written : (e : Entry) → IsTidy e → NonEmpty (written e)
unfolding written join
NonEmpty-written e ((ne, f), is) = NonEmpty-append e.group _ ne

pub All-written :
    (es : List Entry) → All IsTidy es → All (Free (λ c. nat_eq c b';')) (map written es)
All-written [] h = tt
All-written (e ∷ es) (h, hs) = (
  Free-written (λ c. nat_eq c b';') e semicolon_special refl refl
      (level_Free (λ c. nat_eq c b';') refl refl refl e.level) h,
  All-written es hs,
)

pub NonEmpty-notation : (e : Entry) (es : List Entry) → IsTidy e → NonEmpty (notation e es)
unfolding notation join
NonEmpty-notation e [] h = NonEmpty-written e h
NonEmpty-notation e (f ∷ es) h = NonEmpty-append (written e) _ (NonEmpty-written e h)
