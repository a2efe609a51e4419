-- ===== src/Driver/Groups/Notation.antt =====
-- driver.py: `_parse_policy_groups` reads back what the notation of weka_security_policy_group
-- writes: for each group and level, the addresses of all its entries in their order.

use mathlib.Core.List.{append-nil, append_assoc}
use manila_weka_driver.Prelude.{
  ◌≡◌, refl, sym, ap, ◌∙◌, String, ◌&&◌, none, some, List, [], ◌∷◌, ◌++◌, ◌==◌, eq_iff, All, map,
  nat_eq, if◌then◌else◌, inl, inr, Bool-cases,
}
use manila_weka_driver.Text.Split.{is_space, split_on, strip, join}
use manila_weka_driver.Text.Split.Joined.{one, NonEmpty, split_if-join, strip-Free}
use manila_weka_driver.Driver.{Group, lookup}
use manila_weka_driver.Driver.Orgs.Cache.{lookup-assign}
use manila_weka_driver.Driver.Policies.{Level, read_write, read_only, level_text}
use manila_weka_driver.Driver.Groups.{
  Groups, read_level, blank_group, extended, extend_group, stripped, add_fields, add_parts,
  add_entry, add_entries, parse_policy_groups,
}
use manila_weka_driver.Driver.Groups.Entries.{
  Entry, ips, IsToken, IsTidy, written, notation, level_ips, ips_at, same_level, granted,
  Free-token, Free-tokens, Free-written, space_not_special, comma_special, level_Free, NonEmpty-eq,
  split_written, NonEmpty-written, All-written, NonEmpty-notation,
}

-- What an entry adds to a group.
extended_ips :
    (g : Group) (l level : Level) (new : List String)
    → level_ips level (extended g l new)
      ≡ level_ips level g ++ (if same_level l level then new else [])
extended_ips g read_write read_write new = refl
extended_ips g read_write read_only new = sym (append-nil g.read_only)
extended_ips g read_only read_write new = sym (append-nil g.read_write)
extended_ips g read_only read_only new = refl

extend_group-ips :
    (groups : Groups) (group : String) (l : Level) (new : List String) (name : String)
    (level : Level)
    → ips_at name level (extend_group groups group l new)
      ≡ ips_at name level groups ++ (if (group == name) && same_level l level then new else [])
unfolding extend_group ips_at
extend_group-ips groups group l new name level = elim (Bool-cases (group == name)) [
  | inl same ↦
      rw (lookup-assign, same)
        (extended_ips (blank_group (lookup group groups)) l level new
          ∙ ap
              (λ (n : String).
                level_ips level (blank_group (lookup n groups))
                ++ (if same_level l level then new else []))
              ((eq_iff group name).0 same))
  | inr differ ↦ rw (lookup-assign, differ) (sym (append-nil _))
]

strip-token : (s : String) → IsToken s → strip s ≡ s
strip-token s h = strip-Free s (Free-token is_space space_not_special s h)

stripped-tokens : (ws : List String) → All IsToken ws → stripped ws ≡ ws
unfolding stripped
stripped-tokens [] h = refl
stripped-tokens (String.[] ∷ ws) ((ne, f), hs) = absurd ne
stripped-tokens (String.◌∷◌ c s ∷ ws) (h, hs) =
    rw (strip-token (String.◌∷◌ c s) h, stripped-tokens ws hs, NonEmpty-eq (String.◌∷◌ c s) h.0)

read_level-level_text : (l : Level) → read_level (strip (level_text l)) ≡ some l
unfolding read_level strip is_space
read_level-level_text read_write = refl
read_level-level_text read_only = refl

add_fields-token :
    (groups : Groups) (group : String) (l : Level) (new : List String)
    → NonEmpty group
    → add_fields groups group (some l) new ≡ extend_group groups group l new
unfolding add_fields
add_fields-token groups String.[] l new h = absurd h
add_fields-token groups (String.◌∷◌ c s) l new h = refl

strip-written : (e : Entry) → IsTidy e → strip (written e) ≡ written e
unfolding is_space
strip-written e h = strip-Free (written e) (
    Free-written is_space e space_not_special refl refl (level_Free is_space refl refl refl e.level)
      h)

add_parts-entry :
    (groups : Groups) (e : Entry)
    → IsTidy e
    → add_parts groups (e.group ∷ level_text e.level ∷ join (one ",") (ips e) ∷ [])
      ≡ extend_group groups e.group e.level (ips e)
unfolding add_parts
add_parts-entry groups e ((ne, f), is) =
    rw
      (
        strip-token e.group (ne, f),
        read_level-level_text e.level,
        split_if-join (λ c. nat_eq c b',') "," e.first e.others refl
            (Free-tokens (λ c. nat_eq c b',') comma_special (ips e) is),
        stripped-tokens (ips e) is,
      )
      (add_fields-token groups e.group e.level (ips e) ne)

add_entry-written :
    (groups : Groups) (e : Entry)
    → IsTidy e
    → add_entry groups (written e) ≡ extend_group groups e.group e.level (ips e)
unfolding add_entry
add_entry-written groups e h =
    rw (strip-written e h, NonEmpty-eq (written e) (NonEmpty-written e h), split_written e h)
      (add_parts-entry groups e h)

add_entries-written :
    (groups : Groups) (es : List Entry) (name : String) (level : Level)
    → All IsTidy es
    → ips_at name level (add_entries groups (map written es))
      ≡ ips_at name level groups ++ granted name level es
unfolding add_entries
add_entries-written groups [] name level h = sym (append-nil _)
add_entries-written groups (e ∷ es) name level (h, hs) =
    add_entries-written (add_entry groups (written e)) es name level hs
    ∙ ap (λ (g : Groups). ips_at name level g ++ granted name level es)
        (add_entry-written groups e h)
    ∙ ap (λ (xs : List String). xs ++ granted name level es)
        (extend_group-ips groups e.group e.level (ips e) name level)
    ∙ append_assoc (ips_at name level groups)
        (if (e.group == name) && same_level e.level level then ips e else [])
        (granted name level es)

parse-some :
    (spec : String)
    → NonEmpty spec
    → parse_policy_groups (some spec) ≡ add_entries [] (split_on b';' spec)
unfolding parse_policy_groups
parse-some String.[] h = absurd h
parse-some (String.◌∷◌ c s) h = refl

no_ips : (level : Level) → level_ips level (blank_group none) ≡ []
no_ips read_write = refl
no_ips read_only = refl

-- Reading what was written, of entries whose names and addresses are not empty and have no space,
-- semicolon, colon or comma: for each group and level, `_parse_policy_groups` gives the addresses of
-- all entries of that group and level, in their order, and none for the others.
pub parse-notation :
    (e : Entry) (es : List Entry) (name : String) (level : Level)
    → All IsTidy (e ∷ es)
    → ips_at name level (parse_policy_groups (some (notation e es))) ≡ granted name level (e ∷ es)
unfolding notation ips_at
parse-notation e es name level (h, hs) =
    ap (ips_at name level) (
      parse-some (notation e es) (NonEmpty-notation e es h)
      ∙ ap (add_entries []) (
          split_if-join (λ c. nat_eq c b';') ";" (written e) (map written es) refl
            (All-written (e ∷ es) (h, hs))))
    ∙ add_entries-written [] (e ∷ es) name level (h, hs)
    ∙ ap (λ (xs : List String). xs ++ granted name level (e ∷ es)) (no_ips level)
