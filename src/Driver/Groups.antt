-- ===== src/Driver/Groups.antt =====
-- driver.py: `_parse_policy_groups`, which reads the option weka_security_policy_group,
-- `<group>:<rw|ro>:<cidr,...>` entries between semicolons.
pub mod Entries
pub mod Notation
use Prim.Native.String
use manila_weka_driver.Prelude.{
  String, Bool, true, false, Option, none, some, List, [], ◌∷◌, ◌++◌, ◌==◌, if◌then◌else◌,
}
use manila_weka_driver.Text.{same_folded}
use manila_weka_driver.Text.Split.{split_if, split_on, strip, nonempty}
use manila_weka_driver.Driver.{Group, lookup, assign}
use manila_weka_driver.Driver.Policies.{Level, read_write, read_only}

abbrev pub Groups : Type 0
Groups = List (String × Group)

-- `parts[1].strip().lower()`, if it is 'rw' or 'ro'
unfoldable pub read_level : String → Option Level
unfolding same_folded
read_level s =
    if same_folded s "rw"
    then some read_write
    else if same_folded s "ro"
    then some read_only
    else none

abbrev pub blank_group : Option Group → Group
blank_group none = record { read_write = []; read_only = [] }
blank_group (some g) = g

abbrev pub extended : Group → Level → List String → Group
extended g read_write ips = record g { read_write = g.read_write ++ ips }
extended g read_only ips = record g { read_only = g.read_only ++ ips }

-- `groups[group][level].extend(ips)`, with the two `setdefault` before it
unfoldable pub extend_group : Groups → String → Level → List String → Groups
unfolding lookup assign
extend_group groups group level ips =
    assign group (extended (blank_group (lookup group groups)) level ips) groups

-- `[c.strip() for c in cidrs.split(',') if c.strip()]`
unfoldable pub stripped : List String → List String
unfolding strip
stripped [] = []
stripped (w ∷ ws) = let rest = stripped ws in if strip w == "" then rest else strip w ∷ rest

unfoldable pub add_fields : Groups → String → Option Level → List String → Groups
unfolding extend_group
add_fields groups group none ips = groups
add_fields groups String.[] (some level) ips = groups
add_fields groups group (some level) ips = extend_group groups group level ips

-- An entry's three parts; other numbers of parts are malformed.
unfoldable pub add_parts : Groups → List String → Groups
unfolding add_fields read_level strip stripped split_if
add_parts groups (group ∷ level ∷ cidrs ∷ []) =
    add_fields groups (strip group) (read_level (strip level)) (stripped (split_on b',' cidrs))
add_parts groups _ = groups

unfoldable pub add_entry : Groups → String → Groups
unfolding add_parts strip split_if
add_entry groups entry =
    if strip entry == "" then groups else add_parts groups (split_on b':' (strip entry))

unfoldable pub add_entries : Groups → List String → Groups
unfolding add_entry
add_entries groups [] = groups
add_entries groups (entry ∷ entries) = add_entries (add_entry groups entry) entries

-- `_parse_policy_groups`
unfoldable pub parse_policy_groups : Option String → Groups
unfolding add_entries split_if
parse_policy_groups none = []
parse_policy_groups (some String.[]) = []
parse_policy_groups (some spec) = add_entries [] (split_on b';' spec)
