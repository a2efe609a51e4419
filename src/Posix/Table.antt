-- ===== src/Posix/Table.antt =====
-- posix.py: `is_mounted` reads a table of mounts in the format of /proc/mounts.

use manila_weka_driver.Prelude.{◌≡◌, refl, String, ◌&&◌, List, [], ◌∷◌, ◌==◌, All, any, map}
use manila_weka_driver.Text.Split.{words, join}
use manila_weka_driver.Text.Split.Joined.{one, IsWord, words-join}
use manila_weka_driver.Posix.{mounted_in}

-- An entry of the table.
pub record Mounted : Type 0 where
  pub device : String
  pub path : String
  pub kind : String
  pub options : String

abbrev fields_of : Mounted → List String
fields_of m = m.device ∷ m.path ∷ m.kind ∷ m.options ∷ "0" ∷ "0" ∷ []

-- A line of the table: the fields with spaces between them.
unfoldable pub line_of : Mounted → String
unfolding join
line_of m = join (one " ") (fields_of m)

abbrev pub IsPlain : Mounted → Type 0
IsPlain m = IsWord m.device × IsWord m.path × IsWord m.kind × IsWord m.options

line_fields : (m : Mounted) → IsPlain m → words (line_of m) ≡ fields_of m
unfolding line_of manila_weka_driver.Text.Split.is_space
line_fields m (d, p, k, o) =
    words-join " " m.device (m.path ∷ m.kind ∷ m.options ∷ "0" ∷ "0" ∷ []) refl
      (d, (p, (k, (o, ((tt, (refl, tt)), ((tt, (refl, tt)), tt))))))

-- Of a table whose fields hold no space, the test on its lines finds a mount point exactly if an
-- entry has that path and the type wekafs.
pub mounted_in-lines :
    (point : String) (table : List Mounted)
    → All IsPlain table
    → mounted_in point (map line_of table)
      ≡ any (λ (m : Mounted). m.path == point && m.kind == "wekafs") table
unfolding mounted_in
mounted_in-lines point [] h = refl
mounted_in-lines point (m ∷ table) (h, hs) = rw (line_fields m h, mounted_in-lines point table hs)
