-- ===== src/Tests/Posix.antt =====
-- Instances of what is proved of mounts, of the retries and of the log copy.
use manila_weka_driver.Prelude.{
  ℕ, ◌≡◌, refl, String, true, false, none, some, List, [], ◌∷◌, ◌==◌, ◌&&◌, any, map, All, arith,
}
use manila_weka_driver.Exceptions.{rate_limited}
use manila_weka_driver.Exec.{Result, ok, err, ◌>>=◌}
use manila_weka_driver.Exec.Rules.{Meets}
use manila_weka_driver.Json.{Json, Fields, end, field, str, obj, get}
use manila_weka_driver.Posix.{WekaMount, weka_mount, is_mount_fields, mounted_in}
use manila_weka_driver.Posix.Table.{Mounted, IsPlain, line_of, mounted_in-lines}
use manila_weka_driver.Posix.Stacking.{AtMostOne, Has, mounted_times, mounted_times-None}
use manila_weka_driver.Text.Split.{words}
use manila_weka_driver.Utils.{retry_on_transient, transient_codes, sanitize_log_params, secret_keys}
use manila_weka_driver.Utils.Retry.{Run, retry-Run}
use manila_weka_driver.Utils.Secrets.{get-sanitize}
use manila_weka_driver.Tests.Cluster.{host, mount_line}
use manila_weka_driver.Tests.Hosts.{mountable}

abbrev weka_entry : Mounted
weka_entry = record { device = "weka/fs"; path = "/mnt/a"; kind = "wekafs"; options = "rw" }

abbrev other_entry : Mounted
other_entry = record { device = "/dev/sda"; path = "/mnt/b"; kind = "ext4"; options = "rw" }

entries-IsPlain : All IsPlain (other_entry ∷ weka_entry ∷ [])
unfolding manila_weka_driver.Text.Split.is_space
entries-IsPlain = ground arith

mounted_in-lines_example :
    mounted_in "/mnt/a" (map line_of (other_entry ∷ weka_entry ∷ []))
    ≡ any
        (λ (m : Mounted). m.path == "/mnt/a" && m.kind == "wekafs")
        (other_entry ∷ weka_entry ∷ [])
mounted_in-lines_example = mounted_in-lines "/mnt/a" (other_entry ∷ weka_entry ∷ []) entries-IsPlain

abbrev of_share : WekaMount
of_share = weka_mount none "fs" "/mnt/a"

named : is_mount_fields "/mnt/a" (words (mount_line "wekafs" "/mnt/a")) ≡ true
unfolding is_mount_fields words
named = refl

mounted_times-None_example :
    Meets
      (AtMostOne host of_share (mountable "/mnt/a" named))
      (mounted_times host of_share 2 false)
      (λ _. Has host of_share (mountable "/mnt/a" named) (λ k. k ≡ 0))
      (AtMostOne host of_share (mountable "/mnt/a" named))
mounted_times-None_example = mounted_times-None host of_share (mountable "/mnt/a" named) 2 false

get-sanitize_example :
    get "Api_Token" (sanitize_log_params secret_keys (obj (field "Api_Token" (str "abc") end)))
    ≡ ok (some (str "***"))
unfolding manila_weka_driver.Utils.is_secret manila_weka_driver.Json.lookup
get-sanitize_example = get-sanitize secret_keys "Api_Token" (field "Api_Token" (str "abc") end)

-- A call that is refused as too early until the caller has slept twice.
abbrev patient : List ℕ → Result String × List ℕ
patient (first ∷ second ∷ slept) = (ok "done", first ∷ second ∷ slept)
patient slept = (err (rate_limited "later"), slept)

retries_sleep : retry_on_transient ◌∷◌ transient_codes 2 3 1 patient [] ≡ (ok "done", 2 ∷ 1 ∷ [])
unfolding retry_on_transient ◌>>=◌ manila_weka_driver.Utils.has_code
retries_sleep = refl

retry-Run_example :
    Run ◌∷◌ transient_codes 2 patient 3 1 []
      (retry_on_transient ◌∷◌ transient_codes 2 3 1 patient [])
retry-Run_example = retry-Run ◌∷◌ transient_codes 2 patient 3 1 []
