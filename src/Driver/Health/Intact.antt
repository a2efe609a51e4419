-- ===== src/Driver/Health/Intact.antt =====
-- driver.py: `ensure_shares` makes no organization.

use manila_weka_driver.Prelude.{
  ℕ, ◌≡◌, ◌≢◌, String, true, Option, none, some, List, [], ◌∷◌, if◌then◌else◌,
}
use manila_weka_driver.Exec.{Exec, pure, raise}
use manila_weka_driver.Exec.Rules.{
  Keeps, Keeps-pure, Keeps-raise, Keeps-lift, Keeps-bind, Keeps-Meets, Keeps-catching_if,
  keeps_rules, Meets, Meets-bind, Meets-Keeps, Meets-pure, Meets-if, Meets-on_option, Meets-weaken,
  Meets-lift,
}
use manila_weka_driver.Json.{Json}
use manila_weka_driver.Weka.{Handle, admin}
use manila_weka_driver.Host.{wekafs_mount}
use manila_weka_driver.Posix.{WekaMount, is_mounted, ensure_mount_point_dir, mount}
use manila_weka_driver.Driver.{Env, Driver, Share, calling, is_isolated_wekafs}
use manila_weka_driver.Driver.Names.{share_name}
use manila_weka_driver.Driver.Orgs.Frame.{Held, calling-Held, calling-Meets}
use manila_weka_driver.Driver.Orgs.Entered.{Finds, Entered, org_client-Entered, org_client-Held}
use manila_weka_driver.Driver.Exports.{listed}
use manila_weka_driver.Driver.Resolve.Frame.{find_filesystem-Keeps}
use manila_weka_driver.Driver.Deletion.{if_truthy}
use manila_weka_driver.Driver.Tokens.{replace_token, write_token, org_token_file}
use manila_weka_driver.Driver.Health.{
  Listing, Update, latest, share_mount, by_name, find_isolated, remount, ensure_share, checked,
  check_shares, ensure_shares,
}

-- What a check of shares may do without breaking `P`: look, enter organizations that are there,
-- write tokens and mount.
pub record Checks {W : Type 0} (env : Env W) (P : W → Type 0) (Known : String → W → Type 0)
    : Type 0 where
  pub finds : Finds env P Known
  pub lists : Keeps P (env.weka.list_filesystems admin)
  pub finds_filesystem :
      (h : Handle) (name : String) → Keeps P (env.weka.get_filesystem_by_name h name)
  pub token : (h : Handle) → Keeps P (env.weka.auth_token_payload h)
  pub runs : (command : List String) → Keeps P (env.host.execute command)
  pub reads : (path : String) → Keeps P (env.host.read_lines path)
  pub makes : (path : String) (mode : Option ℕ) → Keeps P (env.host.make_dirs path mode)
  pub chmods : (path : String) (mode : ℕ) → Keeps P (env.host.chmod path mode)
  pub makes_file :
      (dir prefix suffix : String) → Keeps P (env.host.make_temp_file dir prefix suffix)
  pub writes : (path : String) (v : Json) → Keeps P (env.host.write_json path v)
  pub replaces : (source target : String) → Keeps P (env.host.replace source target)
  pub unlinks : (path : String) → Keeps P (env.host.unlink path)

module _ {W : Type 0} (env : Env W) (P : W → Type 0) (Known : String → W → Type 0)
    (checks : Checks env P Known) where
  is_mounted-Keeps : (point : String) → Keeps P (is_mounted env.host point)
  unfolding is_mounted
  is_mounted-Keeps point = search (keeps_rules, checks.reads)

  ensure_dir-Keeps : (path : String) → Keeps P (ensure_mount_point_dir env.host path)
  unfolding ensure_mount_point_dir
  ensure_dir-Keeps path = search (keeps_rules, checks.makes)

  wekafs_mount-Keeps :
      (source point : String) (options : Option String)
      → Keeps P (wekafs_mount env.host source point options)
  unfolding wekafs_mount
  wekafs_mount-Keeps source point options = checks.runs _

  mount-Keeps : (m : WekaMount) → Keeps P (mount env.host m)
  unfolding mount
  mount-Keeps m = search (keeps_rules, is_mounted-Keeps, ensure_dir-Keeps, wekafs_mount-Keeps)

  replace_token-Keeps : (h : Handle) (tmp path : String) → Keeps P (replace_token env h tmp path)
  unfolding replace_token
  replace_token-Keeps h tmp path =
      search (keeps_rules, checks.token, checks.writes, checks.replaces, checks.unlinks)

  write_token-Keeps : (h : Handle) (path : String) → Keeps P (write_token env h path)
  unfolding write_token
  write_token-Keeps h path =
      search (keeps_rules, checks.makes, checks.chmods, checks.makes_file, replace_token-Keeps)

  org_token_file-Held :
      (p : Option String)
      → Meets
          (Entered env P Known checks.finds p)
          (org_token_file env p)
          (λ _. Held env P)
          (Held env P)
  unfolding org_token_file
  org_token_file-Held p = Meets-bind _ _ (org_client-Held env P Known checks.finds p) λ h.
      Meets-Keeps _ (
        calling-Held env P _
          (Keeps-catching_if _ _ _ (write_token-Keeps h _) (λ e _. Keeps-raise _)))

  -- What finding a share's filesystem leaves: of an isolated share, its client in the cache.
  abbrev Found : Share → Driver W → Type 0
  Found share d =
      P d.weka
      × (is_isolated_wekafs share ≡ true → Entered env P Known checks.finds share.project_id d)

  entered_holds :
      (p : Option String) (d : Driver W) → Entered env P Known checks.finds p d → P d.weka
  entered_holds none d e = absurd e
  entered_holds (some p) d e = e.0

  calling-Entered :
      {A : Type 0} (p : Option String) (m : Exec W A)
      → Keeps P m
      → Keeps (Entered env P Known checks.finds p) (calling m)
  unfolding calling
  calling-Entered none m k = record { at = λ d e. absurd e }
  calling-Entered (some p) m k = record { at = λ d (holds, hit). (k.at d.weka holds, hit) }

  known :
      (o : Option Json) (org : Json) (name : String) (w : W)
      → if_truthy o ≡ some org
      → (o ≢ none → Known name w)
      → Known name w
  unfolding if_truthy
  known none org name w e h = cc
  known (some v) org name w e h = h (λ x. cc)

  find_isolated-Found :
      (share : Share)
      → Meets
          (Held env P)
          (find_isolated env share)
          (λ _. Entered env P Known checks.finds share.project_id)
          (Held env P)
  unfolding find_isolated raise
  find_isolated-Found share = Meets-bind _ _ (calling-Meets env P _ (checks.finds.found _)) λ o.
      Meets-on_option (if_truthy o) _ _ (record { at = λ d e. e.0 })
        λ org e.
          Meets-bind _ _
            (Meets-weaken _ (λ d (holds, k). (holds, known o org _ d.weka e k)) (λ h d q. q)
              (λ d q. q) (org_client-Entered env P Known checks.finds share.project_id))
            λ h.
              Meets-weaken _ (λ d q. q) (λ fs d q. q) (entered_holds share.project_id)
                (Meets-Keeps _ (
                  calling-Entered share.project_id _
                    (find_filesystem-Keeps env P checks.finds_filesystem h _)))

  remount-Held :
      (share : Share)
      → Meets
          (Entered env P Known checks.finds share.project_id)
          (remount env share)
          (λ _. Held env P)
          (Held env P)
  unfolding remount
  remount-Held share =
      Meets-bind _ _
        (Meets-weaken _ (λ d q. q) (λ b d q. q) (entered_holds share.project_id)
          (Meets-Keeps _ (calling-Entered share.project_id _ (is_mounted-Keeps _))))
        λ b.
          Meets-if b _ _ (λ _. Meets-pure tt (entered_holds share.project_id))
            λ _. Meets-bind _ _ (org_token_file-Held share.project_id) λ token. Meets-Keeps _ (
              calling-Held env P _
                (mount-Keeps (share_mount env (share_name env.config share.id) token)))

  locate :
      (listing : Listing) (share : Share)
      → Meets
          (Held env P)
          (if is_isolated_wekafs share
            then find_isolated env share
            else pure (if_truthy (latest (share_name env.config share.id) listing)))
          (λ _. Found share)
          (Held env P)
  locate listing share =
      Meets-if (is_isolated_wekafs share) _ _
        (λ isolated.
          Meets-weaken _ (λ d q. q) (λ o d e. (entered_holds share.project_id d e, λ _. e))
            (λ d q. q) (find_isolated-Found share))
        λ shared. Meets-pure _ (λ d e. (e, λ isolated. cc))

  again_mounted :
      (share : Share)
      → Meets
          (Found share)
          (if is_isolated_wekafs share then remount env share else pure tt)
          (λ _. Held env P)
          (Held env P)
  again_mounted share =
      Meets-if (is_isolated_wekafs share) _ _
        (λ isolated.
          Meets-weaken _ (λ d e. e.1 isolated) (λ a d q. q) (λ d q. q) (remount-Held share))
        λ shared. Meets-pure tt (λ d e. e.0)

  ensure_share-Keeps :
      (listing : Listing) (share : Share) → Keeps (Held env P) (ensure_share env listing share)
  unfolding ensure_share raise
  ensure_share-Keeps listing share = Keeps-Meets _ (
      Meets-bind _ _ (locate listing share) λ o.
        Meets-on_option o _ _ (record { at = λ d e. e.0 })
          λ fs e.
            Meets-bind _ _ (Meets-weaken _ (λ d q. q) (λ uid d q. q.1) (λ d q. q.0) (Meets-lift _))
              λ uid. Meets-bind _ _ (again_mounted share) λ _. Meets-pure _ (λ d q. q))

  checked-Keeps :
      (listing : Listing) (share : Share) → Keeps (Held env P) (checked env listing share)
  unfolding checked
  checked-Keeps listing share = search (keeps_rules, ensure_share-Keeps)

  check_shares-Keeps :
      (listing : Listing) (shares : List Share) (updates : List (String × Update))
      → Keeps (Held env P) (check_shares env listing shares updates)
  unfolding check_shares
  check_shares-Keeps listing [] updates = Keeps-pure updates
  check_shares-Keeps listing (share ∷ shares) updates =
      Keeps-bind _ _ (checked-Keeps listing share) λ u. check_shares-Keeps listing shares _

  by_name-Keeps : (entries : List Json) → Keeps P (by_name env entries)
  unfolding by_name
  by_name-Keeps [] = Keeps-pure []
  by_name-Keeps (fs ∷ rest) =
      Keeps-bind _ _ (Keeps-lift _)
        λ name. Keeps-bind _ _ (by_name-Keeps rest) λ entries. Keeps-pure _

  -- Checking shares never makes an organization, also where one is gone: whether `ensure_shares`
  -- returns or raises, it keeps every property of a cluster and a host that is kept by what `Checks`
  -- lists, which is looking up, entering an organization that is found, writing tokens and mounting.
  -- The law on organizations is that one that was found is found again.
  pub ensure_shares-Keeps : (shares : List Share) → Keeps (λ d. P d.weka) (ensure_shares env shares)
  unfolding ensure_shares listed
  ensure_shares-Keeps shares =
      Keeps-bind _ _
        (calling-Held env P _
          (Keeps-bind _ _ (Keeps-bind _ _ checks.lists λ v. Keeps-lift _) by_name-Keeps))
        λ listing. check_shares-Keeps listing shares []
