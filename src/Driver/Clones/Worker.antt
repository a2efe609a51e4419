-- ===== src/Driver/Clones/Worker.antt =====
-- driver.py: what a copy does to `_async_copies`, from its begin to its end.

use manila_weka_driver.Prelude.{◌≡◌, refl, String, Bool, true, false, Option, List}
use manila_weka_driver.Exec.{
  Result, ok, err, Exec, pure, raise, modify, catching, handled, continue, ◌>>=◌, ◌>>◌,
}
use manila_weka_driver.Exec.Rules.{
  Keeps, Keeps-lift, keeps_rules, Meets, Meets-Keeps-bind, Meets-on_option, Ends,
}
use manila_weka_driver.Json.{Json}
use manila_weka_driver.Weka.{Handle}
use manila_weka_driver.Driver.{Env, Driver, Share, Location, calling}
use manila_weka_driver.Driver.Orgs.{client_for_share}
use manila_weka_driver.Driver.Orgs.Frame.{Opening, org_client-Keeps, client_for_share-Keeps}
use manila_weka_driver.Driver.Names.{share_name}
use manila_weka_driver.Driver.Tokens.{org_token_file}
use manila_weka_driver.Driver.Copies.{Copies, begin_copy, end_copy}
use manila_weka_driver.Driver.Copies.History.{begun, ended, step}
use manila_weka_driver.Driver.Transfer.{Job, copy_snapshot_wekafs}
use manila_weka_driver.Driver.Clones.{
  copy_snapshot, record_end, run_snapshot_copy, begin_clone, create_share_from_snapshot,
}

module _ {W : Type 0} (env : Env W) (copies : Copies) where
  abbrev pub SameCopies : Driver W → Type 0
  SameCopies d = d.async_copies ≡ copies

  calling-SameCopies : {A : Type 0} (m : Exec W A) → Keeps SameCopies (calling m)
  unfolding calling
  calling-SameCopies m = record { at = λ d h. h }

  opening : Opening env SameCopies
  unfolding modify
  opening = record {
    by_name = λ name. calling-SameCopies _;
    new_org = λ name user password. calling-SameCopies _;
    login = λ name user password. calling-SameCopies _;
    stores = λ p h. record { at = λ d k. k };
  }

  org_token_file-SameCopies : (p : Option String) → Keeps SameCopies (org_token_file env p)
  unfolding org_token_file
  org_token_file-SameCopies p =
      search (keeps_rules, calling-SameCopies, org_client-Keeps env SameCopies opening)

  copy_snapshot-SameCopies : (job : Job) → Keeps SameCopies (copy_snapshot env job)
  unfolding copy_snapshot copy_snapshot_wekafs
  copy_snapshot-SameCopies job = search (keeps_rules, calling-SameCopies, org_token_file-SameCopies)

  client_for_share-SameCopies : (share : Share) → Keeps SameCopies (client_for_share env share)
  client_for_share-SameCopies = client_for_share-Keeps env SameCopies opening

-- Whether an action returned.
abbrev pub succeeded : {A : Type 0} → Result A → Bool
succeeded (ok a) = true
succeeded (err e) = false

module _ {W : Type 0} (env : Env W) where
  -- The outcome of the copy, in the map.
  recorded :
      (id : String) (copies : Copies) (r : Result (Unit {0}) × Driver W)
      → r.1.async_copies ≡ copies
      → (d' : Driver W) × (handled
            (continue r (λ _. record_end env id true))
            (λ e. record_end env id false)
          ≡ (ok tt, d'))
        × (d'.async_copies ≡ end_copy id (succeeded r.0) copies)
  unfolding record_end modify
  recorded id copies (ok done, d) h = (_, refl, rw h refl)
  recorded id copies (err e, d) h = (_, refl, rw h refl)

  -- The worker of a copy raises nothing, whatever the cluster and the host do. Its effect on the
  -- map of copies is the event that the share's copy ended, a success exactly if the copy returned.
  pub run_snapshot_copy-step :
      (job : Job) (d : Driver W)
      → (d' : Driver W) × (run_snapshot_copy env job d ≡ (ok tt, d'))
        × (d'.async_copies
            ≡ step (ended job.share.id (succeeded (copy_snapshot env job d).0)) d.async_copies)
  unfolding run_snapshot_copy catching ◌>>=◌ step
  run_snapshot_copy-step job d =
      recorded job.share.id d.async_copies (copy_snapshot env job d)
        ((copy_snapshot-SameCopies env d.async_copies job).at d refl)

module _ {W : Type 0} (env : Env W) (share : Share) (snapshot_id : String) where
  -- What a clone has left in the map, beside the job that it started.
  abbrev pub Filed : Copies → List Location × Job → Driver W → Type 0
  Filed copies (locations, job) d' =
      (fs_uid : Json) × (d'.async_copies
        ≡ step (begun share.id fs_uid (share_name env.config share.id)) copies)
      × (job.share ≡ share)
      × (job.new_fs_name ≡ share_name env.config share.id)

  module _ (copies : Copies) where
    filed :
        (fs_uid : Json) (locations : List Location) (job : Job)
        → job.share ≡ share
        → job.new_fs_name ≡ share_name env.config share.id
        → Meets
            (SameCopies env copies)
            (modify (λ (d : Driver W). record d {
              async_copies =
                  begin_copy share.id fs_uid (share_name env.config share.id) d.async_copies;
            })
              >> pure (locations, job))
            (Filed copies)
            (SameCopies env copies)
    unfolding ◌>>=◌ step
    filed fs_uid locations job e e' = record { at = λ d same. (fs_uid, rw same refl, e, e') }

    begin_clone-Filed :
        (client : Handle) (source : Json × String)
        → Meets
            (SameCopies env copies)
            (begin_clone env client share snapshot_id source)
            (Filed copies)
            (SameCopies env copies)
    unfolding begin_clone
    begin_clone-Filed client (snap, name) =
        Meets-Keeps-bind _ _ (calling-SameCopies env copies _)
          λ fs. Meets-Keeps-bind _ _ (Keeps-lift _) λ fs_uid. filed fs_uid _ _ refl refl

    clone-Filed :
        Meets
          (SameCopies env copies)
          (create_share_from_snapshot env share snapshot_id)
          (Filed copies)
          (SameCopies env copies)
    unfolding create_share_from_snapshot raise
    clone-Filed =
        Meets-on_option _ _ _ (record { at = λ d same. same })
          λ _ _. Meets-Keeps-bind _ _ (client_for_share-SameCopies env copies share) λ client.
            Meets-Keeps-bind _ _ (calling-SameCopies env copies _) (begin_clone-Filed client)

  -- A clone that is refused or fails leaves the map of copies as it was. Where the call returns,
  -- its effect on the map is the event that the share's copy began, and the worker's arguments
  -- name the share and its new filesystem.
  pub create_share_from_snapshot-Filed :
      (d : Driver W)
      → Ends
          (Filed d.async_copies)
          (SameCopies env d.async_copies)
          (create_share_from_snapshot env share snapshot_id d)
  create_share_from_snapshot-Filed d = (clone-Filed d.async_copies).at d refl
