-- ===== src/Driver/Shares/Shrinking.antt =====
-- driver.py: `shrink_share` never sets a capacity below what the filesystem uses, over any cluster
-- that behaves as `Sized` says.
use manila_weka_driver.Prelude.{
  ℕ, ◌≤◌, ◌≡◌, refl, String, false, Option, none, some, List, [], ◌∷◌, ltb, arith, if◌then◌else◌,
}
use manila_weka_driver.Exceptions.{shrinking_data_loss}
use manila_weka_driver.Exec.{Result, ok, err, Exec, pure, raise, lift, ◌>>=◌, ◌>>◌}
use manila_weka_driver.Exec.Rules.{
  Keeps, Keeps-pure, Keeps-raise, Keeps-lift, Keeps-if, Keeps-bind, Keeps-Meets, Meets, Meets-bind,
  Meets-if, Meets-pure,
}
use manila_weka_driver.Json.{Json, index}
use manila_weka_driver.Weka.{Handle}
use manila_weka_driver.Driver.{Env, Share, Location}
use manila_weka_driver.Driver.Names.{share_name}
use manila_weka_driver.Driver.Resolve.{
  cached_uid, path_name, find_filesystem, uid_by_paths, fs_uid_for_share,
}
use manila_weka_driver.Driver.Orgs.Frame.{Opens, calling-Held, calling-Meets, client_for_share-Held}
use manila_weka_driver.Driver.Resolve.Frame.{find_filesystem-Keeps}
use manila_weka_driver.Driver.Shares.{used_bytes, shrink_to, shrink_share}

-- What the cluster promises: `used` is at most what a look reports until the resize, and `P` is kept
-- by all that `shrink_share` calls, by a resize where it is not below `used`.
pub record Sized {W : Type 0} (env : Env W) (P : W → Type 0) (used : Handle → Json → W → ℕ)
    : Type 0 where
  pub opens : Opens env P
  pub by_name : (h : Handle) (name : String) → Keeps P (env.weka.get_filesystem_by_name h name)
  pub look :
      (h : Handle) (uid : Json)
      → Meets P
          (env.weka.get_filesystem h uid)
          (λ fs w. P w × ((u : ℕ) → used_bytes fs ≡ ok u → used h uid w ≤ u))
          P
  pub resize :
      (h : Handle) (uid : Json) (n : ℕ)
      → Meets (λ w. P w × used h uid w ≤ n) (env.weka.update_filesystem h uid n) (λ _. P) P

module _ {W : Type 0} (env : Env W) (P : W → Type 0) (used : Handle → Json → W → ℕ)
    (sized : Sized env P used) where
  or_rest :
      (o : Option Json) (rest : Exec W Json)
      → Keeps P rest
      → Keeps P (elim o [ some fs ↦ lift (index "uid" fs) | none ↦ rest ])
  or_rest none rest h = h
  or_rest (some fs) rest h = Keeps-lift _

  uid_by_paths-Keeps :
      (h : Handle) (share_id : String) (locs : List Location)
      → Keeps P (uid_by_paths env h share_id locs)
  unfolding uid_by_paths
  uid_by_paths-Keeps h share_id [] = Keeps-raise _
  uid_by_paths-Keeps h share_id (loc ∷ locs) =
      Keeps-if _ _ _ (λ _. uid_by_paths-Keeps h share_id locs)
        λ _.
          Keeps-bind _ _ (find_filesystem-Keeps env P sized.by_name h (path_name loc.path))
            λ o. or_rest o _ (uid_by_paths-Keeps h share_id locs)

  resolved :
      (h : Handle) (share : Share) (o : Option Json)
      → Keeps P (elim o [
        | some uid ↦ pure uid
        | none ↦ (do
          found ← find_filesystem env h (share_name env.config share.id)
          elim found [
            | some fs ↦ lift (index "uid" fs)
            | none ↦ uid_by_paths env h share.id share.export_locations
          ])
      ])
  resolved h share (some uid) = Keeps-pure uid
  resolved h share none =
      Keeps-bind _ _ (find_filesystem-Keeps env P sized.by_name h _)
        λ o. or_rest o _ (uid_by_paths-Keeps h share.id share.export_locations)

  fs_uid_for_share-Keeps : (h : Handle) (share : Share) → Keeps P (fs_uid_for_share env h share)
  unfolding fs_uid_for_share
  fs_uid_for_share-Keeps h share = resolved h share (cached_uid share.export_locations)

  enough : (n u k : ℕ) → ltb n u ≡ false → k ≤ u → k ≤ n
  enough n u k h le = ground arith

  -- What holds of the filesystem between the look and the resize.
  abbrev Bounded : Handle → Json → Result ℕ → W → Type 0
  Bounded h uid r w = P w × ((u : ℕ) → r ≡ ok u → used h uid w ≤ u)

  resized :
      (h : Handle) (uid : Json) (share_id : String) (n : ℕ) (r : Result ℕ)
      → Meets
          (Bounded h uid r)
          (lift r >>= λ u.
            if ltb n u
            then raise (shrinking_data_loss share_id)
            else (env.weka.update_filesystem h uid n >> pure tt))
          (λ _. P)
          P
  unfolding ◌>>=◌
  resized h uid share_id n (err e) = record { at = λ w (p, bound). p }
  resized h uid share_id n (ok u) = record {
    at = λ w (p, bound).
        (Meets-if {P = Bounded h uid (ok u)} {Q = λ _. P} {R = P} (ltb n u) _ _
            (λ over. record { at = λ x (p', b). p' })
            (λ fits.
              Meets-bind _ _
                (record {
                  at = λ x (p', b). (sized.resize h uid n).at x (p', enough n u _ fits (b u refl));
                })
                λ _. Meets-pure tt (λ x p'. p'))).at
          w (p, bound);
  }

  shrink_to-Meets :
      (h : Handle) (uid : Json) (share_id : String) (n : ℕ) (fs : Json)
      → Meets (Bounded h uid (used_bytes fs)) (shrink_to env h uid share_id n fs) (λ _. P) P
  unfolding shrink_to
  shrink_to-Meets h uid share_id n fs = resized h uid share_id n (used_bytes fs)

-- `shrink_share` keeps, whether it returns or raises, every property of a cluster as in `Sized` that
-- is kept by looking filesystems and organizations up, by opening an organization, and by resizing
-- a filesystem to no less than what it uses.
pub shrink_share-Keeps :
    {W : Type 0} (env : Env W) (P : W → Type 0) (used : Handle → Json → W → ℕ) (share : Share)
    (new_size : ℕ)
    → Sized env P used
    → Keeps (λ d. P d.weka) (shrink_share env share new_size)
unfolding shrink_share
shrink_share-Keeps env P used share new_size sized =
    Keeps-bind _ _ (client_for_share-Held env P sized.opens share) λ client.
      Keeps-bind _ _ (calling-Held env P _ (fs_uid_for_share-Keeps env P used sized client share))
        λ uid. Keeps-Meets _ (
          Meets-bind _ _ (calling-Meets env P _ (sized.look client uid))
            λ fs. calling-Meets env P _ (shrink_to-Meets env P used sized client uid share.id _ fs))
