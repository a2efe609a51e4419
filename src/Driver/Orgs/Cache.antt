-- ===== src/Driver/Orgs/Cache.antt =====
-- driver.py: the cache of organization clients under `_org_client`.
use Prim.Native.Char.{Char}
use manila_weka_driver.Prelude.{
  ◌≡◌, refl, ap, String, Option, none, some, List, [], ◌∷◌, ◌==◌, eq_iff, eq_refl, arith,
  if◌then◌else◌,
}
use manila_weka_driver.Exec.{Result, ok, err, Exec, ◌>>=◌, ◌>>◌, pure, modify, on_option}
use manila_weka_driver.Exec.Rules.{Keeps, keeps_rules, Ends, Meets, Meets-bind, Meets-Keeps}
use manila_weka_driver.Weka.{Handle}
use manila_weka_driver.Driver.{Env, Driver, lookup, assign, calling}
use manila_weka_driver.Driver.Orgs.{create_org, ensure_org, open_org, org_client}

pub lookup-assign :
    {V : Type 0} (k j : String) (v : V) (d : List (String × V))
    → lookup j (assign k v d) ≡ (if k == j then some v else lookup j d)
unfolding lookup assign
lookup-assign k j v [] = refl
lookup-assign k j v ((i, w) ∷ d) =
    ground (arith, eq_iff k j, eq_iff i k, eq_iff i j, lookup-assign k j v d)

module _ {W : Type 0} (env : Env W) where
  module _ (cache : List (String × Handle)) where
    abbrev SameCache : Driver W → Type 0
    SameCache d = d.org_clients ≡ cache

    calling-SameCache : {A : Type 0} (m : Exec W A) → Keeps SameCache (calling m)
    unfolding calling
    calling-SameCache m = record { at = λ d h. h }

    create_org-SameCache : (name password : String) → Keeps SameCache (create_org env name password)
    unfolding create_org
    create_org-SameCache name password = search (keeps_rules, calling-SameCache)

    ensure_org-SameCache : (p : Option String) → Keeps SameCache (ensure_org env p)
    unfolding ensure_org
    ensure_org-SameCache p = search (keeps_rules, calling-SameCache, create_org-SameCache)

    stored :
        (p : String) (h : Handle)
        → Meets SameCache
            (modify (λ (d : Driver W). record d { org_clients = assign p h d.org_clients })
              >> pure h)
            (λ k d. d.org_clients ≡ assign p k cache)
            SameCache
    unfolding ◌>>=◌
    stored p h = record { at = λ d e. ap (assign p h) e }

    open_org-Meets :
        (p : String)
        → Meets SameCache (open_org env p) (λ h d. d.org_clients ≡ assign p h cache) SameCache
    unfolding open_org
    open_org-Meets p =
        Meets-bind _ _ (Meets-Keeps _ (ensure_org-SameCache (some p)))
          λ _. Meets-bind _ _ (Meets-Keeps _ (calling-SameCache _)) (stored p)

-- The cache after `_org_client` at a project, by how the call ended.
abbrev pub CacheAfter : {W : Type 0} → String → Driver W → Result Handle × Driver W → Type 0
CacheAfter p d (err e, d') = d'.org_clients ≡ d.org_clients
CacheAfter p d (ok h, d') =
    (q : String) → lookup q d'.org_clients ≡ (if p == q then some h else lookup q d.org_clients)

cached_same :
    (p q : String) (h : Handle) (cache : List (String × Handle))
    → lookup p cache ≡ some h
    → lookup q cache ≡ (if p == q then some h else lookup q cache)
cached_same p q h cache e = ground (arith, eq_iff p q)

module _ {W : Type 0} (env : Env W) where
  opened_CacheAfter :
      (p : String) (d : Driver W) (r : Result Handle × Driver W)
      → Ends
          (λ h d'. d'.org_clients ≡ assign p h d.org_clients)
          (λ d'. d'.org_clients ≡ d.org_clients)
          r
      → CacheAfter p d r
  opened_CacheAfter p d (ok h, d') e = λ q. rw e (lookup-assign p q h d.org_clients)
  opened_CacheAfter p d (err x, d') e = e

  org_client-cases :
      (p : String) (d : Driver W) (o : Option Handle)
      → lookup p d.org_clients ≡ o
      → CacheAfter p d (on_option o (open_org env p) pure d)
  unfolding on_option pure
  org_client-cases p d none e =
      opened_CacheAfter p d (open_org env p d) ((open_org-Meets env d.org_clients p).at d refl)
  org_client-cases p d (some h) e = λ q. cached_same p q h d.org_clients e

  -- A failed call of `_org_client` leaves the cache of clients as it was; one that succeeds has the
  -- client that it returns in the cache under its project, and every other project's as before.
  pub org_client-CacheAfter :
      (c : Char) (p : String) (d : Driver W)
      → let project = String.◌∷◌ c p in CacheAfter project d (org_client env (some project) d)
  unfolding org_client ◌>>=◌
  org_client-CacheAfter c p d = org_client-cases (String.◌∷◌ c p) d _ refl

  again :
      (project : String) (h : Handle) (d d' : Driver W) (r : Result Handle × Driver W)
      → CacheAfter project d r
      → r ≡ (ok h, d')
      → lookup project d'.org_clients ≡ some h
  again project h d d' (ok k, x) after e =
      let own : lookup project x.org_clients ≡ some k = rw (after project, eq_refl project) in cc
  again project h d d' (err k, x) after e = cc

  -- A project's client is opened once: after a call of `_org_client` that succeeded, the next one
  -- returns the same client, with no call of the API and no change of state.
  pub org_client_again :
      (c : Char) (p : String) (h : Handle) (d d' : Driver W)
      → org_client env (some (String.◌∷◌ c p)) d ≡ (ok h, d')
      → org_client env (some (String.◌∷◌ c p)) d' ≡ (ok h, d')
  org_client_again c p h d d' e =
      let hit = again (String.◌∷◌ c p) h d d' _ (org_client-CacheAfter c p d) e in
      unfold org_client ◌>>=◌ on_option in rw hit
