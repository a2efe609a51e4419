-- ===== src/Driver/Nfs/Marker.antt =====
-- driver.py: which permissions `_remove_nfs_rule` deletes: it looks for the first eight characters
-- of the rule's ID anywhere in the group's name, which holds those of the share's ID as well.
use Prim.Native.String.append
use manila_weka_driver.Prelude.{
  ◌≡◌, refl, ◌⊎◌, inl, inr, String, true, not, some, List, [], ◌∷◌, arith, eq_refl,
}
use manila_weka_driver.Text.{◌⁺⁺◌, take, is_prefix, contains}
use manila_weka_driver.Exec.{Result, ok, err, Exec, lift, ◌>>=◌}
use manila_weka_driver.Exec.Tolerance.{Anything}
use manila_weka_driver.Exec.Rules.{
  Meets, Meets-bind, Meets-pure, Meets-any, Keeps, Keeps-bind, Keeps-pure, Keeps-if,
  Keeps-lift-bind, Meets-Keeps, Ends,
}
use manila_weka_driver.Driver.Nfs.Frame.{Among}
use manila_weka_driver.Json.{Json, str, is_text, as_text, index}
use manila_weka_driver.Weka.{admin}
use manila_weka_driver.Driver.{Env}
use manila_weka_driver.Driver.Names.{nfs_cg_name}
use manila_weka_driver.Driver.Exports.{perm_keys}
use manila_weka_driver.Driver.Nfs.{remove_permissions}

is_prefix-append : (s t : String) → is_prefix s (s ⁺⁺ t) ≡ true
unfolding is_prefix
is_prefix-append String.[] t = refl
is_prefix-append (String.◌∷◌ c s) t = rw (append.cons c s t) (ground (arith, is_prefix-append s t))

is_prefix_refl : (s : String) → is_prefix s s ≡ true
unfolding is_prefix
is_prefix_refl String.[] = refl
is_prefix_refl (String.◌∷◌ c s) = ground (arith, is_prefix_refl s)

contains-is_prefix : (s t : String) → is_prefix s t ≡ true → contains s t ≡ true
unfolding contains
contains-is_prefix s String.[] h = h
contains-is_prefix s (String.◌∷◌ d t) h = ground (arith, h)

-- A part of a text is found in it.
contains-append : (s t u : String) → contains s t ≡ true → contains s (u ⁺⁺ t) ≡ true
unfolding contains
contains-append s t String.[] h = rw (append.nil t) h
contains-append s t (String.◌∷◌ c u) h =
    rw (append.cons c u t) (ground (arith, contains-append s t u h))

marked :
    (share_id access_id other : String)
    → (take 8 access_id ≡ take 8 other) ⊎ (take 8 access_id ≡ take 8 share_id)
    → contains (take 8 access_id) (nfs_cg_name share_id (some other)) ≡ true
unfolding nfs_cg_name
marked share_id access_id other (inl e) = contains-append _ _ "manila-" (
    contains-append _ _ (take 8 share_id)
      (contains-append _ _ "-" (contains-is_prefix _ _ (rw e (is_prefix_refl (take 8 other))))))
marked share_id access_id other (inr e) =
    contains-append _ _ "manila-"
      (contains-is_prefix _ _ (rw e (is_prefix-append (take 8 share_id) _)))

widened :
    {S B : Type 0} (Q : B → S → Type 0) (R : S → Type 0) (r : Result B × S)
    → Ends Q R r
    → Ends Q Anything r
widened Q R (ok b, s) q = q
widened Q R (err e, s) q = tt

-- Nothing need be asked of the state after an error.
Meets-widen :
    {S B : Type 0} {P R : S → Type 0} {Q : B → S → Type 0} (m : Exec S B)
    → Meets P m Q R
    → Meets P m Q Anything
Meets-widen {R} {Q} m h = record { at = λ s p. widened Q R (m s) (h.at s p) }

module _ {S A B : Type 0} {Q : B → S → Type 0} where
  Meets-lift-ok :
      {P R : S → Type 0} (r : Result A) (a : A) (f : A → Exec S B)
      → r ≡ ok a
      → Meets P (f a) Q R
      → Meets P (lift r >>= f) Q R
  unfolding lift ◌>>=◌
  Meets-lift-ok r a f e h = rw e h

  Meets-lift-any :
      (r : Result A) (f : A → Exec S B)
      → ((a : A) → Meets Anything (f a) Q Anything)
      → Meets Anything (lift r >>= f) Q Anything
  Meets-lift-any r f h = Meets-bind {Q = λ _ _. Unit {0}} (lift r) f (Meets-any (lift r)) h

module _ {W : Type 0} (env : Env W) (Q : W → Type 0) (fs_name marker : String)
    (keeps : (uid : Json) → Keeps Q (env.weka.delete_nfs_permission admin uid)) where
  remove_permissions-Keeps :
      (perms : List Json) (names : List String)
      → Keeps Q (remove_permissions env fs_name marker perms names)
  unfolding remove_permissions
  remove_permissions-Keeps [] names = Keeps-pure names
  remove_permissions-Keeps (perm ∷ perms) names =
      Keeps-lift-bind (perm_keys perm) _ λ (fs, cg) read.
        Keeps-bind _ _
          (Keeps-if (not (is_text fs_name fs)) _ _ (λ _. Keeps-pure names)
            λ _. Keeps-lift-bind (as_text cg) _ λ name text.
              Keeps-if (contains marker name) _ _
                (λ _.
                  Keeps-lift-bind (index "uid" perm) _
                    λ uid found. Keeps-bind _ _ (keeps uid) λ _. Keeps-pure _)
                λ _. Keeps-pure names)
          (remove_permissions-Keeps perms)

  removed :
      (perm uid : Json) (name : String) (perms : List Json) (names : List String)
      → perm_keys perm ≡ ok (str fs_name, str name)
      → contains marker name ≡ true
      → index "uid" perm ≡ ok uid
      → Among perm perms
      → Meets Anything (env.weka.delete_nfs_permission admin uid) (λ _. Q) Anything
      → Meets Anything (remove_permissions env fs_name marker perms names) (λ _. Q) Anything
  unfolding remove_permissions is_text as_text
  removed perm uid name [] names keys has found among h = absurd among
  removed perm uid name (p ∷ perms) names keys has found (inl e) h = rw (← e) (
      Meets-lift-ok (perm_keys perm) _ _ keys (
        Meets-bind {Q = λ _. Q} _ _
          (rw (eq_refl fs_name) (
            Meets-lift-ok (as_text (str name)) name _ refl (
              rw has (
                Meets-lift-ok (index "uid" perm) uid _ found
                  (Meets-bind {Q = λ _. Q} _ _ h λ _. Meets-pure _ (λ s q. q))))))
          λ names'. Meets-widen _ (Meets-Keeps _ (remove_permissions-Keeps perms names'))))
  removed perm uid name (p ∷ perms) names keys has found (inr among) h =
      Meets-lift-any (perm_keys p) _ λ _.
        Meets-bind {Q = λ _ _. Unit {0}} _ _ (Meets-any _)
          λ names'. removed perm uid name perms names' keys has found among h

-- Where the listing has a permission of the filesystem whose group is named for the share and any
-- rule, and the ID of the removed rule begins with the same eight characters as that rule's ID, as
-- its own does, or as the share's ID, the loop of `_remove_nfs_rule` does not return without having
-- deleted that permission: what its deletion brings about and other deletions leave alone holds
-- wherever the loop returns.
pub remove_permissions-marked :
    {W : Type 0} (env : Env W) (Q : W → Type 0) (fs_name share_id access_id other : String)
    (perm uid : Json) (perms : List Json) (names : List String)
    → ((any : Json) → Keeps Q (env.weka.delete_nfs_permission admin any))
    → Meets Anything (env.weka.delete_nfs_permission admin uid) (λ _. Q) Anything
    → Among perm perms
    → perm_keys perm ≡ ok (str fs_name, str (nfs_cg_name share_id (some other)))
    → index "uid" perm ≡ ok uid
    → (take 8 access_id ≡ take 8 other) ⊎ (take 8 access_id ≡ take 8 share_id)
    → Meets Anything
        (remove_permissions env fs_name (take 8 access_id) perms names)
        (λ _. Q)
        Anything
remove_permissions-marked env Q fs_name share_id access_id other perm uid perms names keeps deletes
      among keys found same =
    removed env Q fs_name (take 8 access_id) keeps perm uid (nfs_cg_name share_id (some other))
      perms names keys (marked share_id access_id other same) found among deletes
