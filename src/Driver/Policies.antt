-- ===== src/Driver/Policies.antt =====
-- driver.py: one address in a share's own rw or ro security policy.
pub mod Store
pub mod Views
pub mod Added
pub mod Addresses
pub mod Others
use manila_weka_driver.Prelude.{
  ℕ, String, Bool, true, false, not, ◌&&◌, ◌||◌, ◌==◌, Option, none, some, List, [], ◌∷◌, any,
  if◌then◌else◌,
}
use manila_weka_driver.Exceptions.{Exc, is_api_error, is_not_found}
use manila_weka_driver.Exec.{Result, ok, err, Exec, pure, raise, lift, catching_if, ◌>>=◌, ◌>>◌}
use manila_weka_driver.Json.{Json, null, arr, nil, get, or_else, truthy, elements, as_text}
use manila_weka_driver.Weka.{Weka, Handle}
use manila_weka_driver.Driver.{Env, Share}
use manila_weka_driver.Driver.Names.{wekafs_policy_name}
use manila_weka_driver.Driver.Errors.{is_already_exists_error, is_attached_before}

-- The two access levels of a policy.
pub data Level : Type 0 where
  read_write read_only : Level

abbrev pub level_text : Level → String
level_text read_write = "rw"
level_text read_only = "ro"

abbrev pub other : Level → Level
other read_write = read_only
other read_only = read_write

abbrev pub is_read_only : Level → Bool
is_read_only read_write = false
is_read_only read_only = true

-- `a.get(k) or b.get(l)` on one dict, None as the value null
unfoldable pub get_first : String → String → Json → Result Json
unfolding get truthy
get_first k l d = elim (get k d) [
  | err e ↦ err e
  | ok found ↦
      if truthy (or_else found null)
      then ok (or_else found null)
      else elim (get l d) [ err e ↦ err e | ok second ↦ ok (or_else second null) ]
]

-- `_policy_uid`
unfoldable pub policy_uid : Json → Result Json
unfolding get_first
policy_uid policy = get_first "uid" "id" policy

unfoldable pub as_texts : List Json → Result (List String)
unfolding as_text
as_texts [] = ok []
as_texts (v ∷ vs) =
    let rest = as_texts vs in
    elim (as_text v) [ err e ↦ err e | ok s ↦ elim rest [ err e ↦ err e | ok ss ↦ ok (s ∷ ss) ] ]

-- `_policy_ips`
unfoldable pub policy_ips : Json → Result (List String)
unfolding get_first truthy elements as_texts
policy_ips policy = elim (get_first "ips" "ip" policy) [
  | err e ↦ err e
  | ok v ↦ elim (elements (if truthy v then v else arr nil)) [ err e ↦ err e | ok vs ↦ as_texts vs ]
]

abbrev pub member : String → List String → Bool
member s ss = any (λ t. t == s) ss

-- `[i for i in current if i != weka_ip]`
unfoldable pub without : String → List String → List String
without s [] = []
without s (t ∷ ts) = let rest = without s ts in if t == s then rest else t ∷ rest

abbrev pub ignoring : {S : Type 0} → (Exc → Bool) → Exec S Json → Exec S (Unit {0})
ignoring c m = catching_if c (m >> pure tt) (λ e. pure tt)

module _ {W : Type 0} (env : Env W) (client : Handle) (share_id : String) (fs_uid : Json) where
  -- The attachment of a policy, where the filesystem is known.
  unfoldable pub attach : Json → Exec W (Unit {0})
  unfolding truthy policy_uid is_attached_before
  attach pol =
      if truthy fs_uid
      then (do
        uid ← lift (policy_uid pol)
        catching_if is_api_error
            (env.weka.attach_fs_security_policies client fs_uid (uid ∷ []) >> pure tt)
            (λ e. if is_attached_before e then pure tt else raise e))
      else pure tt

  -- The branch `present=True`: the policy that holds the address from now on.
  unfoldable pub ensure_ip : String → Level → String → Option Json → Exec W Json
  unfolding policy_ips policy_uid is_already_exists_error
  ensure_ip name level weka_ip none =
      env.weka.create_security_policy client name (weka_ip ∷ []) "Allow" (is_read_only level)
  ensure_ip name level weka_ip (some pol) = do
    ips ← lift (policy_ips pol)
    if member weka_ip ips then pure pol else (do
      uid ← lift (policy_uid pol)
      catching_if is_api_error
          (env.weka.update_security_policy client uid (weka_ip ∷ []) [] >> pure pol)
          (λ e. if is_already_exists_error e then pure pol else raise e))

  unfoldable pub detach : Json → Exec W (Unit {0})
  unfolding truthy policy_uid
  detach pol =
      if truthy fs_uid
      then (do
        uid ← lift (policy_uid pol)
        ignoring is_api_error (env.weka.detach_fs_security_policies client fs_uid (uid ∷ [])))
      else pure tt

  -- Detaches and deletes a policy that has no address left.
  unfoldable pub drop_policy : Json → Exec W (Unit {0})
  unfolding detach policy_uid
  drop_policy pol = do
    detach pol
    uid ← lift (policy_uid pol)
    ignoring is_not_found (env.weka.delete_security_policy client uid)

  unfoldable pub drop_if_empty : Json → List String → Exec W (Unit {0})
  unfolding drop_policy
  drop_if_empty pol [] = drop_policy pol
  drop_if_empty pol (ip ∷ ips) = pure tt

  -- The address goes from a policy that has it.
  unfoldable pub take_out : String → Json → List String → Exec W (Unit {0})
  unfolding policy_uid
  take_out weka_ip pol current =
      if member weka_ip current
      then (do
        uid ← lift (policy_uid pol)
        ignoring is_not_found (env.weka.update_security_policy client uid [] (weka_ip ∷ [])))
      else pure tt

  -- The branch `present=False`.
  unfoldable pub remove_ip : String → Option Json → Exec W (Unit {0})
  unfolding policy_ips take_out without drop_if_empty
  remove_ip weka_ip none = pure tt
  remove_ip weka_ip (some pol) = do
    current ← lift (policy_ips pol)
    take_out weka_ip pol current
    drop_if_empty pol (if member weka_ip current then without weka_ip current else current)

  -- `_policy_set_ip`
  unfoldable pub policy_set_ip : Level → String → (present : Bool) → Exec W (Unit {0})
  unfolding wekafs_policy_name ensure_ip attach remove_ip
  policy_set_ip level weka_ip present = do
    let name = wekafs_policy_name share_id (level_text level)
    found ← env.weka.get_security_policy_by_name client name
    if present
        then (do pol ← ensure_ip name level weka_ip found; attach pol)
        else remove_ip weka_ip found
