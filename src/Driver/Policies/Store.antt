-- ===== src/Driver/Policies/Store.antt =====
-- What driver.py relies on of the security policies of a Weka cluster: a set of addresses for each
-- policy name, and how each call of the API reads or changes it. These are hypotheses on code that
-- is not in the repository; every call may fail, and no one else changes the share's policies
-- between the calls of one operation.
use manila_weka_driver.Prelude.{
  ◌≡◌, String, Bool, true, false, ◌==◌, Option, none, some, List, [], ◌∷◌, if◌then◌else◌,
}
use manila_weka_driver.Exceptions.{is_not_found}
use manila_weka_driver.Exec.{ok}
use manila_weka_driver.Exec.Rules.{Keeps, Ends}
use manila_weka_driver.Exec.Tolerance.{Ended}
use manila_weka_driver.Json.{Json}
use manila_weka_driver.Weka.{Handle}
use manila_weka_driver.Driver.{Env}
use manila_weka_driver.Driver.Errors.{is_already_exists_error}
use manila_weka_driver.Driver.Policies.{policy_uid, policy_ips, member}

-- Whether the policy of a name matches an address.
abbrev pub View : Type 0
View = String → String → Bool

-- The view with one policy's addresses replaced.
abbrev pub replaced : View → String → (String → Bool) → View
replaced v name f n i = if name == n then f i else v n i

abbrev pub with_ip : View → String → String → Bool → View
with_ip v name ip b = replaced v name (λ i. if ip == i then b else v name i)

abbrev pub Same : View → View → Type 0
Same v v' = (n i : String) → v' n i ≡ v n i

-- What a lookup by name reports of the view.
abbrev pub Reported : View → (String → Json → Type 0) → String → Option Json → Type 0
Reported v Owns name none = (i : String) → v name i ≡ false
Reported v Owns name (some pol) =
    ((uid : Json) → policy_uid pol ≡ ok uid → Owns name uid)
    × ((ips : List String) → policy_ips pol ≡ ok ips → (i : String) → member i ips ≡ v name i)

-- After an error nothing has changed; a policy that is not found matches no address.
abbrev pub Lost : Bool → String → View → View → Type 0
Lost missing name v v' = Same v v' × (missing ≡ true → (i : String) → v name i ≡ false)

pub record PolicyStore {W : Type 0} (env : Env W) (client : Handle) : Type 1 where
  pub view : W → View
  -- a UID belongs to one name for good
  pub Owns : String → Json → Type 0
  pub read :
      (name : String) (w : W)
      → Ends
          (λ o w'. Reported (view w) Owns name o × Same (view w) (view w'))
          (λ w'. Same (view w) (view w'))
          (env.weka.get_security_policy_by_name client name w)
  pub create :
      (name : String) (ips : List String) (action : String) (read_only : Bool) (w : W)
      → Ends
          (λ pol w'. Same (replaced (view w) name (λ i. member i ips)) (view w'))
          (λ w'. Same (view w) (view w'))
          (env.weka.create_security_policy client name ips action read_only w)
  -- An address that is refused because it exists is there.
  pub add :
      (name : String) (uid : Json) (ip : String) (w : W)
      → Owns name uid
      → Ended
          (λ _ w'. Same (with_ip (view w) name ip true) (view w'))
          (λ e w'.
            Same (view w) (view w') × (is_already_exists_error e ≡ true → view w name ip ≡ true))
          (env.weka.update_security_policy client uid (ip ∷ []) [] w)
  pub remove :
      (name : String) (uid : Json) (ip : String) (w : W)
      → Owns name uid
      → Ended
          (λ _ w'. Same (with_ip (view w) name ip false) (view w'))
          (λ e w'. Lost (is_not_found e) name (view w) (view w'))
          (env.weka.update_security_policy client uid [] (ip ∷ []) w)
  pub delete :
      (name : String) (uid : Json) (w : W)
      → Owns name uid
      → Ended
          (λ _ w'. Same (replaced (view w) name (λ _. false)) (view w'))
          (λ e w'. Lost (is_not_found e) name (view w) (view w'))
          (env.weka.delete_security_policy client uid w)
  pub attach :
      (v : View) (fs_uid uid : Json)
      → Keeps (λ w. Same v (view w)) (env.weka.attach_fs_security_policies client fs_uid (uid ∷ []))
  pub detach :
      (v : View) (fs_uid uid : Json)
      → Keeps (λ w. Same v (view w)) (env.weka.detach_fs_security_policies client fs_uid (uid ∷ []))
