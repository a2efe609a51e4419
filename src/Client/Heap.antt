-- ===== src/Client/Heap.antt =====
-- The interface `Weka` by client.py: a heap of sessions, on which a call runs the method at the
-- session that its handle names. `for_org` logs a new session in and adds it.

use manila_weka_driver.Prelude.{
  ℕ, zero, suc, String, false, Option, none, some, List, [], ◌∷◌, ◌++◌, length,
}
use manila_weka_driver.Exceptions.{attribute_error}
use manila_weka_driver.Exec.{ok, err, Exec}
use manila_weka_driver.Weka.{Weka, Handle}
use manila_weka_driver.Client.{Net, Session, Conn, do_login}
use manila_weka_driver.Client.Api
use manila_weka_driver.Client.Api.Nfs
use manila_weka_driver.Client.Api.Policies
use manila_weka_driver.Client.Api.Snapshots

pub record Heap (N : Type 0) : Type 0 where
  pub sessions : List Session
  pub net : N

abbrev at : List Session → ℕ → Option Session
at [] h = none
at (s ∷ ss) zero = some s
at (s ∷ ss) (suc h) = at ss h

abbrev put_at : List Session → ℕ → Session → List Session
put_at [] h s' = []
put_at (s ∷ ss) zero s' = s' ∷ ss
put_at (s ∷ ss) (suc h) s' = s ∷ put_at ss h s'

module _ {N : Type 0} where
  -- A method of the client at a handle.
  unfoldable pub on : {A : Type 0} → Handle → Exec (Conn N) A → Exec (Heap N) A
  on h m heap = elim (at heap.sessions h) [
    | none ↦ (err (attribute_error "client"), heap)
    | some s ↦
        let (r, c) = m (record { self = s; net = heap.net }) in
        (r, record { sessions = put_at heap.sessions h c.self; net = c.net })
  ]

  -- `for_org`: a session with the settings of this one, kept once its login has succeeded
  unfoldable pub for_org : Net N → (organization username password : String) → Exec (Heap N) Handle
  for_org net organization username password heap = elim (at heap.sessions 0) [
    | none ↦ (err (attribute_error "client"), heap)
    | some own ↦
        let fresh : Session = record own {
          username = username;
          password = password;
          organization = organization;
          access_token = none;
          refresh_token = none;
        } in
        let (r, c) = do_login net (record { self = fresh; net = heap.net }) in
        elim r [
          | err e ↦ (err e, record heap { net = c.net })
          | ok done ↦ (
            ok (length heap.sessions),
            record { sessions = heap.sessions ++ c.self ∷ []; net = c.net },
          )
        ]
  ]

module _ {N : Type 0} (net : Net N) where
  unfoldable pub client_api : Weka (Heap N)
  unfolding on for_org
  client_api = record {
    for_org = for_org net;
    login = λ h. on h (do_login net);
    auth_token_payload = λ h. on h (Api.auth_token_payload net);
    get_cluster_status = λ h. on h (Api.get_cluster_status net);
    get_organization_by_name = λ h name. on h (Api.get_organization_by_name net name);
    create_organization = λ h name user password.
        on h (Api.create_organization net name user password none none false);
    create_user = λ h user role password. on h (Api.create_user net user role password);
    list_filesystems = λ h. on h (Api.list_filesystems net);
    get_filesystem = λ h uid. on h (Api.get_filesystem net uid);
    get_filesystem_by_name = λ h name. on h (Api.get_filesystem_by_name net name);
    create_filesystem =
        λ h name group total auth. on h (Api.create_filesystem net name group total auth);
    update_filesystem =
        λ h uid total. on h (Api.update_filesystem net uid none (some total) none none none);
    delete_filesystem = λ h uid. on h (Api.delete_filesystem net uid false);
    get_filesystem_group_by_name = λ h name. on h (Api.get_filesystem_group_by_name net name);
    create_filesystem_group = λ h name. on h (Api.create_filesystem_group net name none none);
    list_nfs_permissions = λ h. on h (Nfs.list_nfs_permissions net);
    create_nfs_permission = λ h group fs path access squash.
        on h (Nfs.create_nfs_permission net group fs path access (some squash) none none);
    delete_nfs_permission = λ h uid. on h (Nfs.delete_nfs_permission net uid);
    list_client_groups = λ h. on h (Nfs.list_client_groups net);
    create_client_group = λ h name. on h (Nfs.create_client_group net name);
    add_client_group_rule = λ h uid kind value. on h (Nfs.add_client_group_rule net uid kind value);
    get_client_group = λ h uid. on h (Nfs.get_client_group net uid);
    delete_client_group_rule = λ h uid rule. on h (Nfs.delete_client_group_rule net uid rule);
    delete_client_group = λ h uid. on h (Nfs.delete_client_group net uid);
    get_security_policy_by_name = λ h name. on h (Policies.get_security_policy_by_name net name);
    create_security_policy = λ h name ips action read_only.
        on h (Policies.create_security_policy net name ips action read_only);
    update_security_policy =
        λ h uid add remove. on h (Policies.update_security_policy net uid add remove);
    delete_security_policy = λ h uid. on h (Policies.delete_security_policy net uid);
    attach_fs_security_policies =
        λ h fs uids. on h (Policies.attach_fs_security_policies net fs uids);
    detach_fs_security_policies =
        λ h fs uids. on h (Policies.detach_fs_security_policies net fs uids);
    get_snapshot_by_name = λ h name fs. on h (Snapshots.get_snapshot_by_name net name fs);
    create_snapshot = λ h fs name writable. on h (Snapshots.create_snapshot net fs name writable);
    delete_snapshot = λ h uid. on h (Snapshots.delete_snapshot net uid);
    restore_snapshot = λ h snap fs. on h (Snapshots.restore_snapshot net snap fs);
    get_capacity = λ h. on h (Snapshots.get_capacity net);
  }
