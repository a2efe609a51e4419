-- ===== src/Lib.antt =====
-- Manila share driver for Weka storage (manila/share/drivers/weka).
--
-- The driver maps OpenStack Manila's share operations onto the REST API of a Weka cluster. NFS
-- shares live in the admin organization and get one client group and one permission for each access
-- rule; WEKAFS shares live in an organization for each project, and their rules become the addresses
-- of two security policies for each share (read-write and read-only). The parts and their files:
--
-- Exceptions   manila/share/drivers/weka/exceptions.py: the exception classes as one data type.
-- Exec         results that are values or exceptions, programs that pass a state, `try`; Exec/Rules,
--              Exec/Tolerance and Exec/Follows have the rules by which the other files reason on them.
-- Client       manila/share/drivers/weka/client.py, WekaApiClient: `_request` with its retries, the
--              token refresh and the login. Client/Answers has requests, answers and errors,
--              Client/Api the API methods, Client/Heap the sessions that `for_org` opens.
--              Client/Status, Client/Retry and Client/Sends are on `_request`.
-- Weka         the API as the driver calls it: an interface that Client/Heap fills.
-- Host         the host under the driver, a parameter, and the commands of manila/privsep/weka.py.
-- Posix        manila/share/drivers/weka/posix.py, WekaMount; Posix/Table is on the text of the mount
--              table, Posix/Mounting and Posix/Stacking on what mounting and unmounting do to it, Posix/Context on its use
--              as a context manager.
-- Utils        manila/share/drivers/weka/utils.py: `retry_on_transient` and `sanitize_log_params`.
-- Driver       manila/share/drivers/weka/driver.py, WekaShareDriver: configuration, shares and rules.
--   Names      `_share_name` and the other names, and the derived passwords.
--   Errors     which errors are tolerated, and the forms of an address.
--   Orgs       `_ensure_org`, `_org_client`, `_client_for_share`.
--   Policies   `_policy_set_ip` and its parts; Policies/Store says what a cluster's policies promise.
--   Groups     `_parse_policy_groups`; Groups/Entries has the notation that it reads, Groups/Notation
--              how it reads it.
--   Wekafs     `_update_wekafs_access` and what it calls; Wekafs/Pruning and Wekafs/Exact are on a
--              full sync: whatever fails in it, and where nothing does.
--   Exports    lookups of NFS permissions and client groups, and the steps of `_apply_nfs_rule`.
--   Nfs        `_update_nfs_access` and what it calls; Nfs/Marker is on the text that
--              `_remove_nfs_rule` looks for, Nfs/Frame on pruning, Nfs/Applied on `_apply_nfs_rule`
--              over the gateway of Nfs/Store.
--   Access     `update_access`.
--   Verdicts   what the loops over rules may report.
--   Resolve    `_get_fs_uid_for_share`, `_create_filesystem_idempotent`, `_build_export_locations`.
--   Shares     creation, resizing, snapshots; Shares/Shrinking is on `shrink_share`.
--   Copies     the map of background copies and `get_share_status`.
--   Transfer   `_copy_snapshot_nfs`, `_copy_snapshot_wekafs` and `_rsync_snapshot`.
--   Clones     `create_share_from_snapshot` and `_run_snapshot_copy`; Clones/Worker is on the map of
--              copies, Clones/Mounts on the temporary mounts.
--   Tokens     `_org_token_file`.
--   Deletion   `delete_share` and `_cleanup_wekafs_policies`; Deletion/Unmounted is on the mount of
--              the filesystem.
--   Health     `ensure_shares` and `_ensure_share`; Health/Intact is on organizations.
--   Adoption   `manage_existing` and `unmanage`; Adoption/Size is on the size of a managed share.
--   Setup      `do_setup`, `_ensure_filesystem_group` and `check_for_setup_error`.
--   Stats      `_update_share_stats`, `get_backend_info` and, from utils.py, `bytes_to_gb`.
-- Config       manila/share/drivers/weka/config.py, `weka_opts`; Config/Requests is on their bounds.
-- Ci           the Python programs of the continuous integration.
--   Listener   ci/gerrit-listener.py, `parse_event`; Listener/Triggers is on the events that start a
--              run of the tests.
--   Runs       ci/gerrit-listener.py: the record of tested patchsets, `run_job`, `stream_events` and
--              `main`; Runs/Reruns is on the record, Runs/Safety on the jobs.
--   Patcher    ci/patch-wekafs-protocol.py; Patcher/Patched is on the file that it leaves.
-- Text, Json   strings, and decoded JSON with Python's dict access and truth.
-- Tests        a small cluster, runs on it, and an instance of each result.
--
-- How the code is modelled. A method is a function from the state to a result and the next state; an
-- exception is a value, so what happened before it stays. The state is the session and the network in
-- Client, the list of sessions in Client/Heap, any cluster in the parts of the driver, and the
-- cluster with the cache of organization clients where the cache is concerned. Locks make their
-- blocks one step. A Python set of group names is a list without duplicates, as they come in some
-- order. Logging is left out. The retry loop is recursion on the attempts that are left, which
-- are `max_retries`; no other loop needs fuel but the printing of a number, where a number has no
-- more digits than its value plus one.
--
-- Code outside the repository is a parameter: the HTTP library, the clock and regular expressions
-- (Client.Net), HMAC-SHA256, the `ipaddress` module and share type specs (Driver.Env), the commands,
-- files and directories of the host with Manila's retry decorator (Host), and the cluster behind the
-- API (Weka), and for the Ci programs regular expressions, files and processes (Ci.Listener.Python,
-- Ci.Runs.Machine, Ci.Patcher.Regex and Ci.Patcher.Files). Where a result needs the cluster to
-- behave, it takes the law as a hypothesis: Driver.Policies.Store.PolicyStore for security policies,
-- Driver.Nfs.Store.NfsStore for client groups and permissions, Config.Accepted for the options,
-- Ci.Patcher.Patched.Disk for a file, Driver.Nfs.Frame.Spares for deletions,
-- Driver.Shares.Shrinking.Sized for capacities, Driver.Orgs.Frame.Opens for organizations,
-- Driver.Orgs.Entered.Finds and Driver.Health.Intact.Checks for a check of shares,
-- Posix.Mounting.MountTable, Posix.Context.Unmounts and Posix.Stacking.Mountable for mounts,
-- Ci.Patcher.Patched.Reads for the patcher's regular expressions,
-- Driver.Clones.Mounts.CopyHost for temporary directories, Driver.Deletion.Unmounted.Deletes for
-- deletions of shares; the tests have an instance of each.
--
-- The sizes of `bytes_to_gb` are numbers of hundredths of a GiB, as the source computes them below
-- 2**53 bytes; that a larger size is rounded to a float first is not modelled. A thread is not run:
-- the call that starts it returns the arguments of its worker. The delays of `retry_on_transient` are numbers.
--
-- Not modelled: the host, the port, the timeout and the pool sizes that the client's constructor gets,
-- which only the HTTP library reads, the signal handler and the log of the listener, the stubs of
-- third-party packages (stubs), and the tests, shell scripts and settings around the driver (tests,
-- ci, devstack, tools).
pub mod Prelude
pub mod Text
pub mod Json
pub mod Exceptions
pub mod Exec
pub mod Client
pub mod Weka
pub mod Host
pub mod Posix
pub mod Utils
pub mod Driver
pub mod Config
pub mod Ci
pub mod Tests
