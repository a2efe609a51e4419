-- ===== src/Driver/Copies.antt =====
-- driver.py: the life of a background copy in `_async_copies`: begun by
-- `create_share_from_snapshot`, ended by the worker `_run_snapshot_copy`, read by
-- `get_share_status`. The lock makes each of these steps whole; a restart loses the map.
pub mod History
use manila_weka_driver.Prelude.{
  ℕ, String, Bool, true, false, Option, none, some, List, [], ◌∷◌, ◌==◌, ◌≡◌, if◌then◌else◌,
}
use manila_weka_driver.Json.{Json, str}
use manila_weka_driver.Driver.{
  Env, Share, Location, Copy, CopyStatus, creating_from_snapshot, available, error, lookup, assign,
  is_isolated_wekafs,
}
use manila_weka_driver.Driver.Names.{share_name}
use manila_weka_driver.Driver.Resolve.{build_export_locations}

abbrev pub Copies : Type 0
Copies = List (String × Copy)

-- The entry that `create_share_from_snapshot` makes.
unfoldable pub begin_copy : String → Json → String → Copies → Copies
unfolding assign
begin_copy share_id fs_uid fs_name =
    assign share_id (record { status = creating_from_snapshot; fs = some (fs_uid, fs_name) })

abbrev pub with_status : CopyStatus → Option Copy → Copy
with_status status none = record { status = status; fs = none }
with_status status (some entry) = record entry { status = status }

-- The end of `_run_snapshot_copy`: `entry = get(share_id, {})` with its new status.
unfoldable pub end_copy : String → (succeeded : Bool) → Copies → Copies
unfolding lookup assign
end_copy share_id succeeded copies =
    assign share_id (with_status (if succeeded then available else error) (lookup share_id copies))
      copies

-- What `get_share_status` reports.
pub record Status : Type 0 where
  pub status : CopyStatus
  pub export_locations : Option (List Location)

abbrev pub named : Option (Json × String) → String → Json × String
named none default = (str "", default)
named (some fs) default = fs

unfoldable pub report : {W : Type 0} → Env W → Share → Option Copy → Status
unfolding share_name build_export_locations is_isolated_wekafs
report env share none = record { status = error; export_locations = none }
report env share (some entry) =
    let (uid, name) = named entry.fs (share_name env.config share.id) in
    elim entry.status [
      | available ↦ record {
        status = available;
        export_locations =
            some (build_export_locations env share name uid (is_isolated_wekafs share));
      }
      | error ↦ record { status = error; export_locations = none }
      | creating_from_snapshot ↦ record { status = creating_from_snapshot; export_locations = none }
    ]

-- `get_share_status`
unfoldable pub get_share_status : {W : Type 0} → Env W → Share → Copies → Status
unfolding lookup report
get_share_status env share copies = report env share (lookup share.id copies)
