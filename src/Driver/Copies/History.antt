-- ===== src/Driver/Copies/History.antt =====
-- driver.py: what `get_share_status` reports of a share is decided by the last event of its copy,
-- whatever the copies of other shares do, since the last restart of the process.
use manila_weka_driver.Prelude.{
  ◌≡◌, ◌≢◌, ◌↔◌, refl, String, Bool, Option, none, some, List, [], ◌∷◌, ◌==◌, arith, if◌then◌else◌,
  inl, inr, Option-cases,
}
use manila_weka_driver.Json.{Json}
use manila_weka_driver.Driver.{
  Env, Share, Copy, CopyStatus, creating_from_snapshot, available, error, lookup,
}
use manila_weka_driver.Driver.Copies.{Copies, begin_copy, end_copy, with_status, get_share_status}
use manila_weka_driver.Driver.Orgs.Cache.{lookup-assign}

-- What happens to the map, in the order in which the lock lets it happen.
pub data Event : Type 0 where
  begun : (share_id : String) → (fs_uid : Json) → (fs_name : String) → Event
  ended : (share_id : String) → (succeeded : Bool) → Event
  restarted : Event

unfoldable pub step : Event → Copies → Copies
unfolding begin_copy end_copy
step (begun share_id fs_uid fs_name) copies = begin_copy share_id fs_uid fs_name copies
step (ended share_id succeeded) copies = end_copy share_id succeeded copies
step restarted copies = []

-- The events, the last one first.
unfoldable pub run : List Event → Copies
unfolding step
run [] = []
run (e ∷ es) = step e (run es)

-- The specification, for one share and without a map: its last event since the restart.
abbrev pub expected : String → List Event → CopyStatus
expected share_id [] = error
expected share_id (begun id fs_uid fs_name ∷ es) =
    if id == share_id then creating_from_snapshot else expected share_id es
expected share_id (ended id succeeded ∷ es) =
    if id == share_id then (if succeeded then available else error) else expected share_id es
expected share_id (restarted ∷ es) = error

abbrev status_of : Option Copy → CopyStatus
status_of none = error
status_of (some entry) = entry.status

abbrev ended_as : Bool → CopyStatus
ended_as b = if b then available else error

status_of-end_copy :
    (share_id id : String) (b : Bool) (copies : Copies)
    → status_of (lookup share_id (end_copy id b copies)) ≡ (
        if id == share_id
        then (if b then available else error)
        else status_of (lookup share_id copies))
unfolding end_copy
status_of-end_copy share_id id b copies = elim (Option-cases (lookup id copies)) [
  | inl missing ↦ ground (arith, lookup-assign id share_id (with_status (ended_as b) none) copies)
  | inr (entry, found) ↦
      ground (arith, lookup-assign id share_id (with_status (ended_as b) (some entry)) copies)
]

status_of-run :
    (share_id : String) (es : List Event)
    → status_of (lookup share_id (run es)) ≡ expected share_id es
unfolding run lookup
status_of-run share_id [] = refl
status_of-run share_id (begun id uid name ∷ es) = ground (
  arith,
  lookup-assign id share_id (record { status = creating_from_snapshot; fs = some (uid, name) })
      (run es),
  status_of-run share_id es,
)
status_of-run share_id (ended id b ∷ es) =
    rw status_of-end_copy (ground (arith, status_of-run share_id es))
status_of-run share_id (restarted ∷ es) = refl

-- What `get_share_status` reports of a share after any events is its last one since the restart:
-- being copied, available, or error, and error where there is none. Export locations come with
-- `available` and with nothing else.
pub get_share_status-run :
    {W : Type 0} (env : Env W) (share : Share) (es : List Event)
    → let reported = get_share_status env share (run es) in
      (reported.status ≡ expected share.id es)
      × ((expected share.id es ≡ available) ↔ (reported.export_locations ≢ none))
unfolding get_share_status
get_share_status-run env share es = (
  ground (arith, status_of-run share.id es),
  (ground (arith, status_of-run share.id es), ground (arith, status_of-run share.id es)),
)
