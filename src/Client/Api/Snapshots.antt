-- ===== src/Client/Api/Snapshots.antt =====
-- client.py: snapshots, and the capacity of the cluster with its fallback on the drives.
use manila_weka_driver.Prelude.{
  ℕ, ◌+◌, ◌*◌, ◌/◌, String, Bool, Option, none, some, List, [], ◌∷◌, if◌then◌else◌,
}
use manila_weka_driver.Text.{◌⁺⁺◌}
use manila_weka_driver.Exceptions.{type_error}
use manila_weka_driver.Exec.{Result, ok, err, Exec, pure, lift, catching, ◌>>=◌}
use manila_weka_driver.Json.{
  Json, to_list, bool, num, str, arr, null, dict, elements, get, get_or, printed, same, or_else,
}
use manila_weka_driver.Client.{Conn, Net, post}
use manila_weka_driver.Client.Api.{
  find_named, path_of, call, unwrapped, get_data, post_data, delete_at,
}

-- `[s for s in snaps if s.get('filesystemUid') == fs_uid]`
unfoldable pub of_filesystem : Json → List Json → Result (List Json)
unfolding get same
of_filesystem fs_uid [] = ok []
of_filesystem fs_uid (s ∷ ss) =
    let rest = of_filesystem fs_uid ss in
    elim (get "filesystemUid" s) [
      | err e ↦ err e
      | ok found ↦ elim rest [
        | err e ↦ err e
        | ok kept ↦ if same (or_else found null) fs_uid then ok (s ∷ kept) else ok kept
      ]
    ]

-- The two sums over the drives, of `size_bytes` and of the used part of it.
unfoldable pub drive_sums : List Json → Result (ℕ × ℕ)
unfolding get_or
drive_sums [] = ok (0, 0)
drive_sums (d ∷ ds) =
    let rest = drive_sums ds in
    elim (get_or "size_bytes" (num 0) d) [
      | ok (num size) ↦ elim (get_or "percentage_used" (num 0) d) [
        | ok (num percent) ↦ elim rest [
          | ok (total, used) ↦ ok (size + total, size * percent / 100 + used)
          | err e ↦ err e
        ]
        | ok v ↦ err (type_error "percentage_used")
        | err e ↦ err e
      ]
      | ok v ↦ err (type_error "size_bytes")
      | err e ↦ err e
    ]

module _ {N : Type 0} (net : Net N) where
  -- with `fs_uid` none, every snapshot
  unfoldable pub list_snapshots : Option Json → Exec (Conn N) (List Json)
  unfolding get_data elements of_filesystem
  list_snapshots fs_uid = do
    snaps ← get_data net "/snapshots"
    items ← lift (elements snaps)
    elim fs_uid [ none ↦ pure items | some uid ↦ lift (of_filesystem uid items) ]

  unfoldable pub get_snapshot : Json → Exec (Conn N) Json
  unfolding get_data
  get_snapshot uid = get_data net (path_of net "/snapshots/" uid)

  unfoldable pub get_snapshot_by_name : String → Option Json → Exec (Conn N) (Option Json)
  unfolding list_snapshots find_named
  get_snapshot_by_name name fs_uid = do snaps ← list_snapshots fs_uid; lift (find_named name snaps)

  unfoldable pub create_snapshot : Json → (name : String) (is_writable : Bool) → Exec (Conn N) Json
  unfolding post_data
  create_snapshot fs_uid name is_writable =
      post_data net "/snapshots"
        (dict (("fs_uid", fs_uid) ∷ ("name", str name) ∷ ("is_writable", bool is_writable) ∷ []))

  unfoldable pub delete_snapshot : Json → Exec (Conn N) Json
  unfolding delete_at
  delete_snapshot uid = delete_at net (path_of net "/snapshots/" uid) none

  unfoldable pub restore_snapshot : (snap_uid fs_uid : Json) → Exec (Conn N) Json
  unfolding call unwrapped
  restore_snapshot snap_uid fs_uid = unwrapped net (
      call net post
        (path_of net "/snapshots/" fs_uid ⁺⁺ ("/" ⁺⁺ (printed net.show snap_uid ⁺⁺ "/restore")))
        none none)

  totals : Json → Result Json
  unfolding drive_sums
  totals (arr drives) = elim (drive_sums (to_list drives)) [
    | ok (total, used) ↦ ok (dict (("totalBytes", num total) ∷ ("usedBytes", num used) ∷ []))
    | err e ↦ err e
  ]
  totals _ = ok (dict [])

  -- GET /capacity, and on any failure the sums over GET /drives
  unfoldable pub get_capacity : Exec (Conn N) Json
  unfolding get_data totals
  get_capacity =
      catching (get_data net "/capacity")
        (λ e. do drives ← get_data net "/drives"; lift (totals drives))
