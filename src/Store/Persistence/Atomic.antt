-- ===== src/Store/Persistence/Atomic.antt =====
-- Whatever system calls fail, the state file is replaced as a whole or left alone.
use happy_server_lite.Base.{
  ℕ, GoString, is_empty, ◌==◌, ==_iff, ◌≡◌, ◌≢◌, Option, none, some, Bool, false, ◌&&◌, ◌||◌, not,
  inl, inr, Option-cases, lookup, insert, delete, lookup-insert, lookup-delete, if◌then◌else◌, List,
  [], ◌∷◌, ◌++◌, take, arith,
}
use happy_server_lite.Model.{Machine}
use happy_server_lite.Store.Persistence.{
  PersistedMachinesFile, Disk, Calls, fill_and_rename, persist_machines_snapshot,
}

-- Every call succeeds.
abbrev pub all_succeed : Calls → Bool
all_succeed c = not (
    c.mkdir_fails || c.create_fails || c.chmod_fails || c.write_fails || c.sync_fails
    || c.close_fails || c.rename_fails)

abbrev pub snapshot_file : List Machine → ℕ → PersistedMachinesFile
snapshot_file machines now = record { version = 1; machines = machines; saved_at = now }

module _ (path contents : GoString) (c : Calls) (d : Disk) where
  -- A call after the creation of the temporary file fails.
  abbrev late_failure : Bool
  late_failure = c.chmod_fails || c.write_fails || c.sync_fails || c.close_fails || c.rename_fails

  lookup-fill_and_rename :
      c.tmp_name ≢ path
      → lookup c.tmp_name d ≡ none
      → (j : GoString)
      → lookup j (fill_and_rename path contents c (insert c.tmp_name [] d))
        ≡ (if path == j && not late_failure then some contents else lookup j d)
  unfolding fill_and_rename
  lookup-fill_and_rename other unused j =
      let tmp = c.tmp_name in
      let created = insert tmp [] d in
      let partly = insert tmp (take c.written contents) created in
      let full = insert tmp contents created in
      let renamed = insert path contents (delete tmp full) in
      ground (
        arith,
        ==_iff tmp j,
        ==_iff path j,
        lookup-insert j tmp [] d,
        lookup-insert j tmp (take c.written contents) created,
        lookup-insert j tmp contents created,
        lookup-delete j tmp created,
        lookup-delete j tmp partly,
        lookup-delete j tmp full,
        lookup-insert j path contents (delete tmp full),
        lookup-delete j tmp renamed,
      )

pub persist_machines_snapshot-lookup :
    (marshal : PersistedMachinesFile → Option GoString) (path : GoString) (machines : List Machine)
    (now : ℕ) (c : Calls) (d : Disk)
    → is_empty path ≡ false
    → c.tmp_name ≢ path
    → lookup c.tmp_name d ≡ none
    → (j : GoString)
    → lookup j (persist_machines_snapshot marshal path machines now c d)
      ≡ (elim (marshal (snapshot_file machines now)) [
        | none ↦ lookup j d
        | some contents ↦
            if path == j && all_succeed c then some (contents ++ b'\n' ∷ []) else lookup j d
      ])
unfolding persist_machines_snapshot
persist_machines_snapshot-lookup marshal path machines now c d named other unused j =
    elim (Option-cases (marshal (snapshot_file machines now))) [
      | inl e ↦ ground (arith, e, named)
      | inr (contents, e) ↦
          ground (
            arith,
            e,
            named,
            lookup-fill_and_rename path (contents ++ b'\n' ∷ []) c d other unused j,
          )
    ]
