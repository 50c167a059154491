-- ===== src/Store/Machines/Registers.antt =====
-- The metadata and the daemon state of a machine are registers: refinement theorems.
use happy_server_lite.Base.{
  ℕ, GoString, ◌≡◌, ◌≢◌, refl, inc64, Option, none, inl, inr, Option-cases, arith, [], Bool-cases,
  eqb,
}
use happy_server_lite.Model.{Machine}
use happy_server_lite.Store.State.{Store}
use happy_server_lite.Store.Register.{write}
use happy_server_lite.Store.Machines.Snapshot.{Saves, snapshot_if_persistent-Saves}
use happy_server_lite.Store.Machines.{
  get_machine, put_machine, update_machine_metadata, update_machine_daemon_state,
}
use happy_server_lite.Store.Machines.Views.{
  metadata_of, daemon_state_of, get_machine-put_machine_self, get_machine-put_machine_ne,
}

module _ (s : Store) (user_id mid : GoString) (expected : ℕ) where
  -- The reply and the new metadata are those of a register write, the daemon state of the machine
  -- stays, and so does every other machine that anyone can read.
  pub update_machine_metadata-write :
      (metadata : GoString) (now : ℕ)
      → let (s', outcome, snapshot) = update_machine_metadata s user_id mid expected metadata now in
        ((outcome, metadata_of (get_machine s' user_id mid))
          ≡ write [] expected metadata (metadata_of (get_machine s user_id mid)))
        × (daemon_state_of (get_machine s' user_id mid)
            ≡ daemon_state_of (get_machine s user_id mid))
        × ((v j : GoString) → j ≢ mid → get_machine s' v j ≡ get_machine s v j)
  unfolding update_machine_metadata write
  update_machine_metadata-write metadata now = elim (Option-cases (get_machine s user_id mid)) [
    | inl e ↦ (ground arith, ground arith, λ v j h. ground arith)
    | inr (m, e) ↦
        let m' : Machine = record m {
          metadata = metadata;
          metadata_version = inc64 m.metadata_version;
          updated_at = now;
        } in
        let kept = get_machine-put_machine_self s user_id mid m m' e refl in
        (
          ground (arith, kept),
          ground (arith, kept),
          λ v j h. ground (arith, get_machine-put_machine_ne s mid m' v j h),
        )
  ]

  -- The reply and the new daemon state are those of a register write, the metadata of the machine
  -- stays, and so does every other machine that anyone can read.
  pub update_machine_daemon_state-write :
      (daemon_state : Option GoString) (now : ℕ)
      → let (s', outcome, snapshot) =
          update_machine_daemon_state s user_id mid expected daemon_state now in
        ((outcome, daemon_state_of (get_machine s' user_id mid))
          ≡ write none expected daemon_state (daemon_state_of (get_machine s user_id mid)))
        × (metadata_of (get_machine s' user_id mid) ≡ metadata_of (get_machine s user_id mid))
        × ((v j : GoString) → j ≢ mid → get_machine s' v j ≡ get_machine s v j)
  unfolding update_machine_daemon_state write
  update_machine_daemon_state-write daemon_state now =
      elim (Option-cases (get_machine s user_id mid)) [
        | inl e ↦ (ground arith, ground arith, λ v j h. ground arith)
        | inr (m, e) ↦
            let m' : Machine = record m {
              daemon_state = daemon_state;
              daemon_state_version = inc64 m.daemon_state_version;
              updated_at = now;
            } in
            let kept = get_machine-put_machine_self s user_id mid m m' e refl in
            (
              ground (arith, kept),
              ground (arith, kept),
              λ v j h. ground (arith, get_machine-put_machine_ne s mid m' v j h),
            )
      ]

  -- A snapshot goes with exactly the updates that succeed on a store with a state file.
  pub update_machine_metadata-Saves :
      (metadata : GoString) (now : ℕ)
      → let (s', outcome, snapshot) = update_machine_metadata s user_id mid expected metadata now in
        Saves outcome.status s' snapshot
  unfolding update_machine_metadata
  update_machine_metadata-Saves metadata now = elim (Option-cases (get_machine s user_id mid)) [
    | inl e ↦ rw (e, update_machine_metadata) (inr (inl (λ q. cc), refl))
    | inr (m, e) ↦
        let m' : Machine = record m {
          metadata = metadata;
          metadata_version = inc64 m.metadata_version;
          updated_at = now;
        } in
        elim (Bool-cases (eqb expected m.metadata_version)) [
          | inl hit ↦
              rw (e, update_machine_metadata, hit)
                (snapshot_if_persistent-Saves (put_machine s mid m'))
          | inr miss ↦ rw (e, update_machine_metadata, miss) (inr (inl (λ q. cc), refl))
        ]
  ]

  pub update_machine_daemon_state-Saves :
      (daemon_state : Option GoString) (now : ℕ)
      → let (s', outcome, snapshot) =
          update_machine_daemon_state s user_id mid expected daemon_state now in
        Saves outcome.status s' snapshot
  unfolding update_machine_daemon_state
  update_machine_daemon_state-Saves daemon_state now =
      elim (Option-cases (get_machine s user_id mid)) [
        | inl e ↦ rw (e, update_machine_daemon_state) (inr (inl (λ q. cc), refl))
        | inr (m, e) ↦
            let m' : Machine = record m {
              daemon_state = daemon_state;
              daemon_state_version = inc64 m.daemon_state_version;
              updated_at = now;
            } in
            elim (Bool-cases (eqb expected m.daemon_state_version)) [
              | inl hit ↦
                  rw (e, update_machine_daemon_state, hit)
                    (snapshot_if_persistent-Saves (put_machine s mid m'))
              | inr miss ↦ rw (e, update_machine_daemon_state, miss) (inr (inl (λ q. cc), refl))
            ]
      ]
