-- ===== src/Store/Isolation/Machines.antt =====
-- Operations on machines.
use happy_server_lite.Base.{
  ℕ, GoString, ==_iff, ◌≡◌, ◌≢◌, refl, sym, ◌∙◌, subst, Option, some, inl, inr, lookup,
  lookup-insert, arith, eqb, inc64, Option-cases, Bool-cases,
}
use happy_server_lite.Model.{Machine}
use happy_server_lite.Store.State.{Store}
use happy_server_lite.Store.Sessions.{get_session}
use happy_server_lite.Store.Messages.{list_messages, get_after}
use happy_server_lite.Store.Artifacts.{get_artifact}
use happy_server_lite.Store.Accounts.{get_account_settings}
use happy_server_lite.Store.Machines.{
  MachineRequest, Upserted, put_machine, get_machine, upsert_machine, update_machine_metadata,
  update_machine_daemon_state,
}
use happy_server_lite.Store.Machines.Upsert.{
  Ends, no_identifier, foreign, unchanged, updated, created, upsert_machine-Ends,
}
use happy_server_lite.Store.Isolation.{Untouched, same_store-Untouched}

module _ (u v : GoString) (other : u ≢ v) where
  put_machine-Untouched :
      (s : Store) (mid : GoString) (m' : Machine)
      → ((m : Machine) → lookup mid s.machines_by_id ≡ some m → m.user_id ≡ u)
      → m'.user_id ≡ u
      → Untouched v s (put_machine s mid m')
  unfolding get_machine get_session get_artifact get_account_settings list_messages get_after
  put_machine-Untouched s mid m' old new = record {
    sessions = λ j. refl;
    messages = λ j after limit. refl;
    machines = λ j. elim (Option-cases (lookup mid s.machines_by_id)) [
      | inl e ↦ ground (
        arith,
        e,
        new,
        other,
        lookup-insert j mid m' s.machines_by_id,
        ==_iff mid j,
        ==_iff m'.user_id v,
      )
      | inr (m, e) ↦ ground (
        arith,
        e,
        new,
        old m e,
        other,
        lookup-insert j mid m' s.machines_by_id,
        ==_iff mid j,
        ==_iff m'.user_id v,
        ==_iff m.user_id v,
      )
    ];
    artifacts = λ j. refl;
    settings = refl;
  }

  get_machine_owner :
      (s : Store) (mid : GoString) (m : Machine)
      → get_machine s u mid ≡ some m
      → (lookup mid s.machines_by_id ≡ some m) × (m.user_id ≡ u)
  unfolding get_machine
  get_machine_owner s mid m h = elim (Option-cases (lookup mid s.machines_by_id)) [
    | inl e ↦ absurd (ground (arith, h, e))
    | inr (x, e) ↦ ground (arith, h, e, ==_iff x.user_id u)
  ]

  replaced-Untouched :
      (s : Store) (mid : GoString) (m m' : Machine)
      → get_machine s u mid ≡ some m
      → m'.user_id ≡ m.user_id
      → Untouched v s (put_machine s mid m')
  replaced-Untouched s mid m m' h same =
      let (found, own) = get_machine_owner s mid m h in
      put_machine-Untouched s mid m' (λ x e. cc (e, found, own)) (same ∙ own)

  pub update_machine_metadata-Untouched :
      (s : Store) (mid : GoString) (expected : ℕ) (metadata : GoString) (now : ℕ)
      → Untouched v s (update_machine_metadata s u mid expected metadata now).0
  unfolding update_machine_metadata
  update_machine_metadata-Untouched s mid expected metadata now =
      elim (Option-cases (get_machine s u mid)) [
        | inl e ↦ subst (Untouched v s) (ground (arith, e)) (same_store-Untouched v s)
        | inr (m, e) ↦
            let m' : Machine = record m {
              metadata = metadata;
              metadata_version = inc64 m.metadata_version;
              updated_at = now;
            } in
            elim (Bool-cases (eqb expected m.metadata_version)) [
              | inl hit ↦
                  subst (Untouched v s) (ground (arith, e, hit))
                    (replaced-Untouched s mid m m' e refl)
              | inr miss ↦
                  subst (Untouched v s) (ground (arith, e, miss)) (same_store-Untouched v s)
            ]
      ]

  pub update_machine_daemon_state-Untouched :
      (s : Store) (mid : GoString) (expected : ℕ) (daemon_state : Option GoString) (now : ℕ)
      → Untouched v s (update_machine_daemon_state s u mid expected daemon_state now).0
  unfolding update_machine_daemon_state
  update_machine_daemon_state-Untouched s mid expected daemon_state now =
      elim (Option-cases (get_machine s u mid)) [
        | inl e ↦ subst (Untouched v s) (ground (arith, e)) (same_store-Untouched v s)
        | inr (m, e) ↦
            let m' : Machine = record m {
              daemon_state = daemon_state;
              daemon_state_version = inc64 m.daemon_state_version;
              updated_at = now;
            } in
            elim (Bool-cases (eqb expected m.daemon_state_version)) [
              | inl hit ↦
                  subst (Untouched v s) (ground (arith, e, hit))
                    (replaced-Untouched s mid m m' e refl)
              | inr miss ↦
                  subst (Untouched v s) (ground (arith, e, miss)) (same_store-Untouched v s)
            ]
      ]

  ended-Untouched :
      (s : Store) (r : MachineRequest) (now : ℕ) (out : Upserted)
      → Ends s r now out
      → r.user_id ≡ u
      → Untouched v s out.0
  ended-Untouched s r now out (no_identifier h e) by =
      subst (λ (o : Upserted). Untouched v s o.0) (sym e) (same_store-Untouched v s)
  ended-Untouched s r now out (foreign m f n e) by =
      subst (λ (o : Upserted). Untouched v s o.0) (sym e) (same_store-Untouched v s)
  ended-Untouched s r now out (unchanged m f o has e) by =
      subst (λ (o : Upserted). Untouched v s o.0) (sym e) (same_store-Untouched v s)
  ended-Untouched s r now out (updated old m snapshot f own contents saves e) by =
      subst (λ (o : Upserted). Untouched v s o.0) (sym e)
        (put_machine-Untouched s r.machine_id m (λ x g. cc (f, g, own, by))
          (contents.owner ∙ own ∙ by))
  ended-Untouched s r now out (created m snapshot f contents saves e) by =
      subst (λ (o : Upserted). Untouched v s o.0) (sym e)
        (put_machine-Untouched s r.machine_id m (λ x g. cc (f, g)) (contents.owner ∙ by))

  pub upsert_machine-Untouched :
      (s : Store) (r : MachineRequest) (now : ℕ)
      → r.user_id ≡ u
      → Untouched v s (upsert_machine s r now).0
  upsert_machine-Untouched s r now by =
      ended-Untouched s r now (upsert_machine s r now) (upsert_machine-Ends s r now) by
